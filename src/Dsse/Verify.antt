-- ===== src/Dsse/Verify.antt =====
-- crates/aep-core/src/dsse.rs: `verify_record_dsse`.
pub mod Opens
pub mod Binding
pub mod Accepted
pub mod Content
pub mod Missing
pub mod Panics
pub mod RoundTrip
pub mod Signed
pub mod Tampered
mod Tests
use wasmagent_proxy.Base.{
  ℕ, ◌%◌, Bool, true, false, not, ◌≡◌, Option, none, some, List, [], ◌∷◌, ◌++◌, map, Text, Bytes,
  codes, text_eq, byte_len, decimal, length, Result, ok, err, panic, ◌>>=◌, ◌>>◌, ok_or, map_err,
  reject_if, ◌==◌, if◌then◌else◌,
}
use wasmagent_proxy.Json.{
  Value, Items, nil, cons, Map, get, index, as_str, as_array, as_object, Crates,
}
use wasmagent_proxy.Evidence.{AepRecord, DsseEnvelope, DsseSignature}
use wasmagent_proxy.Dsse.Pae.{in_toto_payload_type, pae_encode}
use wasmagent_proxy.Dsse.Sign.{
  in_toto_statement_type, aep_predicate_type, subject_name, payload_digest,
}

-- The loop of `decode_base64_lenient`.
abbrev pub to_standard : ℕ → ℕ
to_standard c = if c == b'-' then b'+' else if c == b'_' then b'/' else c

unfoldable pub padding : ℕ → Text
padding n = if n % 4 == 2 then codes "==" else if n % 4 == 3 then codes "=" else []

unfoldable pub normalize : Text → Text
unfolding padding
normalize input = let standard = map to_standard input in standard ++ padding (byte_len standard)

-- `signatures[0]` and `digest_map["sha256"]`: an index that is not there panics.
abbrev pub first : List DsseSignature → Result DsseSignature
first [] = panic (codes "index out of bounds")
first (s ∷ signatures) = ok s

abbrev pub first_subject : Items → Result Value
first_subject nil = err (codes "statement.subject is empty")
first_subject (cons subject subjects) = ok subject

abbrev pub entry_or_panic : Option Value → Result Value
entry_or_panic none = panic (codes "no entry found for key")
entry_or_panic (some v) = ok v

abbrev pub map_index : Map → Text → Result Value
map_index m k = entry_or_panic (get m k)

-- The two tests of the number of signatures.
unfoldable pub check_count : ℕ → Result (Unit {0})
check_count n = do
  reject_if (n == 0) (codes "no signatures in envelope")
  reject_if (not (n == 1)) (codes "AEP requires exactly one signature, got " ++ decimal n)

-- A string that has to be there and to be the expected one.
unfoldable pub expect_text : Option Text → Text → Text → (Text → Text) → Result (Unit {0})
expect_text found missing expected mismatch = do
  actual ← ok_or found missing
  reject_if (not (text_eq actual expected)) (mismatch actual)

-- The tests of `_type` and `predicateType`.
unfoldable pub check_types : Value → Result (Unit {0})
check_types statement = do
  expect_text (as_str (index statement (codes "_type")))
      (codes "statement._type missing or not a string") in_toto_statement_type
      (λ actual.
        codes "statement._type mismatch: expected "
        ++ (in_toto_statement_type ++ (codes ", got " ++ actual)))
  expect_text (as_str (index statement (codes "predicateType")))
      (codes "statement.predicateType missing or not a string") aep_predicate_type
      (λ actual.
        codes "predicateType mismatch: expected "
        ++ (aep_predicate_type ++ (codes ", got " ++ actual)))

-- The tests of the subject: its digest, its name, and that there is one.
unfoldable pub check_digest : Map → Text → Result (Unit {0})
check_digest digest_map expected_digest = do
  entry ← map_index digest_map (codes "sha256")
  expect_text (as_str entry) (codes "subject[0].digest.sha256 missing") expected_digest (λ actual.
      codes "subject digest mismatch: envelope has "
      ++ (actual ++ (codes ", record re-derives " ++ expected_digest)))

unfoldable pub check_first : Value → Text → Text → Result (Unit {0})
check_first subject expected_subject_name expected_digest = do
  expect_text (as_str (index subject (codes "name")))
      (codes "subject[0].name missing or not a string") expected_subject_name
      (λ actual.
        codes "subject name mismatch: expected "
        ++ (expected_subject_name ++ (codes ", got " ++ actual)))
  digest_map ←
      ok_or (as_object (index subject (codes "digest")))
        (codes "subject[0].digest is not an object")
  check_digest digest_map expected_digest

unfoldable pub check_subject : Value → Text → Text → Result (Unit {0})
check_subject statement expected_subject_name expected_digest = do
  subjects ←
      ok_or (as_array (index statement (codes "subject")))
        (codes "statement.subject is not an array")
  subject ← first_subject subjects
  check_first subject expected_subject_name expected_digest

module _ (x : Crates) where
  unfoldable pub decode_base64_lenient : Text → Result Bytes
  unfolding normalize
  decode_base64_lenient input =
      map_err (x.base64_decode (normalize input)) (λ _. codes "dsse signature is not valid base64")

  -- The part up to the signature, whose result is the signed statement.
  unfoldable pub open_envelope : DsseEnvelope → Bytes → Result Value
  open_envelope envelope verifying_key = do
    reject_if (not (text_eq envelope.payload_type in_toto_payload_type))
        (codes "unexpected payloadType: " ++ envelope.payload_type)
    check_count (length envelope.signatures)
    statement_bytes ←
        map_err (x.base64_decode envelope.payload) (λ e. codes "payload base64 decode: " ++ e)
    signature ← first envelope.signatures
    sig_bytes ←
        map_err (decode_base64_lenient signature.sig) (λ e. codes "sig base64 decode: " ++ e)
    reject_if (not (length sig_bytes == 64)) (codes "signature is not 64 bytes")
    map_err (x.verify verifying_key (pae_encode in_toto_payload_type statement_bytes) sig_bytes)
        (λ e. codes "DSSE signature invalid: " ++ e)
    map_err (x.from_slice statement_bytes) (λ e. codes "statement JSON parse: " ++ e)

  unfoldable pub verify_record_dsse : AepRecord → Bytes → Result (Unit {0})
  verify_record_dsse r verifying_key = do
    envelope ← ok_or r.dsse_envelope (codes "dsse_envelope missing")
    statement ← open_envelope envelope verifying_key
    check_types statement
    check_subject statement (subject_name r.run_id) (payload_digest x r)
