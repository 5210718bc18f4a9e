-- ===== src/Dsse/Sign.antt =====
-- crates/aep-core/src/dsse.rs and signing.rs: the floor check, the in-toto statement and
-- `sign_record_dsse`.
pub mod Floor
pub mod Statement
use wasmagent_proxy.Base.{
  ℕ, Bool, true, false, ◌≡◌, Option, none, some, List, [], ◌∷◌, ◌++◌, Text, Bytes, codes, text_eq,
  as_bytes, Result, ok, err, panic, ◌>>=◌, ◌>>◌, ok_or, reject_if, min_by_key, ltb, if◌then◌else◌,
}
use wasmagent_proxy.Json.{Value, string, array, object, Items, nil, cons, Fields, insert, Crates}
use wasmagent_proxy.Evidence.{AepRecord, DsseEnvelope, DsseSignature}
use wasmagent_proxy.Evidence.Serialize.{record_to_value}
use wasmagent_proxy.Dsse.Pae.{in_toto_payload_type, pae_encode}
use wasmagent_proxy.Dsse.Canonical.{canonical_json}

abbrev pub in_toto_statement_type : Text
in_toto_statement_type = codes "https://in-toto.io/Statement/v1"

abbrev pub aep_predicate_type : Text
aep_predicate_type = codes "https://wasmagent.dev/attestations/aep/v0.4"

unfoldable pub grade_rank : Text → ℕ
grade_rank grade =
    if text_eq grade (codes "none")
    then 0
    else if text_eq grade (codes "operator_asserted")
    then 1
    else if text_eq grade (codes "principal_key_signed")
    then 2
    else if text_eq grade (codes "organization_attested")
    then 3
    else if text_eq grade (codes "subject_consented")
    then 4
    else 0

abbrev pub is_nil : List Text → Bool
is_nil [] = true
is_nil (g ∷ gs) = false

-- The grades of a record that has a floor.
unfoldable pub check_floor : Text → Option (List Text) → Result (Unit {0})
check_floor floor backing = do
  observed ← ok_or backing (codes "floor set but observed absent")
  reject_if (is_nil observed) (codes "floor set but observed is empty")
  weakest ← ok_or (min_by_key grade_rank observed) (codes "observed is empty")
  reject_if (ltb (grade_rank weakest) (grade_rank floor)) (
      codes "floor ("
      ++ (floor ++ (codes ") is stronger than weakest observed (" ++ (weakest ++ codes ")"))))

unfoldable pub check_grading : Option Text → Option (List Text) → Result (Unit {0})
unfolding check_floor
check_grading (some floor) backing = check_floor floor backing
check_grading none (some observed) = err (codes "observed set but floor absent")
check_grading none none = ok tt

-- The record without its signing fields.
abbrev pub strip : AepRecord → AepRecord
strip r = record r { signature = none; dsse_envelope = none }

abbrev pub subject_name : Text → Text
subject_name run_id = codes "urn:wasmagent:run:" ++ run_id

unfoldable pub wrap_in_toto_statement : Value → Text → Text → Value
unfolding insert
wrap_in_toto_statement predicate run_id payload_digest_hex =
    let digest = object (insert (codes "sha256") (string payload_digest_hex) Fields.end) in
    let subject = object (
      insert (codes "digest") digest
        (insert (codes "name") (string (subject_name run_id)) Fields.end)) in
    let m = insert (codes "_type") (string in_toto_statement_type) Fields.end in
    let m = insert (codes "subject") (array (cons subject nil)) m in
    let m = insert (codes "predicateType") (string aep_predicate_type) m in
    object (insert (codes "predicate") predicate m)

module _ (x : Crates) where
  unfoldable pub sha256_hex : Bytes → Text
  sha256_hex bytes = x.hex_encode (x.sha256 bytes)

  -- signing.rs
  unfoldable pub encode_signature : Bytes → Text
  encode_signature sig_bytes = x.base64_encode sig_bytes

  -- The digest of the canonical form of a stripped record, which both sides derive.
  unfoldable pub payload_digest : AepRecord → Text
  unfolding sha256_hex
  payload_digest r = sha256_hex (as_bytes (canonical_json x (record_to_value (strip r))))

  unfoldable pub statement : AepRecord → Value
  statement r = wrap_in_toto_statement (record_to_value (strip r)) r.run_id (payload_digest r)

  unfoldable pub statement_bytes : AepRecord → Bytes
  statement_bytes r = as_bytes (canonical_json x (statement r))

  unfoldable pub sign_envelope : AepRecord → Bytes → Text → DsseEnvelope
  unfolding encode_signature
  sign_envelope r key key_id =
      let bytes = statement_bytes r in
      let pae = pae_encode in_toto_payload_type bytes in
      record {
        payload_type = in_toto_payload_type;
        payload = x.base64_encode bytes;
        signatures = record { keyid = key_id; sig = encode_signature (x.sign key pae) } ∷ [];
      }

  -- The record as the call leaves it, and what it returns.
  unfoldable pub sign_record_dsse : AepRecord → Bytes → Text → AepRecord × Result (Unit {0})
  unfolding sign_envelope
  sign_record_dsse r key key_id =
      elim (check_grading r.run_attribution_backing_floor r.run_attribution_backing_observed) [
        | ok _ ↦ (
          record r { signature = none; dsse_envelope = some (sign_envelope r key key_id) },
          ok tt,
        )
        | err e ↦ (r, err e)
        | panic e ↦ (r, panic e)
      ]
