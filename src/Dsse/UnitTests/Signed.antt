-- ===== src/Dsse/UnitTests/Signed.antt =====
-- crates/aep-core/src/dsse.rs: its unit tests that sign a record and verify it, for whatever crates
-- and keys, and that they pass with crates that do what they document. The key of the tests is 32
-- bytes of 7, or of 9.
use wasmagent_proxy.Base.{
  ◌≡◌, ◌≢◌, inl, inr, refl, Bool, true, ◌&&◌, ◌||◌, some, List, [], ◌==◌, false, ◌∷◌, Text, Bytes,
  codes, text_eq, contains, length, ok, panic, Result-cases,
}
use wasmagent_proxy.Base.Asserts.{is_ok, is_err, err_that, some_and}
use wasmagent_proxy.Json.{Crates}
use wasmagent_proxy.Json.Readable.{is_readable}
use wasmagent_proxy.Json.Order.{AreFields}
use wasmagent_proxy.Evidence.{DsseSignature}
use wasmagent_proxy.Evidence.Serialize.{record_to_value}
use wasmagent_proxy.Dsse.Pae.{in_toto_payload_type}
use wasmagent_proxy.Dsse.Sign.{
  payload_digest, sign_envelope, statement_bytes, sign_record_dsse, check_grading,
}
use wasmagent_proxy.Dsse.Sign.Statement.{IsParsed}
use wasmagent_proxy.Dsse.Verify.{
  normalize, check_count, decode_base64_lenient, open_envelope, verify_record_dsse,
}
use wasmagent_proxy.Dsse.Verify.Signed.{Documented, signed_record_verifies}
use wasmagent_proxy.Dsse.Verify.Tampered.{is_err-Returns, carried-Returns, carried_binds}
use wasmagent_proxy.Dsse.UnitTests.{sample_record}

abbrev sign_and_verify_dsse_round_trip : Crates → Bytes → Bytes → Bool
sign_and_verify_dsse_round_trip x key verifying_key =
    let (r, signed) = sign_record_dsse x sample_record key (codes "gateway-key-1") in
    is_ok signed
    && some_and r.dsse_envelope (λ e. text_eq e.payload_type in_toto_payload_type)
    && is_ok (verify_record_dsse x r verifying_key)

abbrev tampered_record_fails_dsse_binding : Crates → Bytes → Bytes → Bool
tampered_record_fails_dsse_binding x key verifying_key =
    let (r, signed) = sign_record_dsse x sample_record key (codes "gateway-key-1") in
    let r = record r { user_id = some (codes "user-attacker") } in
    is_ok signed && is_err (verify_record_dsse x r verifying_key)

abbrev tampered_payload_type_fails_verification : Crates → Bytes → Bytes → Bool
tampered_payload_type_fails_verification x key verifying_key =
    let (r, signed) = sign_record_dsse x sample_record key (codes "gateway-key-1") in
    is_ok signed
    && some_and r.dsse_envelope (λ e.
      let e = record e { payload_type = codes "application/vnd.in-toto+json; tampered" } in
      is_err (verify_record_dsse x (record r { dsse_envelope = some e }) verifying_key))

abbrev dead_beef : Text
dead_beef =
    codes "deadbeefdeadbeefdeadbeefdeadbeefdeadbeefdeadbeefdeadbeefdeadbeefdeadbeefdeadbeefdeadbeef"

abbrev base64_payload_padding_roundtrip : Crates → Bytes → Bytes → Bool
base64_payload_padding_roundtrip x key verifying_key =
    let r = record sample_record { run_id = codes "x" } in
    let (r, signed) = sign_record_dsse x r key (codes "k") in
    is_ok signed && is_ok (verify_record_dsse x r verifying_key)

sample-IsParsed : (run_id : Text) → IsParsed (record sample_record { run_id = run_id })
unfolding is_readable AreFields record_to_value
sample-IsParsed run_id = record { extra = tt; actions = ((tt, tt), tt); readable = refl }

sample_signs :
    (x : Crates) (run_id : Text) (key : Bytes) (key_id : Text)
    → (sign_record_dsse x (record sample_record { run_id = run_id }) key key_id).1 ≡ ok tt
unfolding sign_record_dsse check_grading
sample_signs x run_id key key_id = refl

round_trips_pass :
    (x : Crates) (key verifying_key : Bytes)
    → Documented x key verifying_key
    → (sign_and_verify_dsse_round_trip x key verifying_key
        && base64_payload_padding_roundtrip x key verifying_key)
      ≡ true
unfolding sign_record_dsse check_grading text_eq
round_trips_pass x key vk d =
    rw
      (
        signed_record_verifies x sample_record key vk (codes "gateway-key-1") d
            (sample-IsParsed sample_record.run_id) refl,
        signed_record_verifies x (record sample_record { run_id = codes "x" }) key vk (codes "k") d
            (sample-IsParsed (codes "x")) refl,
      )
      refl

payload_type_test_passes :
    (x : Crates) (key verifying_key : Bytes)
    → tampered_payload_type_fails_verification x key verifying_key ≡ true
unfolding sign_record_dsse check_grading verify_record_dsse open_envelope text_eq
payload_type_test_passes x key vk = refl

-- The two records have different digests.
tampered_test_passes :
    (x : Crates) (key verifying_key : Bytes)
    → Documented x key verifying_key
    → payload_digest x (record sample_record { user_id = some (codes "user-attacker") })
      ≢ payload_digest x sample_record
    → tampered_record_fails_dsse_binding x key verifying_key ≡ true
unfolding sign_record_dsse check_grading payload_digest
tampered_test_passes x key vk d apart =
    let (signed, _) = sign_record_dsse x sample_record key (codes "gateway-key-1") in
    let r = record signed { user_id = some (codes "user-attacker") } in
    let parsed = sample-IsParsed sample_record.run_id in
    is_err-Returns (verify_record_dsse x r vk)
      (carried-Returns x sample_record r key vk (codes "gateway-key-1") d parsed refl refl)
      (λ h.
        apart
          (carried_binds x sample_record r key vk (codes "gateway-key-1") d parsed refl refl h).1)

-- `env.signatures[0].sig = ...`
abbrev corrupted : List DsseSignature → List DsseSignature
corrupted [] = []
corrupted (s ∷ signatures) = record s { sig = dead_beef } ∷ signatures

abbrev subject_digest_binds_predicate_not_envelope : Crates → Bytes → Bytes → Bool
subject_digest_binds_predicate_not_envelope x key verifying_key =
    let (r, signed) = sign_record_dsse x sample_record key (codes "gateway-key-1") in
    is_ok signed
    && some_and r.dsse_envelope (λ e.
      let e = record e { signatures = corrupted e.signatures } in
      err_that (verify_record_dsse x (record r { dsse_envelope = some e }) verifying_key) (λ m.
        contains m (codes "DSSE signature invalid")
        || contains m (codes "sig base64 decode")
        || contains m (codes "signature is not 64 bytes")))

-- The 88 hexadecimal digits do not decode to 64 bytes.
corrupted_test_passes :
    (x : Crates) (key verifying_key : Bytes)
    → Documented x key verifying_key
    → ((e : Text) → ¬ (x.base64_decode (normalize dead_beef) ≡ panic e))
    → ((sig : Bytes) → x.base64_decode (normalize dead_beef) ≡ ok sig → (length sig == 64) ≡ false)
    → subject_digest_binds_predicate_not_envelope x key verifying_key ≡ true
unfolding sign_record_dsse check_grading verify_record_dsse open_envelope sign_envelope text_eq
    check_count decode_base64_lenient contains
corrupted_test_passes x key vk d returns sized =
    elim (Result-cases (x.base64_decode (normalize dead_beef))) [
      | inl (sig, e) ↦ rw (d.decodes (statement_bytes x sample_record), e, sized sig e) refl
      | inr (inl (m, e)) ↦ rw (d.decodes (statement_bytes x sample_record), e) refl
      | inr (inr (m, e)) ↦ absurd (returns m e)
    ]
