-- ===== src/Emitter/UnitTests/Signed.antt =====
-- crates/proxy-wasm-evidence/src/emitter.rs: its unit tests that verify an emitted record, for
-- whatever crates and keys, and that they pass with crates that do what they document.
use wasmagent_proxy.Base.{
  ◌≡◌, refl, Bool, true, false, not, ◌&&◌, some, Option, none, Text, Bytes, codes, text_eq,
  is_blank, is_whitespace, ok,
}
use wasmagent_proxy.Base.Asserts.{is_ok, is_err, ok_and, same_option, is_none}
use wasmagent_proxy.Json.{Value, get, as_str, Crates}
use wasmagent_proxy.Json.Slots.Named.{Apart-end}
use wasmagent_proxy.Json.Readable.{is_readable}
use wasmagent_proxy.Json.Order.{AreFields}
use wasmagent_proxy.Evidence.Serialize.{items, action_to_value}
use wasmagent_proxy.Evidence.Deserialize.{action_names}
use wasmagent_proxy.Dsse.Verify.{verify_record_dsse}
use wasmagent_proxy.Dsse.Sign.{
  statement_bytes, statement, payload_digest, sign_record_dsse, check_grading,
}
use wasmagent_proxy.Dsse.Verify.Signed.{Documented}
use wasmagent_proxy.Dsse.Verify.Tampered.{is_err-Returns, carried-Returns, carried_binds}
use wasmagent_proxy.Emitter.{EmitterIdentity, assemble, assemble_and_sign}
use wasmagent_proxy.Emitter.Binding.{emitted, emits_iff}
use wasmagent_proxy.Emitter.Delivery.{IsSendable, emitted-IsParsed, verify-emitted}
use wasmagent_proxy.Emitter.UnitTests.{sample_evidence}

abbrev identity_of : Text → EmitterIdentity
identity_of trace_id = record {
  trace_id = trace_id;
  agent_id = codes "gateway-eu-1";
  key_id = codes "gw-key-1";
}

abbrev str_of : Option Value → Option Text
str_of none = none
str_of (some v) = as_str v

abbrev signed_record_verifies_and_binds_identity : Crates → Bytes → Bytes → Bool
signed_record_verifies_and_binds_identity x signing_key verifying_key =
    ok_and
      (assemble_and_sign x sample_evidence (identity_of (codes "trace-abc")) 1_700_000_000_000
        signing_key)
      (λ r.
        text_eq r.run_id (codes "gw-trace-abc")
        && same_option text_eq r.trace_id (some (codes "trace-abc"))
        && same_option text_eq (str_of (get r.extra (codes "claimed_agent_id")))
            (some (codes "gateway-eu-1"))
        && not (is_none r.dsse_envelope)
        && is_ok (verify_record_dsse x r verifying_key))

abbrev tampered_record_fails_verification : Crates → Bytes → Bytes → Bool
tampered_record_fails_verification x signing_key verifying_key =
    ok_and
      (assemble_and_sign x sample_evidence (identity_of (codes "trace-t")) 1_700_000_000_000
        signing_key)
      (λ r.
        is_err (verify_record_dsse x (record r { run_id = codes "run-tampered" }) verifying_key))

sample-IsSendable : IsSendable sample_evidence 1_700_000_000_000
unfolding is_readable items AreFields action_to_value
sample-IsSendable = record {
  plain = ((tt, tt), tt);
  foreign = ((tt, Apart-end action_names, tt), tt);
  actions = refl;
  clock = refl;
}

sample_emits :
    (x : Crates) (key : Bytes) (trace_id : Text)
    → is_blank trace_id ≡ false
    → assemble_and_sign x sample_evidence (identity_of trace_id) 1_700_000_000_000 key
      ≡ ok (emitted x sample_evidence (identity_of trace_id) 1_700_000_000_000 key)
sample_emits x key trace_id named =
    (emits_iff x sample_evidence (identity_of trace_id) 1_700_000_000_000 key).0.1 (λ e. cc, named)

identity_test_passes :
    (x : Crates) (key verifying_key : Bytes)
    → Documented x key verifying_key
    → signed_record_verifies_and_binds_identity x key verifying_key ≡ true
unfolding assemble text_eq get is_blank is_whitespace
identity_test_passes x key vk d =
    let emits = sample_emits x key (codes "trace-abc") refl in
    let verdict =
      verify-emitted x sample_evidence (identity_of (codes "trace-abc")) 1_700_000_000_000 key vk d
        sample-IsSendable emits in
    rw (emits, verdict) refl

tampered_test_passes :
    (x : Crates) (key verifying_key : Bytes)
    → Documented x key verifying_key
    → tampered_record_fails_verification x key verifying_key ≡ true
unfolding is_blank is_whitespace sign_record_dsse check_grading assemble statement_bytes statement
    payload_digest
tampered_test_passes x key vk d =
    let identity = identity_of (codes "trace-t") in
    let r = emitted x sample_evidence identity 1_700_000_000_000 key in
    let s = record r { run_id = codes "run-tampered" } in
    let parsed =
      emitted-IsParsed x sample_evidence identity 1_700_000_000_000 key sample-IsSendable in
    let refused =
      is_err-Returns (verify_record_dsse x s vk)
        (carried-Returns x r s key vk (codes "gw-key-1") d parsed refl refl)
        (λ h.
          let run = (carried_binds x r s key vk (codes "gw-key-1") d parsed refl refl h).0 in cc) in
    rw (sample_emits x key (codes "trace-t") refl) refused
