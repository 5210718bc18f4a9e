-- ===== src/Emitter.antt =====
-- crates/proxy-wasm-evidence/src/emitter.rs: assembling captured evidence into a signed record.
pub mod Binding
pub mod Delivery
pub mod Sink
mod Tests
mod UnitTests
use wasmagent_proxy.Base.{
  ℕ, Bool, true, false, Option, none, some, List, [], ◌∷◌, ◌++◌, Text, Bytes, codes, is_blank,
  Result, ok, err, panic, ◌>>=◌, ◌>>◌, reject_if,
}
use wasmagent_proxy.Json.{string, insert, Crates}
use wasmagent_proxy.Evidence.{ActionEvidence, AepRecord, default_record, aep_schema_version}
use wasmagent_proxy.Dsse.Sign.{sign_record_dsse}

pub record EmitterIdentity : Type 0 where
  pub trace_id : Text
  pub agent_id : Text
  pub key_id : Text

-- `evidence.is_empty()`
abbrev pub has_none : List ActionEvidence → Bool
has_none [] = true
has_none (a ∷ evidence) = false

-- The record before it is signed.
unfoldable pub assemble : List ActionEvidence → EmitterIdentity → ℕ → AepRecord
unfolding insert
assemble evidence identity created_at_ms =
    let r = record default_record {
      schema_version = aep_schema_version;
      run_id = codes "gw-" ++ identity.trace_id;
      trace_id = some identity.trace_id;
      actions = evidence;
      created_at_ms = created_at_ms;
    } in
    let extra = insert (codes "claimed_agent_id") (string identity.agent_id) r.extra in
    let extra = insert (codes "identity_source") (string (codes "self_asserted")) extra in
    record r { extra = insert (codes "claimed_agent_id") (string identity.agent_id) extra }

-- `.map(|()| record)`
abbrev pub signed_or_error : AepRecord × Result (Unit {0}) → Result AepRecord
signed_or_error (r, ok _) = ok r
signed_or_error (r, err e) = err e
signed_or_error (r, panic e) = panic e

module _ (x : Crates) where
  unfoldable pub assemble_and_sign :
      List ActionEvidence → EmitterIdentity → ℕ → Bytes → Result AepRecord
  unfolding assemble
  assemble_and_sign evidence identity created_at_ms key = do
    reject_if (has_none evidence)
        (codes "no evidence captured — refusing to emit an empty signed record")
    reject_if (is_blank identity.trace_id)
        (codes "trace_id is empty — cannot bind evidence to a run")
    signed_or_error
        (sign_record_dsse x (assemble evidence identity created_at_ms) key identity.key_id)
