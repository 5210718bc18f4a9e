-- ===== src/Emitter/UnitTests.antt =====
-- crates/proxy-wasm-evidence/src/emitter.rs: its unit tests, each a Boolean by the name that it has
-- there, and that they pass; those that verify are in Emitter/UnitTests/Signed.
mod Signed
use wasmagent_proxy.Base.{
  ◌≡◌, refl, Bool, true, ◌&&◌, some, List, [], ◌∷◌, Bytes, codes, replicate, is_blank, contains,
}
use wasmagent_proxy.Base.Asserts.{err_with}
use wasmagent_proxy.Json.{null, Crates}
use wasmagent_proxy.Json.Toy.{toy}
use wasmagent_proxy.Recording.{full}
use wasmagent_proxy.Evidence.{ActionEvidence, default_action}
use wasmagent_proxy.Emitter.{EmitterIdentity, assemble_and_sign}

abbrev crates : Crates
crates = toy [] null

abbrev pub sample_evidence : List ActionEvidence
sample_evidence =
    record default_action {
      action_id = codes "gw-act-1";
      tool_name = codes "POST /api/quote";
      state_changing = true;
      result_digest = some (codes "sha256:abc");
      timestamp_ms = 1_700_000_000_000;
      recording_mode = full;
      side_effect_class = some (codes "mutate-external");
    }
    ∷ []

abbrev key : Bytes
key = replicate 32 7

abbrev empty_evidence_fails_closed : Bool
empty_evidence_fails_closed =
    let identity : EmitterIdentity = record {
      trace_id = codes "t";
      agent_id = codes "a";
      key_id = codes "k";
    } in
    err_with (assemble_and_sign crates [] identity 0 key) (codes "no evidence captured")

abbrev empty_trace_id_fails_closed : Bool
empty_trace_id_fails_closed =
    let identity : EmitterIdentity = record {
      trace_id = codes "  ";
      agent_id = codes "a";
      key_id = codes "k";
    } in
    err_with (assemble_and_sign crates sample_evidence identity 0 key) (codes "trace_id")

unit_tests_pass : (empty_evidence_fails_closed && empty_trace_id_fails_closed) ≡ true
unfolding assemble_and_sign is_blank contains
unit_tests_pass = refl
