-- ===== src/Samples.antt =====
-- crates/aep-core/examples/emit_aep_samples.rs: the records that are published for the checks of
-- other verifiers. The key of the example, 32 bytes of 42, is what its parameter stands for.
mod Tests
use wasmagent_proxy.Base.{
  true, false, none, some, List, [], ◌∷◌, Text, Bytes, codes, replicate, ok, err, panic, Result,
}
use wasmagent_proxy.Json.{Crates}
use wasmagent_proxy.Recording.{full, validation, read, network_egress, canonical_str}
use wasmagent_proxy.Evidence.{
  ActionEvidence, AepRecord, CapabilityDecision, default_action, default_capability, default_record,
  aep_schema_version,
}
use wasmagent_proxy.Dsse.Sign.{sign_record_dsse}

abbrev pub minimal_record : AepRecord
minimal_record = record default_record {
  schema_version = aep_schema_version;
  run_id = codes "run-minimal";
  created_at_ms = 1_700_000_000_000;
}

abbrev pub annotated_decision : CapabilityDecision
annotated_decision = record default_capability {
  capability = codes "payments.charge";
  subject = codes "agent-1";
  resource = codes "acct-42";
  decision = codes "allow";
  reason_code = some (codes "policy-match");
  deny_reason_class = none;
}

abbrev pub annotated_action : ActionEvidence
annotated_action = record default_action {
  action_id = codes "ctx-42";
  tool_name = codes "POST /api/payments";
  state_changing = true;
  precondition_digest = some (codes "sha256:aa11");
  result_digest = some (codes "sha256:bb22");
  timestamp_ms = 1_700_000_000_001;
  parent_action_id = none;
  causal_chain_id = some (codes "chain-9");
  recording_mode = full;
  capability_decision = some annotated_decision;
  mcp_header_risk = some (codes "credential_leak");
  side_effect_class = some (canonical_str network_egress);
}

abbrev pub annotated_record : AepRecord
annotated_record = record default_record {
  schema_version = aep_schema_version;
  run_id = codes "run-annotated";
  trace_id = some (codes "b3f1c2d3e4f5a6b7");
  session_id = some (codes "session-77");
  user_id = some (codes "user-dana@acme.example");
  authorized_by = some (codes "manager-ade@acme.example");
  authority_origin = some (codes "subject_consented");
  identity_source = some (codes "organization_attested");
  attribution_backing = some (codes "principal_key_signed");
  run_attribution_backing_floor = some (codes "operator_asserted");
  run_attribution_backing_observed =
      some (codes "operator_asserted" ∷ codes "principal_key_signed" ∷ []);
  run_side_effect_class_max = some (codes "network-egress");
  recording_mode = some (codes "full");
  actions = annotated_action ∷ [];
  created_at_ms = 1_700_000_000_001;
}

abbrev pub signed_action : ActionEvidence
signed_action = record default_action {
  action_id = codes "ctx-7";
  tool_name = codes "GET /mcp/resources";
  state_changing = false;
  timestamp_ms = 1_700_000_000_002;
  recording_mode = validation;
  side_effect_class = some (canonical_str read);
}

-- The record that `signed_record` signs.
abbrev pub unsigned_record : AepRecord
unsigned_record = record default_record {
  schema_version = aep_schema_version;
  run_id = codes "run-signed";
  trace_id = some (codes "0a1b2c3d4e5f6071");
  actions = signed_action ∷ [];
  created_at_ms = 1_700_000_000_002;
}

-- `expect`
abbrev pub expect_signed : AepRecord × Result (Unit {0}) → Result AepRecord
expect_signed (r, ok _) = ok r
expect_signed (r, err e) = panic e
expect_signed (r, panic e) = panic e

unfoldable pub signed_record : Crates → Bytes → Result AepRecord
signed_record x key = expect_signed (sign_record_dsse x unsigned_record key (codes "ci-sample-key"))

abbrev pub sample_key : Bytes
sample_key = replicate 32 42
