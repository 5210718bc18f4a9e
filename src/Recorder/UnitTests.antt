-- ===== src/Recorder/UnitTests.antt =====
-- crates/proxy-wasm-evidence/src/recorder.rs: its unit tests, each a Boolean by the name that it has
-- there, and that they pass.
use wasmagent_proxy.Base.{
  ◌*◌, ◌≡◌, refl, Bool, true, false, not, ◌&&◌, ◌||◌, ◌==◌, Option, none, some, [], ◌∷◌, Text,
  codes, text_eq, contains, to_uppercase,
}
use wasmagent_proxy.Base.Asserts.{is_none, each_holds, same_option}
use wasmagent_proxy.McpHeaders.{credential_leak, pii_leak}
use wasmagent_proxy.Recording.{
  RecordingMode, validation, full, SideEffectClass, read, mutate_external, network_egress, unknown,
  RiskContext, canonical_str, mode_str, compile_recording_policy,
}
use wasmagent_proxy.Evidence.{ActionEvidence}
use wasmagent_proxy.Recorder.Severity.{
  infer_side_effect_class, infer_side_effect_class_with_mcp, http_class, mcp_class, max_severity,
  is_safe_method, is_writing_method, is_egress_path, is_reading_operation,
}
use wasmagent_proxy.Recorder.Capture.{since_epoch, before_epoch, unix_millis, build_evidence}
use wasmagent_proxy.Recorder.Tests.{ascii}

-- Times in nanoseconds.
abbrev unix_millis_converts_epoch_plus_duration : Bool
unix_millis_converts_epoch_plus_duration =
    unix_millis (since_epoch (1_700_000_000_123 * 1_000_000)) == 1_700_000_000_123

abbrev unix_millis_maps_pre_epoch_to_zero : Bool
unix_millis_maps_pre_epoch_to_zero =
    unix_millis (before_epoch 1_000_000_000) == 0 && unix_millis (since_epoch 0) == 0

abbrev risk : SideEffectClass → RiskContext
risk side_effect_class = record {
  was_vetted = false;
  has_consent_anomaly = false;
  taint_chain_length = 0;
  side_effect_class = side_effect_class;
}

abbrev inferred : Text → Text → Option Text → SideEffectClass → Bool
inferred method path mcp_method expected =
    text_eq (canonical_str (infer_side_effect_class_with_mcp ascii method path mcp_method))
      (canonical_str expected)

abbrev classified : Text → Text → SideEffectClass → Bool
classified method path expected =
    text_eq (canonical_str (infer_side_effect_class ascii method path)) (canonical_str expected)

abbrev classifies_read_methods : Bool
classifies_read_methods =
    each_holds (λ method. classified method (codes "/anything") read)
      (codes "GET" ∷ codes "head" ∷ codes "OpTiOnS" ∷ [])

abbrev classifies_external_mutations : Bool
classifies_external_mutations =
    classified (codes "POST") (codes "/users") mutate_external
    && classified (codes "DELETE") (codes "/users/42") mutate_external

abbrev classifies_network_egress_by_path : Bool
classifies_network_egress_by_path =
    classified (codes "POST") (codes "/network/peers") network_egress
    && classified (codes "PUT") (codes "/v1/webhook/xyz") network_egress

abbrev classifies_unknown_methods : Bool
classifies_unknown_methods =
    classified (codes "PROPFIND") (codes "/") unknown && classified [] [] unknown

abbrev mcp_method_tools_call_is_mutate_external : Bool
mcp_method_tools_call_is_mutate_external =
    inferred (codes "POST") (codes "/mcp") (some (codes "tools/call")) mutate_external

abbrev mcp_header_cannot_downgrade_http_risk : Bool
mcp_header_cannot_downgrade_http_risk =
    each_holds
      (λ op.
        inferred (codes "POST") (codes "/dangerous") (some op) mutate_external
        || inferred (codes "POST") (codes "/dangerous") (some op) network_egress)
      (codes "tools/list" ∷ codes "resources/read" ∷ codes "prompts/get" ∷ [])
    && inferred (codes "DELETE") (codes "/items/1") (some (codes "resources/read")) mutate_external
    && inferred (codes "GET") (codes "/safe") (some (codes "tools/call")) mutate_external
    && inferred (codes "POST") (codes "/network/export") (some (codes "tools/list")) network_egress

abbrev mcp_method_tools_list_is_read_on_safe_http : Bool
mcp_method_tools_list_is_read_on_safe_http =
    inferred (codes "GET") (codes "/mcp") (some (codes "tools/list")) read

abbrev mcp_method_unknown_op_cannot_lower_http_verdict : Bool
mcp_method_unknown_op_cannot_lower_http_verdict =
    inferred (codes "POST") (codes "/mcp") (some (codes "custom/operation")) mutate_external

abbrev in_mode : ActionEvidence → RecordingMode → Bool
in_mode ev mode = text_eq (mode_str ev.recording_mode) (mode_str mode)

abbrev build_evidence_marks_reads_as_non_state_changing : Bool
build_evidence_marks_reads_as_non_state_changing =
    let ev =
      build_evidence (codes "ctx-1") (codes "GET /x") (risk read) 1_700_000_000_000 none none in
    not ev.state_changing
    && in_mode ev validation
    && text_eq ev.action_id (codes "ctx-1")
    && text_eq ev.tool_name (codes "GET /x")
    && ev.timestamp_ms == 1_700_000_000_000
    && is_none ev.precondition_digest
    && is_none ev.result_digest
    && is_none ev.capability_decision
    && is_none ev.mcp_header_risk

abbrev build_evidence_marks_external_mutation_as_state_changing_and_full : Bool
build_evidence_marks_external_mutation_as_state_changing_and_full =
    let digest = codes "sha256:abc" in
    let ev =
      build_evidence (codes "ctx-2") (codes "POST /payments") (risk mutate_external) 42
        (some digest) none in
    ev.state_changing
    && in_mode ev full
    && same_option text_eq ev.precondition_digest (some digest)
    && is_none ev.mcp_header_risk

abbrev build_evidence_assigns_mcp_header_risk : Bool
build_evidence_assigns_mcp_header_risk =
    let ev =
      build_evidence (codes "ctx-3") (codes "POST /mcp") (risk mutate_external) 100 none
        (some credential_leak) in
    let ev2 =
      build_evidence (codes "ctx-4") (codes "GET /safe") (risk read) 200 none (some pii_leak) in
    same_option text_eq ev.mcp_header_risk (some (codes "credential_leak"))
    && same_option text_eq ev2.mcp_header_risk (some (codes "pii_leak"))

unit_tests_pass :
    (unix_millis_converts_epoch_plus_duration && unix_millis_maps_pre_epoch_to_zero
      && classifies_read_methods && classifies_external_mutations
      && classifies_network_egress_by_path && classifies_unknown_methods
      && mcp_method_tools_call_is_mutate_external && mcp_header_cannot_downgrade_http_risk
      && mcp_method_tools_list_is_read_on_safe_http
      && mcp_method_unknown_op_cannot_lower_http_verdict
      && build_evidence_marks_reads_as_non_state_changing
      && build_evidence_marks_external_mutation_as_state_changing_and_full
      && build_evidence_assigns_mcp_header_risk)
    ≡ true
unfolding unix_millis infer_side_effect_class http_class mcp_class max_severity is_safe_method
    is_writing_method is_egress_path is_reading_operation contains to_uppercase build_evidence
    compile_recording_policy text_eq
unit_tests_pass = refl
