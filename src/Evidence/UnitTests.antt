-- ===== src/Evidence/UnitTests.antt =====
-- crates/aep-core/src/evidence.rs: its unit tests, each a Boolean by the name that it has there, and
-- that they pass. Where a test searches the text of a document, the text is the canonical one: the
-- fragments do not depend on the order of keys. Where it reads a document, its value is read.
use wasmagent_proxy.Base.{
  ◌≡◌, refl, Bool, true, false, not, ◌&&◌, some, [], ◌∷◌, codes, text_eq, contains, decimal,
}
use wasmagent_proxy.Base.Asserts.{some_and, same_option, each_holds}
use wasmagent_proxy.Json.{index, as_str}
use wasmagent_proxy.Recording.{validation, full}
use wasmagent_proxy.McpHeaders.{risk_str, credential_leak, high_entropy_value, pii_leak}
use wasmagent_proxy.Evidence.{
  ActionEvidence, AepRecord, aep_schema_version, default_action, default_record,
}
use wasmagent_proxy.Evidence.Serialize.{action_to_value, record_to_value}
use wasmagent_proxy.Evidence.Deserialize.{
  action_from_value, action_from_map, record_from_value, record_from_map,
}
use wasmagent_proxy.Dsse.Canonical.{canonical_json, canonical_json_value, sort_pairs, join}
use wasmagent_proxy.Dsse.Canonical.Tests.{plain}

abbrev schema_version_constant_is_in_canonical_enum : Bool
schema_version_constant_is_in_canonical_enum = text_eq aep_schema_version (codes "aep/v0.5")

-- The record of `absent_optional_fields_are_omitted_not_null`.
abbrev bare_record : AepRecord
bare_record = record default_record {
  schema_version = aep_schema_version;
  run_id = codes "run-1";
  actions =
      record default_action {
        action_id = codes "act-1";
        tool_name = codes "GET /x";
        state_changing = false;
        timestamp_ms = 1_700_000_000_000;
        recording_mode = validation;
      }
      ∷ [];
  created_at_ms = 1_700_000_000_000;
}

abbrev absent_optional_fields_are_omitted_not_null : Bool
absent_optional_fields_are_omitted_not_null =
    let json = canonical_json plain (record_to_value bare_record) in
    each_holds (λ absent. not (contains json absent))
      (codes "\"trace_id\""
        ∷ codes "\"session_id\""
        ∷ codes "\"signature\""
        ∷ codes "\"precondition_digest\""
        ∷ codes "\"result_digest\""
        ∷ codes "\"parent_action_id\""
        ∷ codes "\"causal_chain_id\""
        ∷ codes "\"capability_decision\""
        ∷ codes "\"mcp_header_risk\""
        ∷ codes "\"side_effect_class\""
        ∷ codes "\"user_id\""
        ∷ codes "\"authorized_by\""
        ∷ codes "\"authority_origin\""
        ∷ codes "\"attribution_backing\""
        ∷ codes "\"run_attribution_backing_floor\""
        ∷ codes "null"
        ∷ [])

-- The record of `present_optional_fields_round_trip_after_omission_change`.
abbrev pub graded_record : AepRecord
graded_record = record default_record {
  schema_version = aep_schema_version;
  run_id = codes "run-2";
  trace_id = some (codes "trace-xyz");
  user_id = some (codes "user-dana@acme.example");
  authority_origin = some (codes "subject_consented");
  identity_source = some (codes "organization_attested");
  attribution_backing = some (codes "principal_key_signed");
  run_attribution_backing_floor = some (codes "operator_asserted");
  run_attribution_backing_observed =
      some (codes "operator_asserted" ∷ codes "principal_key_signed" ∷ []);
  run_side_effect_class_max = some (codes "mutate-external");
  recording_mode = some (codes "full");
  actions =
      record default_action {
        action_id = codes "act-2";
        tool_name = codes "POST /mcp";
        state_changing = true;
        precondition_digest = some (codes "sha256:pre");
        result_digest = some (codes "sha256:post");
        timestamp_ms = 1_700_000_000_001;
        causal_chain_id = some (codes "chain-1");
        recording_mode = full;
        mcp_header_risk = some (risk_str pii_leak);
        side_effect_class = some (codes "network-egress");
      }
      ∷ [];
  created_at_ms = 1_700_000_000_001;
}

-- What the first action of a record that was read holds.
abbrev first_action : AepRecord → (ActionEvidence → Bool) → Bool
first_action r test = elim r.actions [ [] ↦ false | a ∷ _ ↦ test a ]

abbrev present_optional_fields_round_trip_after_omission_change : Bool
present_optional_fields_round_trip_after_omission_change =
    let json = canonical_json plain (record_to_value graded_record) in
    each_holds (contains json) (
      codes "\"trace_id\":\"trace-xyz\""
      ∷ codes "\"causal_chain_id\":\"chain-1\""
      ∷ codes "\"authority_origin\":\"subject_consented\""
      ∷ codes "\"run_attribution_backing_floor\":\"operator_asserted\""
      ∷ codes
          "\"run_attribution_backing_observed\":[\"operator_asserted\",\"principal_key_signed\"]"
      ∷ [])
    && some_and (record_from_value (record_to_value graded_record)) λ decoded.
      same_option text_eq decoded.trace_id (some (codes "trace-xyz"))
      && first_action decoded λ a.
        same_option text_eq a.precondition_digest (some (codes "sha256:pre"))
        && same_option text_eq a.mcp_header_risk (some (codes "pii_leak"))

abbrev mcp_header_risk_as_str_returns_snake_case_variant_name : Bool
mcp_header_risk_as_str_returns_snake_case_variant_name =
    text_eq (risk_str credential_leak) (codes "credential_leak")
    && text_eq (risk_str high_entropy_value) (codes "high_entropy_value")
    && text_eq (risk_str pii_leak) (codes "pii_leak")

abbrev action_evidence_serializes_mcp_header_risk_as_snake_case_string : Bool
action_evidence_serializes_mcp_header_risk_as_snake_case_string =
    let evidence : ActionEvidence = record default_action {
      action_id = codes "action-1";
      tool_name = codes "POST /mcp";
      state_changing = true;
      timestamp_ms = 1_700_000_000_000;
      recording_mode = full;
      mcp_header_risk = some (codes "credential_leak");
      side_effect_class = some (codes "mutate-external");
    } in
    same_option text_eq (as_str (index (action_to_value evidence) (codes "mcp_header_risk")))
      (some (codes "credential_leak"))

-- The action of `action_evidence_mcp_header_risk_round_trips_as_plain_string`.
abbrev pub leaking_action : ActionEvidence
leaking_action = record default_action {
  action_id = codes "action-rt";
  tool_name = codes "POST /mcp";
  state_changing = true;
  timestamp_ms = 1_700_000_000_001;
  recording_mode = validation;
  mcp_header_risk = some (risk_str high_entropy_value);
  side_effect_class = some (codes "network-egress");
}

abbrev action_evidence_mcp_header_risk_round_trips_as_plain_string : Bool
action_evidence_mcp_header_risk_round_trips_as_plain_string =
    contains (canonical_json plain (action_to_value leaking_action))
      (codes "\"mcp_header_risk\":\"high_entropy_value\"")
    && some_and (action_from_value (action_to_value leaking_action))
        λ decoded. same_option text_eq decoded.mcp_header_risk (some (risk_str high_entropy_value))

unit_tests_pass :
    (schema_version_constant_is_in_canonical_enum && absent_optional_fields_are_omitted_not_null
      && present_optional_fields_round_trip_after_omission_change
      && mcp_header_risk_as_str_returns_snake_case_variant_name
      && action_evidence_serializes_mcp_header_risk_as_snake_case_string
      && action_evidence_mcp_header_risk_round_trips_as_plain_string)
    ≡ true
unfolding record_to_value action_to_value record_from_map action_from_map canonical_json_value
    sort_pairs join decimal contains index text_eq
unit_tests_pass = refl
