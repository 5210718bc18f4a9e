-- ===== src/Evidence/Deserialize/Fields.antt =====
-- crates/aep-core/src/evidence.rs: the fields that a record writes, and what it reads of them.
use mathlib.Core.Option
use wasmagent_proxy.Base.{◌≡◌, refl, some, List, [], ◌∷◌, codes}
use wasmagent_proxy.Json.{string, boolean, array, object}
use wasmagent_proxy.Json.Slots.{Slot, struct, put_all}
use wasmagent_proxy.Recording.{mode_str}
use wasmagent_proxy.Evidence.{CapabilityDecision, ActionEvidence, AepRecord}
use wasmagent_proxy.Evidence.Serialize.{
  items, u64_value, capability_to_value, action_to_value, signature_to_value, envelope_to_value,
  record_to_value,
}

abbrev pub capability_slots : CapabilityDecision → List Slot
capability_slots c =
    (codes "capability", some (string c.capability))
    ∷ (codes "subject", some (string c.subject))
    ∷ (codes "resource", some (string c.resource))
    ∷ (codes "decision", some (string c.decision))
    ∷ (codes "reason_code", Option.map string c.reason_code)
    ∷ (codes "deny_reason_class", Option.map string c.deny_reason_class)
    ∷ []

pub capability-struct :
    (c : CapabilityDecision) → capability_to_value c ≡ object (struct (capability_slots c) c.extra)
unfolding capability_to_value put_all
capability-struct c = refl

abbrev pub action_slots : ActionEvidence → List Slot
action_slots a =
    (codes "action_id", some (string a.action_id))
    ∷ (codes "tool_name", some (string a.tool_name))
    ∷ (codes "state_changing", some (boolean a.state_changing))
    ∷ (codes "precondition_digest", Option.map string a.precondition_digest)
    ∷ (codes "result_digest", Option.map string a.result_digest)
    ∷ (codes "timestamp_ms", some (u64_value a.timestamp_ms))
    ∷ (codes "parent_action_id", Option.map string a.parent_action_id)
    ∷ (codes "causal_chain_id", Option.map string a.causal_chain_id)
    ∷ (codes "recording_mode", some (string (mode_str a.recording_mode)))
    ∷ (codes "capability_decision", Option.map capability_to_value a.capability_decision)
    ∷ (codes "mcp_header_risk", Option.map string a.mcp_header_risk)
    ∷ (codes "side_effect_class", Option.map string a.side_effect_class)
    ∷ []

pub action-struct :
    (a : ActionEvidence) → action_to_value a ≡ object (struct (action_slots a) a.extra)
unfolding action_to_value put_all
action-struct a = refl

abbrev pub record_slots : AepRecord → List Slot
record_slots r =
    (codes "schema_version", some (string r.schema_version))
    ∷ (codes "run_id", some (string r.run_id))
    ∷ (codes "trace_id", Option.map string r.trace_id)
    ∷ (codes "session_id", Option.map string r.session_id)
    ∷ (codes "dsse_envelope", Option.map envelope_to_value r.dsse_envelope)
    ∷ (codes "user_id", Option.map string r.user_id)
    ∷ (codes "authorized_by", Option.map string r.authorized_by)
    ∷ (codes "authority_origin", Option.map string r.authority_origin)
    ∷ (codes "identity_source", Option.map string r.identity_source)
    ∷ (codes "attribution_backing", Option.map string r.attribution_backing)
    ∷ (codes "run_attribution_backing_floor", Option.map string r.run_attribution_backing_floor)
    ∷ (
      codes "run_attribution_backing_observed",
      Option.map (λ gs. array (items string gs)) r.run_attribution_backing_observed,
    )
    ∷ (codes "authorization_evidence_count", Option.map u64_value r.authorization_evidence_count)
    ∷ (codes "run_side_effect_class_max", Option.map string r.run_side_effect_class_max)
    ∷ (codes "recording_mode", Option.map string r.recording_mode)
    ∷ (codes "actions", some (array (items action_to_value r.actions)))
    ∷ (codes "created_at_ms", some (u64_value r.created_at_ms))
    ∷ (codes "signature", Option.map signature_to_value r.signature)
    ∷ []

pub record-struct : (r : AepRecord) → record_to_value r ≡ object (struct (record_slots r) r.extra)
unfolding record_to_value put_all
record-struct r = refl
