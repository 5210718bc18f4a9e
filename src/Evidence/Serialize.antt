-- ===== src/Evidence/Serialize.antt =====
-- crates/aep-core/src/evidence.rs: the derived `Serialize` of the records, as `serde_json::to_value`
-- runs it: the fields in their order, none for an absent option, and the `extra` entries last.
use mathlib.Core.Option
use wasmagent_proxy.Base.{ℕ, Option, List, [], ◌∷◌, Text, codes}
use wasmagent_proxy.Json.{
  Value, string, boolean, number, pos_int, array, object, Items, nil, cons, Fields, Map, insert,
  insert_all,
}
use wasmagent_proxy.Json.Slots.{put}
use wasmagent_proxy.Recording.{mode_str}
use wasmagent_proxy.Evidence.{
  CapabilityDecision, ActionEvidence, AepSignature, DsseSignature, DsseEnvelope, AepRecord,
}

-- A field behind `skip_serializing_if = "Option::is_none"`.
unfoldable pub insert_some {ℓ} : {A : Type ℓ} → Text → (A → Value) → Option A → Map → Map
unfolding put
insert_some k f o m = put k (Option.map f o) m

unfoldable pub items {ℓ} : {A : Type ℓ} → (A → Value) → List A → Items
items f [] = nil
items f (x ∷ xs) = cons (f x) (items f xs)

abbrev pub u64_value : ℕ → Value
u64_value n = number (pos_int n)

unfoldable pub capability_to_value : CapabilityDecision → Value
unfolding insert_some insert_all
capability_to_value c =
    let m = insert (codes "capability") (string c.capability) Fields.end in
    let m = insert (codes "subject") (string c.subject) m in
    let m = insert (codes "resource") (string c.resource) m in
    let m = insert (codes "decision") (string c.decision) m in
    let m = insert_some (codes "reason_code") string c.reason_code m in
    let m = insert_some (codes "deny_reason_class") string c.deny_reason_class m in
    object (insert_all c.extra m)

unfoldable pub action_to_value : ActionEvidence → Value
unfolding capability_to_value
action_to_value a =
    let m = insert (codes "action_id") (string a.action_id) Fields.end in
    let m = insert (codes "tool_name") (string a.tool_name) m in
    let m = insert (codes "state_changing") (boolean a.state_changing) m in
    let m = insert_some (codes "precondition_digest") string a.precondition_digest m in
    let m = insert_some (codes "result_digest") string a.result_digest m in
    let m = insert (codes "timestamp_ms") (u64_value a.timestamp_ms) m in
    let m = insert_some (codes "parent_action_id") string a.parent_action_id m in
    let m = insert_some (codes "causal_chain_id") string a.causal_chain_id m in
    let m = insert (codes "recording_mode") (string (mode_str a.recording_mode)) m in
    let m = insert_some (codes "capability_decision") capability_to_value a.capability_decision m in
    let m = insert_some (codes "mcp_header_risk") string a.mcp_header_risk m in
    let m = insert_some (codes "side_effect_class") string a.side_effect_class m in
    object (insert_all a.extra m)

unfoldable pub signature_to_value : AepSignature → Value
unfolding insert
signature_to_value s = object (
    insert (codes "sig") (string s.sig)
      (insert (codes "key_id") (string s.key_id) (insert (codes "alg") (string s.alg) Fields.end)))

unfoldable pub dsse_signature_to_value : DsseSignature → Value
unfolding insert
dsse_signature_to_value s =
    object
      (insert (codes "sig") (string s.sig) (insert (codes "keyid") (string s.keyid) Fields.end))

-- `rename_all = "camelCase"`
unfoldable pub envelope_to_value : DsseEnvelope → Value
unfolding items dsse_signature_to_value
envelope_to_value e = object (
    insert (codes "signatures") (array (items dsse_signature_to_value e.signatures)) (
      insert (codes "payload") (string e.payload)
        (insert (codes "payloadType") (string e.payload_type) Fields.end)))

unfoldable pub record_to_value : AepRecord → Value
unfolding action_to_value signature_to_value envelope_to_value
record_to_value r =
    let m = insert (codes "schema_version") (string r.schema_version) Fields.end in
    let m = insert (codes "run_id") (string r.run_id) m in
    let m = insert_some (codes "trace_id") string r.trace_id m in
    let m = insert_some (codes "session_id") string r.session_id m in
    let m = insert_some (codes "dsse_envelope") envelope_to_value r.dsse_envelope m in
    let m = insert_some (codes "user_id") string r.user_id m in
    let m = insert_some (codes "authorized_by") string r.authorized_by m in
    let m = insert_some (codes "authority_origin") string r.authority_origin m in
    let m = insert_some (codes "identity_source") string r.identity_source m in
    let m = insert_some (codes "attribution_backing") string r.attribution_backing m in
    let m =
      insert_some (codes "run_attribution_backing_floor") string r.run_attribution_backing_floor
        m in
    let m =
      insert_some (codes "run_attribution_backing_observed") (λ gs. array (items string gs))
        r.run_attribution_backing_observed m in
    let m =
      insert_some (codes "authorization_evidence_count") u64_value r.authorization_evidence_count
        m in
    let m = insert_some (codes "run_side_effect_class_max") string r.run_side_effect_class_max m in
    let m = insert_some (codes "recording_mode") string r.recording_mode m in
    let m = insert (codes "actions") (array (items action_to_value r.actions)) m in
    let m = insert (codes "created_at_ms") (u64_value r.created_at_ms) m in
    let m = insert_some (codes "signature") signature_to_value r.signature m in
    object (insert_all r.extra m)
