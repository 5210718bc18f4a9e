-- ===== src/Evidence/Deserialize.antt =====
-- crates/aep-core/src/evidence.rs: the derived `Deserialize` of the records, as
-- `serde_json::from_value` runs it. Its result is `none` where it fails; the messages of serde are
-- left out.
pub mod Fields
pub mod RoundTrip
pub mod Faithful
pub mod Foreign
mod Tests
use mathlib.Core.Option
use wasmagent_proxy.Base.{
  ℕ, Bool, Option, none, some, List, [], ◌∷◌, Text, codes, text_eq, if◌then◌else◌,
}
use wasmagent_proxy.Json.{
  Value, null, boolean, number, string, pos_int, array, object, Items, nil, cons, field, end, Map,
  get, as_str,
}
use wasmagent_proxy.Json.Lookup.{without}
use wasmagent_proxy.Recording.{RecordingMode, validation, delta, full}
use wasmagent_proxy.Evidence.{
  CapabilityDecision, ActionEvidence, AepSignature, DsseSignature, DsseEnvelope, AepRecord,
}

infixl 5 ◌>>=◌
abbrev pub ◌>>=◌ {ℓ κ} : {A : Type ℓ} {B : Type κ} → Option A → (A → Option B) → Option B
none >>= next = none
some a >>= next = next a

-- A field that has to be there.
abbrev pub required {ℓ} : {A : Type ℓ} → (Value → Option A) → Option Value → Option A
required f none = none
required f (some v) = f v

-- A field of an `Option` type: absent and `Null` are `None`.
abbrev pub nullable {ℓ} : {A : Type ℓ} → (Value → Option A) → Value → Option (Option A)
nullable f null = some none
nullable f v = Option.map some (f v)

abbrev pub optional {ℓ} : {A : Type ℓ} → (Value → Option A) → Option Value → Option (Option A)
optional f none = some none
optional f (some v) = nullable f v

abbrev pub as_bool : Value → Option Bool
as_bool (boolean b) = some b
as_bool _ = none

abbrev pub as_u64 : Value → Option ℕ
as_u64 (number (pos_int n)) = some n
as_u64 _ = none

unfoldable pub each {ℓ} : {A : Type ℓ} → (Value → Option A) → Items → Option (List A)
each f nil = some []
each f (cons v xs) = do a ← f v; rest ← each f xs; some (a ∷ rest)

-- `Vec`
abbrev pub as_list {ℓ} : {A : Type ℓ} → (Value → Option A) → Value → Option (List A)
as_list f (array xs) = each f xs
as_list f _ = none

-- `RecordingMode`: the name of a variant, or an object with this name and `Null`.
unfoldable pub variant : Text → Option RecordingMode
unfolding text_eq
variant name =
    if text_eq name (codes "validation")
    then some validation
    else if text_eq name (codes "delta")
    then some delta
    else if text_eq name (codes "full")
    then some full
    else none

abbrev pub mode_from_value : Value → Option RecordingMode
mode_from_value (string name) = variant name
mode_from_value (object (field name null end)) = variant name
mode_from_value _ = none

-- The fields that a struct names; the others are its `extra`.
abbrev pub capability_names : List Text
capability_names =
    codes "capability"
    ∷ codes "subject"
    ∷ codes "resource"
    ∷ codes "decision"
    ∷ codes "reason_code"
    ∷ codes "deny_reason_class"
    ∷ []

unfoldable pub capability_from_map : Map → Option CapabilityDecision
unfolding get without
capability_from_map m = do
  capability ← required as_str (get m (codes "capability"))
  subject ← required as_str (get m (codes "subject"))
  resource ← required as_str (get m (codes "resource"))
  decision ← required as_str (get m (codes "decision"))
  reason_code ← optional as_str (get m (codes "reason_code"))
  deny_reason_class ← optional as_str (get m (codes "deny_reason_class"))
  some record {
    capability = capability;
    subject = subject;
    resource = resource;
    decision = decision;
    reason_code = reason_code;
    deny_reason_class = deny_reason_class;
    extra = without capability_names m;
  }

abbrev pub capability_from_value : Value → Option CapabilityDecision
capability_from_value (object m) = capability_from_map m
capability_from_value _ = none

abbrev pub action_names : List Text
action_names =
    codes "action_id"
    ∷ codes "tool_name"
    ∷ codes "state_changing"
    ∷ codes "precondition_digest"
    ∷ codes "result_digest"
    ∷ codes "timestamp_ms"
    ∷ codes "parent_action_id"
    ∷ codes "causal_chain_id"
    ∷ codes "recording_mode"
    ∷ codes "capability_decision"
    ∷ codes "mcp_header_risk"
    ∷ codes "side_effect_class"
    ∷ []

unfoldable pub action_from_map : Map → Option ActionEvidence
unfolding get without variant capability_from_map
action_from_map m = do
  action_id ← required as_str (get m (codes "action_id"))
  tool_name ← required as_str (get m (codes "tool_name"))
  state_changing ← required as_bool (get m (codes "state_changing"))
  precondition_digest ← optional as_str (get m (codes "precondition_digest"))
  result_digest ← optional as_str (get m (codes "result_digest"))
  timestamp_ms ← required as_u64 (get m (codes "timestamp_ms"))
  parent_action_id ← optional as_str (get m (codes "parent_action_id"))
  causal_chain_id ← optional as_str (get m (codes "causal_chain_id"))
  recording_mode ← required mode_from_value (get m (codes "recording_mode"))
  capability_decision ← optional capability_from_value (get m (codes "capability_decision"))
  mcp_header_risk ← optional as_str (get m (codes "mcp_header_risk"))
  side_effect_class ← optional as_str (get m (codes "side_effect_class"))
  some record {
    action_id = action_id;
    tool_name = tool_name;
    state_changing = state_changing;
    precondition_digest = precondition_digest;
    result_digest = result_digest;
    timestamp_ms = timestamp_ms;
    parent_action_id = parent_action_id;
    causal_chain_id = causal_chain_id;
    recording_mode = recording_mode;
    capability_decision = capability_decision;
    mcp_header_risk = mcp_header_risk;
    side_effect_class = side_effect_class;
    extra = without action_names m;
  }

abbrev pub action_from_value : Value → Option ActionEvidence
action_from_value (object m) = action_from_map m
action_from_value _ = none

-- A struct without `flatten` is read from an array of its fields too; its unknown keys are dropped.
unfoldable pub signature_from_value : Value → Option AepSignature
unfolding get
signature_from_value (object m) = do
  alg ← required as_str (get m (codes "alg"))
  key_id ← required as_str (get m (codes "key_id"))
  sig ← required as_str (get m (codes "sig"))
  some record { alg = alg; key_id = key_id; sig = sig }
signature_from_value (array (cons a (cons k (cons s nil)))) = do
  alg ← as_str a
  key_id ← as_str k
  sig ← as_str s
  some record { alg = alg; key_id = key_id; sig = sig }
signature_from_value _ = none

unfoldable pub dsse_signature_from_value : Value → Option DsseSignature
unfolding get
dsse_signature_from_value (object m) = do
  keyid ← required as_str (get m (codes "keyid"))
  sig ← required as_str (get m (codes "sig"))
  some record { keyid = keyid; sig = sig }
dsse_signature_from_value (array (cons k (cons s nil))) = do
  keyid ← as_str k
  sig ← as_str s
  some record { keyid = keyid; sig = sig }
dsse_signature_from_value _ = none

unfoldable pub envelope_from_value : Value → Option DsseEnvelope
unfolding get each dsse_signature_from_value
envelope_from_value (object m) = do
  payload_type ← required as_str (get m (codes "payloadType"))
  payload ← required as_str (get m (codes "payload"))
  signatures ← required (as_list dsse_signature_from_value) (get m (codes "signatures"))
  some record { payload_type = payload_type; payload = payload; signatures = signatures }
envelope_from_value (array (cons t (cons p (cons ss nil)))) = do
  payload_type ← as_str t
  payload ← as_str p
  signatures ← as_list dsse_signature_from_value ss
  some record { payload_type = payload_type; payload = payload; signatures = signatures }
envelope_from_value _ = none

abbrev pub record_names : List Text
record_names =
    codes "schema_version"
    ∷ codes "run_id"
    ∷ codes "trace_id"
    ∷ codes "session_id"
    ∷ codes "dsse_envelope"
    ∷ codes "user_id"
    ∷ codes "authorized_by"
    ∷ codes "authority_origin"
    ∷ codes "identity_source"
    ∷ codes "attribution_backing"
    ∷ codes "run_attribution_backing_floor"
    ∷ codes "run_attribution_backing_observed"
    ∷ codes "authorization_evidence_count"
    ∷ codes "run_side_effect_class_max"
    ∷ codes "recording_mode"
    ∷ codes "actions"
    ∷ codes "created_at_ms"
    ∷ codes "signature"
    ∷ []

unfoldable pub record_from_map : Map → Option AepRecord
unfolding get without each action_from_map signature_from_value envelope_from_value
record_from_map m = do
  schema_version ← required as_str (get m (codes "schema_version"))
  run_id ← required as_str (get m (codes "run_id"))
  trace_id ← optional as_str (get m (codes "trace_id"))
  session_id ← optional as_str (get m (codes "session_id"))
  dsse_envelope ← optional envelope_from_value (get m (codes "dsse_envelope"))
  user_id ← optional as_str (get m (codes "user_id"))
  authorized_by ← optional as_str (get m (codes "authorized_by"))
  authority_origin ← optional as_str (get m (codes "authority_origin"))
  identity_source ← optional as_str (get m (codes "identity_source"))
  attribution_backing ← optional as_str (get m (codes "attribution_backing"))
  floor ← optional as_str (get m (codes "run_attribution_backing_floor"))
  observed ← optional (as_list as_str) (get m (codes "run_attribution_backing_observed"))
  count ← optional as_u64 (get m (codes "authorization_evidence_count"))
  class_max ← optional as_str (get m (codes "run_side_effect_class_max"))
  recording_mode ← optional as_str (get m (codes "recording_mode"))
  actions ← required (as_list action_from_value) (get m (codes "actions"))
  created_at_ms ← required as_u64 (get m (codes "created_at_ms"))
  signature ← optional signature_from_value (get m (codes "signature"))
  some record {
    schema_version = schema_version;
    run_id = run_id;
    trace_id = trace_id;
    session_id = session_id;
    dsse_envelope = dsse_envelope;
    user_id = user_id;
    authorized_by = authorized_by;
    authority_origin = authority_origin;
    identity_source = identity_source;
    attribution_backing = attribution_backing;
    run_attribution_backing_floor = floor;
    run_attribution_backing_observed = observed;
    authorization_evidence_count = count;
    run_side_effect_class_max = class_max;
    recording_mode = recording_mode;
    actions = actions;
    created_at_ms = created_at_ms;
    signature = signature;
    extra = without record_names m;
  }

abbrev pub record_from_value : Value → Option AepRecord
record_from_value (object m) = record_from_map m
record_from_value _ = none
