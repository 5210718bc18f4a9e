-- ===== src/Evidence.antt =====
-- crates/aep-core/src/evidence.rs: the records, and what a run reports of its actions.
pub mod Serialize
pub mod Deserialize
pub mod Rendered
pub mod Rollup
pub mod Strength
mod Tests
mod UnitTests
use wasmagent_proxy.Base.{
  ℕ, suc, zero, Bool, true, false, Option, none, some, List, [], ◌∷◌, Text, codes, text_eq,
  max_by_key, length, ◌-◌, if◌then◌else◌, ◌≡◌, refl, ◌==◌,
}
use wasmagent_proxy.Json.{Map, Fields}
use wasmagent_proxy.Recording.{RecordingMode, validation, delta, full, default_mode}

abbrev pub aep_schema_version : Text
aep_schema_version = codes "aep/v0.5"

pub record CapabilityDecision : Type 0 where
  pub capability : Text
  pub subject : Text
  pub resource : Text
  pub decision : Text
  pub reason_code : Option Text
  pub deny_reason_class : Option Text
  pub extra : Map

pub record ActionEvidence : Type 0 where
  pub action_id : Text
  pub tool_name : Text
  pub state_changing : Bool
  pub precondition_digest : Option Text
  pub result_digest : Option Text
  pub timestamp_ms : ℕ
  pub parent_action_id : Option Text
  pub causal_chain_id : Option Text
  pub recording_mode : RecordingMode
  pub capability_decision : Option CapabilityDecision
  pub mcp_header_risk : Option Text
  pub side_effect_class : Option Text
  pub extra : Map

pub record AepSignature : Type 0 where
  pub alg : Text
  pub key_id : Text
  pub sig : Text

pub record DsseSignature : Type 0 where
  pub keyid : Text
  pub sig : Text

pub record DsseEnvelope : Type 0 where
  pub payload_type : Text
  pub payload : Text
  pub signatures : List DsseSignature

pub record AepRecord : Type 0 where
  pub schema_version : Text
  pub run_id : Text
  pub trace_id : Option Text
  pub session_id : Option Text
  pub dsse_envelope : Option DsseEnvelope
  pub user_id : Option Text
  pub authorized_by : Option Text
  pub authority_origin : Option Text
  pub identity_source : Option Text
  pub attribution_backing : Option Text
  pub run_attribution_backing_floor : Option Text
  pub run_attribution_backing_observed : Option (List Text)
  pub authorization_evidence_count : Option ℕ
  pub run_side_effect_class_max : Option Text
  pub recording_mode : Option Text
  pub actions : List ActionEvidence
  pub created_at_ms : ℕ
  pub signature : Option AepSignature
  pub extra : Map

-- The derived `Default`s.
abbrev pub default_capability : CapabilityDecision
default_capability = record {
  capability = [];
  subject = [];
  resource = [];
  decision = [];
  reason_code = none;
  deny_reason_class = none;
  extra = Fields.end;
}

abbrev pub default_action : ActionEvidence
default_action = record {
  action_id = [];
  tool_name = [];
  state_changing = false;
  precondition_digest = none;
  result_digest = none;
  timestamp_ms = 0;
  parent_action_id = none;
  causal_chain_id = none;
  recording_mode = default_mode;
  capability_decision = none;
  mcp_header_risk = none;
  side_effect_class = none;
  extra = Fields.end;
}

abbrev pub default_record : AepRecord
default_record = record {
  schema_version = [];
  run_id = [];
  trace_id = none;
  session_id = none;
  dsse_envelope = none;
  user_id = none;
  authorized_by = none;
  authority_origin = none;
  identity_source = none;
  attribution_backing = none;
  run_attribution_backing_floor = none;
  run_attribution_backing_observed = none;
  authorization_evidence_count = none;
  run_side_effect_class_max = none;
  recording_mode = none;
  actions = [];
  created_at_ms = 0;
  signature = none;
  extra = Fields.end;
}

-- `ORDER` of `run_side_effect_class_max`
abbrev pub class_order : List Text
class_order =
    codes "read"
    ∷ codes "mutate-local"
    ∷ codes "mutate-external"
    ∷ codes "network-egress"
    ∷ codes "unknown"
    ∷ []

-- `iter().position(|o| o == cls).unwrap_or(d)`, from an index on.
unfoldable pub position_or : List Text → Text → ℕ → ℕ → ℕ
position_or [] cls i d = d
position_or (o ∷ os) cls i d = if text_eq o cls then i else position_or os cls (suc i) d

unfoldable pub class_rank : Text → ℕ
unfolding position_or
class_rank cls = position_or class_order cls 0 (length class_order - 1)

-- `filter_map(|a| a.side_effect_class.as_deref())`
unfoldable pub classes : List ActionEvidence → List Text
classes [] = []
classes (a ∷ evidence) = elim a.side_effect_class [
  | none ↦ classes evidence
  | some cls ↦ cls ∷ classes evidence
]

unfoldable pub run_side_effect_class_max : List ActionEvidence → Option Text
run_side_effect_class_max evidence = max_by_key class_rank (classes evidence)

-- `ORDER` of `strictest_recording_mode`
abbrev pub mode_order : List RecordingMode
mode_order = validation ∷ delta ∷ full ∷ []

-- Equality of `mem::discriminant`.
abbrev pub same_mode : RecordingMode → RecordingMode → Bool
same_mode validation validation = true
same_mode delta delta = true
same_mode full full = true
same_mode _ _ = false

-- The key is an `Option` of a position; its order puts `None` below every `Some`.
unfoldable pub mode_key_from : List RecordingMode → RecordingMode → ℕ → ℕ
mode_key_from [] mode i = 0
mode_key_from (m ∷ ms) mode i = if same_mode m mode then suc i else mode_key_from ms mode (suc i)

unfoldable pub mode_key : RecordingMode → ℕ
unfolding mode_key_from
mode_key mode = mode_key_from mode_order mode 0

unfoldable pub modes : List ActionEvidence → List RecordingMode
modes [] = []
modes (a ∷ evidence) = a.recording_mode ∷ modes evidence

unfoldable pub strictest_recording_mode : List ActionEvidence → Option RecordingMode
strictest_recording_mode evidence = max_by_key mode_key (modes evidence)
