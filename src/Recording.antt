-- ===== src/Recording.antt =====
-- crates/aep-core/src/recording.rs: how much evidence an action needs.
pub mod Policy
mod Tests
mod UnitTests
use wasmagent_proxy.Base.{ℕ, Bool, true, false, ◌&&◌, ◌||◌, not, Text, codes, ltb, if◌then◌else◌}

pub data RecordingMode : Type 0 where
  validation delta full : RecordingMode

-- `impl Default for RecordingMode`
abbrev pub default_mode : RecordingMode
default_mode = validation

-- `RecordingMode::as_str`
abbrev pub mode_str : RecordingMode → Text
mode_str validation = codes "validation"
mode_str delta = codes "delta"
mode_str full = codes "full"

pub data SideEffectClass : Type 0 where
  read mutate_local mutate_external network_egress unknown : SideEffectClass

-- `SideEffectClass::canonical_str`
abbrev pub canonical_str : SideEffectClass → Text
canonical_str read = codes "read"
canonical_str mutate_local = codes "mutate-local"
canonical_str mutate_external = codes "mutate-external"
canonical_str network_egress = codes "network-egress"
canonical_str unknown = codes "unknown"

pub record RiskContext : Type 0 where
  pub was_vetted : Bool
  pub has_consent_anomaly : Bool
  pub taint_chain_length : ℕ
  pub side_effect_class : SideEffectClass

pub record RecordingPolicy : Type 0 where
  pub mode : RecordingMode
  pub reason : Text

-- The derived `PartialEq` of a class against a constant.
abbrev pub is_read : SideEffectClass → Bool
is_read read = true
is_read _ = false

abbrev pub is_unknown : SideEffectClass → Bool
is_unknown unknown = true
is_unknown _ = false

abbrev pub is_mutate_local : SideEffectClass → Bool
is_mutate_local mutate_local = true
is_mutate_local _ = false

-- `matches!(class, MutateExternal | NetworkEgress)`
abbrev pub is_external : SideEffectClass → Bool
is_external mutate_external = true
is_external network_egress = true
is_external _ = false

unfoldable pub compile_recording_policy : RiskContext → RecordingPolicy
compile_recording_policy ctx =
    if ctx.was_vetted
    then record { mode = full; reason = codes "tool flagged by vetting" }
    else if ctx.has_consent_anomaly
    then record { mode = full; reason = codes "consent anomaly recorded" }
    else if ltb 0 ctx.taint_chain_length && not (is_read ctx.side_effect_class)
    then record { mode = full; reason = codes "tainted input reaching state-changing call" }
    else if is_unknown ctx.side_effect_class
    then record { mode = full; reason = codes "unknown side-effect class" }
    else if is_external ctx.side_effect_class
    then record { mode = full; reason = codes "external mutation" }
    else if is_mutate_local ctx.side_effect_class
    then record { mode = delta; reason = codes "local mutation, low risk" }
    else record { mode = validation; reason = codes "read-only, no anomaly" }
