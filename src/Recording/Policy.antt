-- ===== src/Recording/Policy.antt =====
-- crates/aep-core/src/recording.rs: the modes that contexts compile to.
use wasmagent_proxy.Base.{ℕ, ◌≤◌, ◌<◌, ◌≡◌, ◌≢◌, ◌⊎◌, ◌↔◌, true, arith}
use wasmagent_proxy.Recording.{
  RecordingMode, validation, delta, full, SideEffectClass, read, mutate_local, mutate_external,
  network_egress, unknown, RiskContext, compile_recording_policy,
}

-- Assurance grows from validation over delta to full.
abbrev pub assurance : RecordingMode → ℕ
assurance validation = 0
assurance delta = 1
assurance full = 2

-- What the class alone says: a read, a local mutation, or an effect that leaves the host or could.
abbrev pub exposure : SideEffectClass → ℕ
exposure read = 0
exposure mutate_local = 1
exposure mutate_external = 2
exposure network_egress = 2
exposure unknown = 2

-- `d` shows every signal that `c` shows.
pub record NoRiskier (c d : RiskContext) : Type 0 where
  pub vetted : c.was_vetted ≡ true → d.was_vetted ≡ true
  pub anomaly : c.has_consent_anomaly ≡ true → d.has_consent_anomaly ≡ true
  pub taint : c.taint_chain_length ≤ d.taint_chain_length
  pub class : exposure c.side_effect_class ≤ exposure d.side_effect_class

-- A signal that alone forces full recording.
abbrev pub IsFlagged : RiskContext → Type 0
IsFlagged c =
    (c.was_vetted ≡ true)
    ⊎ (c.has_consent_anomaly ≡ true)
    ⊎ (0 < c.taint_chain_length) × (c.side_effect_class ≢ read)
    ⊎ (exposure c.side_effect_class ≡ 2)

-- The compiled mode is full exactly for a context that was vetted, has a consent anomaly, reaches a
-- class other than read with tainted input, or has an external, egress or unknown class.
pub compile-full_iff : (c : RiskContext) → ((compile_recording_policy c).mode ≡ full) ↔ IsFlagged c
unfolding compile_recording_policy
compile-full_iff c = ground arith

-- If one context shows every risk signal of another, its compiled mode has at least the assurance.
pub compile_mono :
    (c d : RiskContext)
    → NoRiskier c d
    → assurance (compile_recording_policy c).mode ≤ assurance (compile_recording_policy d).mode
unfolding compile_recording_policy
compile_mono c d h = ground arith
