-- ===== src/Recording/UnitTests.antt =====
-- crates/aep-core/src/recording.rs: its unit tests, each a Boolean by the name that it has there,
-- and that they pass.
use wasmagent_proxy.Base.{◌≡◌, refl, Bool, true, false, ◌&&◌, codes, text_eq}
use wasmagent_proxy.Recording.{
  RecordingMode, validation, delta, full, mode_str, SideEffectClass, read, mutate_local,
  mutate_external, network_egress, unknown, RiskContext, compile_recording_policy,
}

abbrev equal_modes : RecordingMode → RecordingMode → Bool
equal_modes a b = text_eq (mode_str a) (mode_str b)

abbrev ctx : SideEffectClass → RiskContext
ctx side_effect_class = record {
  was_vetted = false;
  has_consent_anomaly = false;
  taint_chain_length = 0;
  side_effect_class = side_effect_class;
}

abbrev yields : RiskContext → RecordingMode → Bool
yields c mode = equal_modes (compile_recording_policy c).mode mode

abbrev read_yields_validation : Bool
read_yields_validation = yields (ctx read) validation

abbrev mutate_local_yields_delta : Bool
mutate_local_yields_delta = yields (ctx mutate_local) delta

abbrev network_egress_yields_full : Bool
network_egress_yields_full = yields (ctx network_egress) full

abbrev vetted_always_full : Bool
vetted_always_full = yields (record (ctx read) { was_vetted = true }) full

abbrev consent_anomaly_always_full : Bool
consent_anomaly_always_full = yields (record (ctx read) { has_consent_anomaly = true }) full

abbrev taint_with_read_class_stays_validation : Bool
taint_with_read_class_stays_validation =
    let policy = compile_recording_policy (record (ctx read) { taint_chain_length = 3 }) in
    equal_modes policy.mode validation && text_eq policy.reason (codes "read-only, no anomaly")

abbrev taint_with_mutate_local_escalates_to_full : Bool
taint_with_mutate_local_escalates_to_full =
    yields (record (ctx mutate_local) { taint_chain_length = 1 }) full

abbrev unknown_class_yields_full : Bool
unknown_class_yields_full = yields (ctx unknown) full

abbrev risk_priority_order_vetted_beats_others : Bool
risk_priority_order_vetted_beats_others =
    let c = record (ctx mutate_external) {
      was_vetted = true;
      has_consent_anomaly = true;
      taint_chain_length = 2;
    } in
    text_eq (compile_recording_policy c).reason (codes "tool flagged by vetting")

unit_tests_pass :
    (read_yields_validation && mutate_local_yields_delta && network_egress_yields_full
      && vetted_always_full && consent_anomaly_always_full && taint_with_read_class_stays_validation
      && taint_with_mutate_local_escalates_to_full && unknown_class_yields_full
      && risk_priority_order_vetted_beats_others)
    ≡ true
unfolding compile_recording_policy text_eq
unit_tests_pass = refl
