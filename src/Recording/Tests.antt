-- ===== src/Recording/Tests.antt =====
-- crates/aep-core/src/recording.rs: runs on concrete contexts.
use wasmagent_proxy.Base.{◌≤◌, ◌≡◌, ◌↔◌, refl, false, arith}
use wasmagent_proxy.Recording.{
  SideEffectClass, read, mutate_local, unknown, delta, full, validation, RiskContext,
  compile_recording_policy,
}
use wasmagent_proxy.Recording.Policy.{assurance, IsFlagged, compile-full_iff, compile_mono}

abbrev plain : SideEffectClass → RiskContext
plain class = record {
  was_vetted = false;
  has_consent_anomaly = false;
  taint_chain_length = 0;
  side_effect_class = class;
}

abbrev tainted : SideEffectClass → RiskContext
tainted class = record (plain class) { taint_chain_length = 2 }

plain_read : (compile_recording_policy (plain read)).mode ≡ validation
unfolding compile_recording_policy
plain_read = refl

tainted_local : (compile_recording_policy (tainted mutate_local)).mode ≡ full
unfolding compile_recording_policy
tainted_local = refl

plain_local : (compile_recording_policy (plain mutate_local)).mode ≡ delta
unfolding compile_recording_policy
plain_local = refl

compile-full_iff_example :
    ((compile_recording_policy (tainted mutate_local)).mode ≡ full)
    ↔ IsFlagged (tainted mutate_local)
compile-full_iff_example = compile-full_iff (tainted mutate_local)

compile_mono_example :
    assurance (compile_recording_policy (plain mutate_local)).mode
    ≤ assurance (compile_recording_policy (tainted unknown)).mode
compile_mono_example =
    compile_mono (plain mutate_local) (tainted unknown)
      (record { vetted = λ h. h; anomaly = λ h. h; taint = omega arith; class = omega arith })
