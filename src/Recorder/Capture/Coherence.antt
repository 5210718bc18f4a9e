-- ===== src/Recorder/Capture/Coherence.antt =====
-- crates/proxy-wasm-evidence/src/recorder.rs: what the fields of captured evidence say together.
use Prim.Native.Nat.{max}
use wasmagent_proxy.Base.{ℕ, ◌<◌, ◌≡◌, ◌⊎◌, ◌↔◌, false, Option, some, Text, codes, arith}
use wasmagent_proxy.Recording.{RecordingMode, RiskContext, compile_recording_policy}
use wasmagent_proxy.Recording.Policy.{assurance}
use wasmagent_proxy.McpHeaders.{McpHeaderRisk}
use wasmagent_proxy.Recorder.Capture.{max_recording_mode, build_evidence}

-- The greater of two modes has the greater assurance of the two, and is one of them.
pub max_recording_mode-IsMax :
    (a b : RecordingMode)
    → (assurance (max_recording_mode a b) ≡ max (assurance a) (assurance b))
      × ((max_recording_mode a b ≡ a) ⊎ (max_recording_mode a b ≡ b))
unfolding max_recording_mode
max_recording_mode-IsMax a b = ground arith

-- Captured evidence is marked as changing no state exactly when it names the class "read", and
-- evidence that is marked as changing state is recorded above validation.
pub build_evidence_coherent :
    (id tool : Text) (ctx : RiskContext) (ts : ℕ) (pre : Option Text) (risk : Option McpHeaderRisk)
    → (((build_evidence id tool ctx ts pre risk).state_changing ≡ false)
        ↔ ((build_evidence id tool ctx ts pre risk).side_effect_class ≡ some (codes "read")))
      × (((build_evidence id tool ctx ts pre risk).state_changing ≡ false)
          ⊎ (0 < assurance (build_evidence id tool ctx ts pre risk).recording_mode))
unfolding build_evidence compile_recording_policy
build_evidence_coherent id tool ctx ts pre risk = ground arith
