-- ===== src/Recorder/Tests.antt =====
-- crates/proxy-wasm-evidence/src/recorder.rs: runs of the buffer, the inference and the capture.
use Prim.Native.Nat.{max}
use wasmagent_proxy.Base.{
  ◌-◌, ◌%◌, ◌^◌, ◌≤◌, ◌<◌, ◌≡◌, ◌⊎◌, ◌↔◌, refl, false, none, some, List, [], ◌∷◌, ◌++◌, Text, codes,
  ok, length, drop, In, Unicode, to_uppercase,
}
use wasmagent_proxy.Recording.{full, validation, RiskContext, unknown, read}
use wasmagent_proxy.Recording.Policy.{assurance}
use wasmagent_proxy.Evidence.{ActionEvidence, default_action}
use wasmagent_proxy.Recorder.Buffer
use wasmagent_proxy.Recorder.Buffer.{EvidenceBuffer}
use wasmagent_proxy.Recorder.Buffer.History.{
  Operation, record_entry, drain_all, steps, pushed, open_ledger, empty_buffer, buffer_accounts,
}
use wasmagent_proxy.Recorder.Buffer.Newest.{pushes, buffer_keeps_newest}
use wasmagent_proxy.Recorder.Severity.{
  severity_rank, infer_side_effect_class, infer_side_effect_class_with_mcp,
}
use wasmagent_proxy.Recorder.Severity.Escalation.{
  safe_methods, MayRead, infer_never_lowers, infer-read_iff,
}
use wasmagent_proxy.Recorder.Capture.{max_recording_mode, build_evidence}
use wasmagent_proxy.Recorder.Capture.Coherence.{max_recording_mode-IsMax, build_evidence_coherent}

abbrev entry : Text → ActionEvidence
entry id = record default_action { action_id = id }

abbrev three : List ActionEvidence
three = entry (codes "a") ∷ entry (codes "b") ∷ entry (codes "c") ∷ []

abbrev two_rooms : EvidenceBuffer
two_rooms = empty_buffer 2

opened : Buffer.new 10 2 ≡ ok two_rooms
unfolding Buffer.new
opened = refl

abbrev operations : List Operation
operations = record_entry (entry (codes "a")) ∷ drain_all ∷ record_entry (entry (codes "b")) ∷ []

buffer_accounts_example :
    ((steps (open_ledger two_rooms) operations).gone
        ++ (steps (open_ledger two_rooms) operations).buffer.entries
      ≡ pushed operations)
    × (length (steps (open_ledger two_rooms) operations).buffer.entries ≤ 2)
    × ((steps (open_ledger two_rooms) operations).buffer.dropped_total
        ≡ (steps (open_ledger two_rooms) operations).evictions % 2 ^ 64)
buffer_accounts_example = buffer_accounts 10 2 two_rooms operations opened

buffer_keeps_newest_example :
    ((steps (open_ledger two_rooms) (pushes three)).buffer.entries ≡ drop (length three - 2) three)
    × ((steps (open_ledger two_rooms) (pushes three)).buffer.dropped_total
        ≡ (length three - 2) % 2 ^ 64)
buffer_keeps_newest_example = buffer_keeps_newest 10 2 two_rooms three opened

abbrev pub ascii : Unicode
ascii = record { is_alphanumeric_beyond = λ _. false; to_uppercase_beyond = λ c. c ∷ [] }

infer-read_iff_example :
    (infer_side_effect_class_with_mcp ascii (codes "get") (codes "/a") (some (codes "tools/list"))
      ≡ read)
    ↔ (In (to_uppercase ascii (codes "get")) safe_methods × MayRead (some (codes "tools/list")))
infer-read_iff_example = infer-read_iff ascii (codes "get") (codes "/a") (some (codes "tools/list"))

infer_never_lowers_example :
    severity_rank (infer_side_effect_class ascii (codes "POST") (codes "/webhook"))
    ≤ severity_rank (
        infer_side_effect_class_with_mcp ascii
          (codes "POST")
          (codes "/webhook")
          (some (codes "tools/list")))
infer_never_lowers_example =
    infer_never_lowers ascii (codes "POST") (codes "/webhook") (some (codes "tools/list"))

full_is_greater :
    (assurance (max_recording_mode validation full) ≡ max (assurance validation) (assurance full))
    × ((max_recording_mode validation full ≡ validation)
        ⊎ (max_recording_mode validation full ≡ full))
full_is_greater = max_recording_mode-IsMax validation full

abbrev context : RiskContext
context = record {
  was_vetted = false;
  has_consent_anomaly = false;
  taint_chain_length = 0;
  side_effect_class = unknown;
}

build_evidence_coherent_example :
    (((build_evidence [] [] context 5 none none).state_changing ≡ false)
      ↔ ((build_evidence [] [] context 5 none none).side_effect_class ≡ some (codes "read")))
    × (((build_evidence [] [] context 5 none none).state_changing ≡ false)
        ⊎ (0 < assurance (build_evidence [] [] context 5 none none).recording_mode))
build_evidence_coherent_example = build_evidence_coherent [] [] context 5 none none
