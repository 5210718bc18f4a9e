-- ===== src/Evidence/Tests.antt =====
-- crates/aep-core/src/evidence.rs: runs of the roll-ups.
use wasmagent_proxy.Base.{
  ◌⊎◌, ◌≤◌, ◌≡◌, Option, ◌↔◌, refl, none, some, List, [], ◌∷◌, Text, In, All, codes, text_eq,
  max_by_key,
}
use wasmagent_proxy.Recording.{RecordingMode, delta, full, validation}
use wasmagent_proxy.Recording.Policy.{assurance}
use wasmagent_proxy.Evidence.{
  AepRecord, default_record, default_capability, ActionEvidence, default_action, class_rank,
  classes, run_side_effect_class_max, mode_key, modes, strictest_recording_mode,
}
use wasmagent_proxy.Json.{Value, string, object, Fields, field, get}
use wasmagent_proxy.Json.Order.{IsWellFormed}
use wasmagent_proxy.Evidence.Serialize.{record_to_value}
use wasmagent_proxy.Evidence.Rendered.{record-IsWellFormed}
use wasmagent_proxy.Evidence.Rollup.{
  Carries, NotStronger, class_max-IsMax, class_max-none_iff, strictest-IsMax,
}

abbrev action : Text → RecordingMode → ActionEvidence
action class mode = record default_action { side_effect_class = some class; recording_mode = mode }

abbrev run : List ActionEvidence
run =
    action (codes "read") validation
    ∷ action (codes "mutate-external") full
    ∷ default_action
    ∷ action (codes "mutate-local") delta
    ∷ []

run_class : run_side_effect_class_max run ≡ some (codes "mutate-external")
unfolding run_side_effect_class_max classes class_rank text_eq max_by_key
run_class = refl

run_mode : strictest_recording_mode run ≡ some full
unfolding strictest_recording_mode modes mode_key max_by_key
run_mode = refl

-- A class that the order does not list ranks with the last.
unlisted_class : class_rank (codes "teleport") ≡ class_rank (codes "unknown")
unfolding class_rank text_eq
unlisted_class = refl

class_max-IsMax_example :
    ((cls : Text) × (run_side_effect_class_max run ≡ some cls)
      × Carries run cls
      × All (λ a. NotStronger cls a.side_effect_class) run)
    ⊎ (run_side_effect_class_max run ≡ none) × All (λ a. a.side_effect_class ≡ none) run
class_max-IsMax_example = class_max-IsMax run

run_has_class : (run_side_effect_class_max run ≡ none) ↔ (¬ ((cls : Text) × Carries run cls))
run_has_class = class_max-none_iff run

strictest-IsMax_example :
    ((a : ActionEvidence) × In a run × (a.recording_mode ≡ full))
    × All (λ a. assurance a.recording_mode ≤ assurance full) run
strictest-IsMax_example = strictest-IsMax run full run_mode

-- A record with a foreign field, and an action with a decision.
abbrev foreign : AepRecord
foreign = record default_record {
  actions = record default_action { capability_decision = some default_capability } ∷ run;
  extra = field (codes "vendor") (string (codes "x")) Fields.end;
}

record-IsWellFormed_example : IsWellFormed (record_to_value foreign)
unfolding IsWellFormed
record-IsWellFormed_example =
    record-IsWellFormed foreign (tt, tt, tt)
      ((tt, tt), ((tt, tt), ((tt, tt), ((tt, tt), ((tt, tt), tt)))))

abbrev field_of : Text → Value → Option Value
field_of k (object m) = get m k
field_of k _ = none

-- An absent option leaves no field.
absent_omitted : field_of (codes "trace_id") (record_to_value foreign) ≡ none
unfolding record_to_value get text_eq
absent_omitted = refl
