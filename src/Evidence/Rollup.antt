-- ===== src/Evidence/Rollup.antt =====
-- crates/aep-core/src/evidence.rs: what the roll-ups report.
use wasmagent_proxy.Base.{
  ◌≤◌, ◌≡◌, ◌⊎◌, inl, inr, refl, Option, All, All-of, none, some, List, [], ◌∷◌, Text, In, arith,
  max_by_key, max_by_key-some, max_by_key-total, Option-cases, subst, sym, ap, ◌∙◌, All-In, ◌↔◌,
  suc,
}
use wasmagent_proxy.Recording.{RecordingMode, validation, delta, full}
use wasmagent_proxy.Recording.Policy.{assurance}
use wasmagent_proxy.Evidence.{
  ActionEvidence, class_rank, classes, run_side_effect_class_max, mode_key, modes,
  strictest_recording_mode,
}
use wasmagent_proxy.Evidence.Strength.{Weaker, Weaker-ranks}

-- The action `a` of the run carries the class.
abbrev pub Carries : List ActionEvidence → Text → Type 0
Carries evidence cls = (a : ActionEvidence) × In a evidence × (a.side_effect_class ≡ some cls)

Carries-cons :
    (a : ActionEvidence) (evidence : List ActionEvidence) (cls : Text)
    → Carries evidence cls
    → Carries (a ∷ evidence) cls
Carries-cons a evidence cls (b, m, e) = (b, inr m, e)

In-classes_carried :
    (evidence : List ActionEvidence) (cls : Text) → In cls (classes evidence) → Carries evidence cls
unfolding classes
In-classes_carried (a ∷ evidence) cls m = elim (Option-cases a.side_effect_class) [
  | inl absent ↦
      Carries-cons a evidence cls (In-classes_carried evidence cls (rw (absent, classes) at m))
  | inr (c, e) ↦
      let split : (cls ≡ c) ⊎ In cls (classes evidence) = rw (e, classes) at m in
      elim split [
        | inl here ↦ (a, inl refl, e ∙ ap some (sym here))
        | inr later ↦ Carries-cons a evidence cls (In-classes_carried evidence cls later)
      ]
]
In-classes_carried [] cls m = elim m [ ]

carried-In-classes :
    (evidence : List ActionEvidence) (a : ActionEvidence) (cls : Text)
    → In a evidence
    → a.side_effect_class ≡ some cls
    → In cls (classes evidence)
unfolding classes
carried-In-classes (b ∷ evidence) a cls (inl here) e =
    let e' : b.side_effect_class ≡ some cls = subst (λ x. x.side_effect_class ≡ some cls) here e in
    rw (e', classes) (inl refl)
carried-In-classes (b ∷ evidence) a cls (inr later) e =
    let ih = carried-In-classes evidence a cls later e in
    elim (Option-cases b.side_effect_class) [
      | inl absent ↦ rw (absent, classes) ih
      | inr (c, d) ↦ rw (d, classes) (inr ih)
    ]
carried-In-classes [] a cls m e = elim m [ ]

-- The class, if there is one, is not stronger.
abbrev pub NotStronger : Text → Option Text → Type 0
NotStronger cls none = Unit
NotStronger cls (some c) = ¬ Weaker cls c

NotStronger-of :
    (cls : Text) (o : Option Text)
    → ((c : Text) → o ≡ some c → class_rank c ≤ class_rank cls)
    → NotStronger cls o
NotStronger-of cls none f = tt
NotStronger-of cls (some c) f = λ w. omega (arith, f c refl, Weaker-ranks w)

reported_class :
    (evidence : List ActionEvidence) (cls : Text)
    → run_side_effect_class_max evidence ≡ some cls
    → Carries evidence cls × All (λ a. NotStronger cls a.side_effect_class) evidence
unfolding run_side_effect_class_max
reported_class evidence cls h =
    let (there, top) = max_by_key-some class_rank (classes evidence) cls h in
    (
      In-classes_carried evidence cls there,
      All-of _ evidence (λ a m.
          NotStronger-of cls a.side_effect_class
            (λ c e. All-In _ (classes evidence) c top (carried-In-classes evidence a c m e))),
    )

-- No class is reported exactly when no action of the run carries one.
pub class_max-none_iff :
    (evidence : List ActionEvidence)
    → (run_side_effect_class_max evidence ≡ none) ↔ (¬ ((cls : Text) × Carries evidence cls))
unfolding run_side_effect_class_max max_by_key
class_max-none_iff evidence = go (classes evidence) refl
  where
    go :
        (cs : List Text)
        → classes evidence ≡ cs
        → (max_by_key class_rank (classes evidence) ≡ none)
          ↔ (¬ ((cls : Text) × Carries evidence cls))
    go [] e = (
      λ _ (cls, (a, m, d)). subst (In cls) e (carried-In-classes evidence a cls m d),
      λ _. rw (e, max_by_key),
    )
    go (c ∷ cs) e = (
      λ h. cc (h, (max_by_key-total class_rank c cs).1, ap (max_by_key class_rank) e),
      λ absent. absurd (absent (c, In-classes_carried evidence c (rw e (inl refl)))),
    )

no_class_carried :
    (evidence : List ActionEvidence)
    → (¬ ((cls : Text) × Carries evidence cls))
    → All (λ a. a.side_effect_class ≡ none) evidence
no_class_carried evidence h = All-of _ evidence (λ a m. elim (Option-cases a.side_effect_class) [
  | inl absent ↦ absent
  | inr (cls, e) ↦ absurd (h (cls, (a, m, e)))
])

-- The roll-up reports a class that an action of the run carries and than which no action carries a
-- stronger one, or no class, and then no action carries one. "read" is weaker than "mutate-local",
-- that than "mutate-external", that than "network-egress", and that than any other class, so that an
-- unlisted class is reported over every listed one.
pub class_max-IsMax :
    (evidence : List ActionEvidence)
    → ((cls : Text) × (run_side_effect_class_max evidence ≡ some cls)
        × Carries evidence cls
        × All (λ a. NotStronger cls a.side_effect_class) evidence)
      ⊎ (run_side_effect_class_max evidence ≡ none) × All (λ a. a.side_effect_class ≡ none) evidence
class_max-IsMax evidence = elim (Option-cases (run_side_effect_class_max evidence)) [
  | inl absent ↦ inr (absent, no_class_carried evidence ((class_max-none_iff evidence).0 absent))
  | inr (cls, e) ↦
      let (there, strongest) = reported_class evidence cls e in inl (cls, e, there, strongest)
]

mode_key-assurance : (m : RecordingMode) → mode_key m ≡ suc (assurance m)
unfolding mode_key
mode_key-assurance validation = refl
mode_key-assurance delta = refl
mode_key-assurance full = refl

In-modes :
    (evidence : List ActionEvidence) (m : RecordingMode)
    → In m (modes evidence)
    → (a : ActionEvidence) × In a evidence × (a.recording_mode ≡ m)
unfolding modes
In-modes (a ∷ evidence) m (inl here) = (a, inl refl, sym here)
In-modes (a ∷ evidence) m (inr later) =
    let (b, there, e) = In-modes evidence m later in (b, inr there, e)
In-modes [] m h = elim h [ ]

mode-In-modes :
    (evidence : List ActionEvidence) (a : ActionEvidence)
    → In a evidence
    → In a.recording_mode (modes evidence)
unfolding modes
mode-In-modes (b ∷ evidence) a (inl here) = inl (ap (λ x. x.recording_mode) here)
mode-In-modes (b ∷ evidence) a (inr later) = inr (mode-In-modes evidence a later)
mode-In-modes [] a m = elim m [ ]

-- The reported mode is that of an action of the run, and no action has a mode of more assurance.
pub strictest-IsMax :
    (evidence : List ActionEvidence) (mode : RecordingMode)
    → strictest_recording_mode evidence ≡ some mode
    → ((a : ActionEvidence) × In a evidence × (a.recording_mode ≡ mode))
      × All (λ a. assurance a.recording_mode ≤ assurance mode) evidence
unfolding strictest_recording_mode
strictest-IsMax evidence mode h =
    let (there, top) = max_by_key-some mode_key (modes evidence) mode h in
    (
      In-modes evidence mode there,
      All-of _ evidence (λ a m.
          let le = All-In _ (modes evidence) a.recording_mode top (mode-In-modes evidence a m) in
          omega (arith, mode_key-assurance a.recording_mode, mode_key-assurance mode)),
    )
