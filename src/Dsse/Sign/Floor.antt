-- ===== src/Dsse/Sign/Floor.antt =====
-- crates/aep-core/src/dsse.rs: the floor of the observed grades.
use wasmagent_proxy.Base.{
  ◌≤◌, ◌≡◌, ◌⊎◌, ◌↔◌, inl, inr, refl, Option, none, some, List, [], ◌∷◌, Text, Bytes, ok, err,
  panic, All, All-In, arith, min_by_key-some, min_by_key-total, ltb, ltb→lt, Bool-cases,
  Result-cases,
}
use native.Mathlib.Nat.{le_trans}
use wasmagent_proxy.Json.{Crates}
use wasmagent_proxy.Evidence.{AepRecord}
use wasmagent_proxy.Dsse.Sign.{
  grade_rank, check_floor, check_grading, sign_envelope, sign_record_dsse,
}

-- No grading at all, or a floor with observed grades, of which none is weaker than the floor.
abbrev pub IsGraded : Option Text → Option (List Text) → Type 0
IsGraded none none = Unit
IsGraded (some floor) (some (g ∷ gs)) = All (λ grade. grade_rank floor ≤ grade_rank grade) (g ∷ gs)
IsGraded _ _ = ⊥

All-of_le :
    (floor m : Text) (gs : List Text)
    → grade_rank floor ≤ grade_rank m
    → All (λ g. grade_rank m ≤ grade_rank g) gs
    → All (λ g. grade_rank floor ≤ grade_rank g) gs
All-of_le floor m [] h a = tt
All-of_le floor m (g ∷ gs) h (b, bs) = (le_trans h b, All-of_le floor m gs h bs)

check_floor_iff :
    (floor g : Text) (gs : List Text)
    → (check_floor floor (some (g ∷ gs)) ≡ ok tt) ↔ IsGraded (some floor) (some (g ∷ gs))
unfolding check_floor
check_floor_iff floor g gs =
    let (m, e) = min_by_key-total grade_rank g gs in
    let (there, least) = min_by_key-some grade_rank (g ∷ gs) m e in
    elim (Bool-cases (ltb (grade_rank m) (grade_rank floor))) [
      | inl stronger ↦
          rw (e, stronger)
            (λ h. cc, λ a. absurd (omega (arith, All-In _ (g ∷ gs) m a there, ltb→lt _ _ stronger)))
      | inr fits ↦
          rw (e, fits) (λ h. All-of_le floor m (g ∷ gs) (ground (arith, fits)) least, λ a. refl)
    ]

check_grading_iff :
    (floor : Option Text) (observed : Option (List Text))
    → (check_grading floor observed ≡ ok tt) ↔ IsGraded floor observed
unfolding check_grading
check_grading_iff none none = (λ h. tt, λ h. refl)
check_grading_iff none (some gs) = (λ h. cc, λ h. absurd h)
check_grading_iff (some floor) none = (λ h. cc, λ h. absurd h)
check_grading_iff (some floor) (some []) = (λ h. cc, λ h. absurd h)
check_grading_iff (some floor) (some (g ∷ gs)) = check_floor_iff floor g gs

-- No call panics.
check_grading-ne-panic :
    (floor : Option Text) (observed : Option (List Text)) (e : Text)
    → ¬ (check_grading floor observed ≡ panic e)
unfolding check_grading
check_grading-ne-panic none none e h = cc
check_grading-ne-panic none (some gs) e h = cc
check_grading-ne-panic (some floor) none e h = cc
check_grading-ne-panic (some floor) (some gs) e h = ground (arith)

module _ (x : Crates) where
  -- Signing succeeds exactly for a record without grading or whose floor is no stronger than any of
  -- its observed grades, of which there is one. Then the record keeps its fields but for a new
  -- envelope and no legacy signature; and if signing fails it returns an error and leaves the record
  -- as it was.
  pub sign_iff_IsGraded :
      (r : AepRecord) (key : Bytes) (key_id : Text)
      → ((sign_record_dsse x r key key_id).1 ≡ ok tt
          ↔ IsGraded r.run_attribution_backing_floor r.run_attribution_backing_observed)
        × ((sign_record_dsse x r key key_id ≡ (
          record r { signature = none; dsse_envelope = some (sign_envelope x r key key_id) },
          ok tt,
        ))
            ⊎ (e : Text) × (sign_record_dsse x r key key_id ≡ (r, err e)))
  unfolding sign_record_dsse
  sign_iff_IsGraded r key key_id =
      let floor = r.run_attribution_backing_floor in
      let observed = r.run_attribution_backing_observed in
      let graded = check_grading_iff floor observed in
      elim (Result-cases (check_grading floor observed)) [
        | inl (_, e) ↦ rw (e, sign_record_dsse) ((λ h. graded.0 e, λ h. refl), inl refl)
        | inr (inl (m, e)) ↦
            rw (e, sign_record_dsse) ((λ h. cc, λ h. cc (graded.1 h, e)), inr (m, refl))
        | inr (inr (m, e)) ↦ absurd (check_grading-ne-panic floor observed m e)
      ]
