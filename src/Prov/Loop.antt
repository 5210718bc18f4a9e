-- ===== src/Prov/Loop.antt =====
-- crates/aep-core/src/prov.rs: the rounds of the search.
use wasmagent_proxy.Base.{
  ℕ, zero, suc, ◌+◌, ◌≤◌, ◌≡◌, refl, sym, ap, subst, false, some, List, [], ◌∷◌, ◌++◌, inl, inr,
  Text, text_eq, text_eq_iff, arith, length, Bool-cases, Option-cases, List-cases, if◌then◌else◌,
}
use wasmagent_proxy.Prov.{
  ProvActivity, HashMap, ProvGraph, Search, lookup, mem, expand, produce, visit, generator, loop,
  start, uses, ancestors,
}
use wasmagent_proxy.Prov.Members.{mark-Marks}

-- An invariant that each round keeps holds at the end, where the stack is empty.
pub loop_rule {ℓ} :
    (g : ProvGraph) (P : Search → Type ℓ)
    → ((s : Search) (eid : Text) (rest : List Text)
        → s.stack ≡ eid ∷ rest
        → P s
        → P (visit g eid (record s { stack = rest })))
    → (fuel : ℕ) (s t : Search) → P s
    → loop g fuel s ≡ some t
    → P t × (t.stack ≡ [])
unfolding loop
loop_rule g P keep zero s t p h = ground arith
loop_rule g P keep (suc fuel) s t p h = elim (List-cases s.stack) [
  | inl empty ↦ ground arith
  | inr (eid, rest, e) ↦
      loop_rule g P keep fuel (visit g eid (record s { stack = rest })) t (keep s eid rest e p)
        (rw (e, loop) at h)
]

-- More fuel changes nothing.
pub loop_more :
    (g : ProvGraph) (fuel more : ℕ) (s t : Search)
    → loop g fuel s ≡ some t
    → fuel ≤ more
    → loop g more s ≡ some t
unfolding loop
loop_more g zero zero s t h le = h
loop_more g zero (suc more) s t h le = elim (List-cases s.stack) [
  | inl empty ↦ rw (empty, loop) (rw (empty, loop) at h)
  | inr (eid, rest, e) ↦ ground arith
]
loop_more g (suc fuel) zero s t h le = absurd (omega arith)
loop_more g (suc fuel) (suc more) s t h le = elim (List-cases s.stack) [
  | inl empty ↦ rw (empty, loop) (rw (empty, loop) at h)
  | inr (eid, rest, e) ↦
      rw (e, loop)
        (loop_more g fuel more (visit g eid (record s { stack = rest })) t (rw (e, loop) at h)
          (omega arith))
]

-- The uses by activities that are not yet seen.
budget : HashMap ProvActivity → List Text → ℕ
budget [] seen = 0
budget ((k, activity) ∷ m) seen = (if mem k seen then 0 else length activity.used) + budget m seen

budget-nil : (m : HashMap ProvActivity) → budget m [] ≡ uses m
unfolding budget uses mem
budget-nil [] = refl
budget-nil ((k, activity) ∷ m) = ap (λ n. length activity.used + n) (budget-nil m)

budget-cons-le :
    (m : HashMap ProvActivity) (a : Text) (seen : List Text) → budget m (a ∷ seen) ≤ budget m seen
unfolding budget mem
budget-cons-le [] a seen = omega arith
budget-cons-le ((k, activity) ∷ m) a seen = ground (arith, budget-cons-le m a seen)

-- Seeing an activity for the first time pays for what it used.
budget-cons_new :
    (m : HashMap ProvActivity) (a : Text) (seen : List Text) (activity : ProvActivity)
    → lookup m a ≡ some activity
    → mem a seen ≡ false
    → budget m (a ∷ seen) + length activity.used ≤ budget m seen
unfolding budget lookup mem
budget-cons_new [] a seen activity h new = cc
budget-cons_new ((k, w) ∷ m) a seen activity h new = elim (Bool-cases (text_eq k a)) [
  | inl same ↦
      let e = (text_eq_iff k a).0 same in
      let old : mem k seen ≡ false = subst (λ z. mem z seen ≡ false) (sym e) new in
      let w_is : w ≡ activity = ground arith in
      let n : length w.used ≡ length activity.used = ap (λ v. length v.used) w_is in
      let back = (text_eq_iff a k).1 (sym e) in
      rw (back, old) (omega (arith, n, budget-cons-le m a seen))
  | inr other ↦ ground (arith, budget-cons_new m a seen activity)
]

module _ (g : ProvGraph) where
  abbrev work : Search → ℕ
  work s = length s.stack + budget g.activities s.seen_activities

  produce-work : (a : Text) (s : Search) → work (produce g a s) ≤ work s
  unfolding produce expand
  produce-work a s = elim (Bool-cases (mem a s.seen_activities)) [
    | inl old ↦ rw (old, produce) (omega arith)
    | inr new ↦ elim (Option-cases (lookup g.activities a)) [
      | inl absent ↦
          rw (new, produce)
            (rw (absent, expand) (omega (arith, budget-cons-le g.activities a s.seen_activities)))
      | inr (activity, known) ↦
          let s' = record s {
            seen_activities = a ∷ s.seen_activities;
            ancestors = s.ancestors ++ a ∷ [];
          } in
          let m = mark-Marks activity.used s' in
          rw (new, produce)
            (rw (known, expand)
              (omega (
                arith,
                m.size,
                ap (budget g.activities) m.activities,
                budget-cons_new g.activities a s.seen_activities activity known new,
              )))
    ]
  ]

  visit-work : (eid : Text) (s : Search) → work (visit g eid s) ≤ work s
  unfolding visit
  visit-work eid s = elim (Option-cases (generator g eid)) [
    | inl none_known ↦ rw (none_known, visit) (omega arith)
    | inr (a, made) ↦ rw (made, visit) (produce-work a s)
  ]

  loop_ends : (fuel : ℕ) (s : Search) → work s ≤ fuel → (t : Search) × (loop g fuel s ≡ some t)
  unfolding loop
  loop_ends zero s h = (s, ground arith)
  loop_ends (suc fuel) s h = elim (List-cases s.stack) [
    | inl empty ↦ (s, simp (empty, loop))
    | inr (eid, rest, e) ↦
        let popped = record s { stack = rest } in
        let (t, ends) =
          loop_ends fuel (visit g eid popped) (omega (arith, visit-work eid popped, ap length e)) in
        (t, rw (e, loop) ends)
  ]

  -- The rounds of `ancestors` are enough.
  pub ancestors_end :
      (e : Text)
      → (t : Search) × (loop g (suc (uses g.activities)) (start g e) ≡ some t)
        × (ancestors g e ≡ some t.ancestors)
  unfolding ancestors
  ancestors_end e =
      let (t, ends) =
        loop_ends (suc (uses g.activities)) (start g e) (omega (arith, budget-nil g.activities)) in
      (t, ends, rw (ends, ancestors))
