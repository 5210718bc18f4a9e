-- ===== src/Prov/Members.antt =====
-- crates/aep-core/src/prov.rs: what the steps of the search add to its sets.
use wasmagent_proxy.Base.{
  ◌+◌, ◌≤◌, ◌≡◌, ◌⊎◌, ◌↔◌, inl, inr, refl, sym, subst, true, List, [], ◌∷◌, ◌++◌, Text, text_eq_iff,
  In, arith, length, Bool-cases,
}
use wasmagent_proxy.Prov.{Search, mem, mark_used}

pub mem_iff : (x : Text) (set : List Text) → (mem x set ≡ true) ↔ In x set
unfolding mem
mem_iff x [] = ground arith
mem_iff x (y ∷ set) = ground (arith, text_eq_iff y x, mem_iff x set)

pub In-concat : (x y : Text) (xs : List Text) → In x (xs ++ y ∷ []) ↔ (In x xs ⊎ (x ≡ y))
In-concat x y [] = ground arith
In-concat x y (z ∷ xs) = ground (arith, In-concat x y xs)

-- Marking adds the used entities to those seen, and the new ones to the stack.
pub record Marks (used : List Text) (s t : Search) : Type 0 where
  pub activities : t.seen_activities ≡ s.seen_activities
  pub order : t.ancestors ≡ s.ancestors
  pub seen : (x : Text) → In x t.seen_entities ↔ (In x s.seen_entities ⊎ In x used)
  pub stack : (x : Text) → In x t.stack → In x s.stack ⊎ In x t.seen_entities
  pub kept : (x : Text) → In x s.stack → In x t.stack
  pub fresh : (x : Text) → In x t.seen_entities → In x s.seen_entities ⊎ In x t.stack
  pub size : length t.stack ≤ length s.stack + length used

pub mark-Marks : (used : List Text) (s : Search) → Marks used s (mark_used used s)
unfolding mark_used
mark-Marks [] s = record {
  activities = refl;
  order = refl;
  seen = λ x. (inl, λ m. elim m [ inl h ↦ h | inr h ↦ elim h [ ] ]);
  stack = λ x m. inl m;
  kept = λ x m. m;
  fresh = λ x m. inl m;
  size = omega arith;
}
mark-Marks (u ∷ used) s = elim (Bool-cases (mem u s.seen_entities)) [
  | inl old ↦
      let m = mark-Marks used s in
      let there = (mem_iff u s.seen_entities).0 old in
      rw (old, mark_used)
        (record {
          activities = m.activities;
          order = m.order;
          seen = λ x. (
            λ h. ground (arith, (m.seen x).0 h),
            λ h. (m.seen x).1 (elim h [
              | inl before ↦ inl before
              | inr (inl e) ↦ inl (subst (λ z. In z s.seen_entities) (sym e) there)
              | inr (inr later) ↦ inr later
            ]),
          );
          stack = m.stack;
          kept = m.kept;
          fresh = m.fresh;
          size = omega (arith, m.size);
        })
  | inr new ↦
      let s' = record s { seen_entities = u ∷ s.seen_entities; stack = u ∷ s.stack } in
      let m = mark-Marks used s' in
      rw (new, mark_used)
        (record {
          activities = m.activities;
          order = m.order;
          seen = λ x. ground (arith, m.seen x);
          stack = λ x h. elim (m.stack x h) [
            | inl (inl e) ↦ inr ((m.seen x).1 (inl (inl e)))
            | inl (inr old) ↦ inl old
            | inr seen ↦ inr seen
          ];
          kept = λ x h. m.kept x (inr h);
          fresh = λ x h. elim (m.fresh x h) [
            | inl (inl e) ↦ inr (m.kept x (inl e))
            | inl (inr old) ↦ inl old
            | inr waiting ↦ inr waiting
          ];
          size = omega (arith, m.size);
        })
]
