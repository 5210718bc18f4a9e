-- ===== src/Prov/Round.antt =====
-- crates/aep-core/src/prov.rs: a round of the search keeps what holds between rounds.
use wasmagent_proxy.Base.{
  ◌≡◌, ◌⊎◌, inl, inr, refl, sym, subst, ◌∙◌, List, [], ◌∷◌, ◌++◌, Text, In, Bool-cases,
  Option-cases, some-injective, false≢true,
}
use wasmagent_proxy.Prov.{
  ProvActivity, ProvGraph, Search, lookup, mem, expand, produce, visit, generator,
}
use wasmagent_proxy.Prov.Reach.{Generated, Uses, further, IsAncestor}
use wasmagent_proxy.Prov.Members.{mem_iff, In-concat, mark-Marks}
use wasmagent_proxy.Prov.Facts.{Distinct-concat, Facts, Inv, Handled}

module _ (g : ProvGraph) (e : Text) where
  -- What the first sight of an activity changes.
  record Expands (s : Search) (a : Text) (t : Search) : Type 0 where
    activities : t.seen_activities ≡ a ∷ s.seen_activities
    order : t.ancestors ≡ s.ancestors ++ a ∷ []
    old_seen : (x : Text) → In x s.seen_entities → In x t.seen_entities
    used_seen : (x : Text) → Uses g a x → In x t.seen_entities
    seen : (x : Text) → In x t.seen_entities → In x s.seen_entities ⊎ Uses g a x
    stack : (x : Text) → In x t.stack → In x s.stack ⊎ In x t.seen_entities
    kept : (x : Text) → In x s.stack → In x t.stack
    fresh : (x : Text) → In x t.seen_entities → In x s.seen_entities ⊎ In x t.stack

  abbrev record_activity : Text → Search → Search
  record_activity a s = record s {
    seen_activities = a ∷ s.seen_activities;
    ancestors = s.ancestors ++ a ∷ [];
  }

  expand-Expands : (s : Search) (a : Text) → Expands s a (expand g a (record_activity a s))
  unfolding expand
  expand-Expands s a = elim (Option-cases (lookup g.activities a)) [
    | inl absent ↦
        rw (absent, expand)
          (record {
            activities = refl;
            order = refl;
            old_seen = λ x m. m;
            used_seen = λ x (activity, known, m). cc;
            seen = λ x m. inl m;
            stack = λ x m. inl m;
            kept = λ x m. m;
            fresh = λ x m. inl m;
          })
    | inr (activity, known) ↦
        let m = mark-Marks activity.used (record_activity a s) in
        rw (known, expand)
          (record {
            activities = m.activities;
            order = m.order;
            old_seen = λ x h. (m.seen x).1 (inl h);
            used_seen = λ x (other, found, h). (m.seen x).1 (
                inr (
                  subst (λ (v : ProvActivity). In x v.used) (some-injective _ _ (sym found ∙ known))
                    h));
            seen = λ x h. elim ((m.seen x).0 h) [
              | inl old ↦ inl old
              | inr used ↦ inr (activity, known, used)
            ];
            stack = m.stack;
            kept = m.kept;
            fresh = m.fresh;
          })
  ]

  Expands-Facts :
      (s t : Search) (a : Text)
      → Facts g e s
      → IsAncestor g e a
      → (¬ In a s.seen_activities)
      → Expands s a t
      → Facts g e t
  Expands-Facts s t a f anc new x = record {
    root = x.old_seen e f.root;
    stacked = λ y m. elim (x.stack y m) [ inl old ↦ x.old_seen y (f.stacked y old) | inr h ↦ h ];
    upstream = λ y m. elim (x.seen y m) [
      | inl old ↦ f.upstream y old
      | inr used ↦ further anc.upstream anc.generated used
    ];
    sound = λ b m. elim (subst (In b) x.activities m) [
      | inl same ↦ subst (IsAncestor g e) (sym same) anc
      | inr old ↦ f.sound b old
    ];
    listed = λ b.
        rw (x.order, x.activities)
          (
            λ m. elim ((In-concat b a s.ancestors).0 m) [
              | inl old ↦ inr ((f.listed b).0 old)
              | inr same ↦ inl same
            ],
            λ m.
                (In-concat b a s.ancestors).1
                  (elim m [ inl same ↦ inr same | inr old ↦ inl ((f.listed b).1 old) ]),
          );
    once = rw x.order (Distinct-concat a s.ancestors (λ m. new ((f.listed a).0 m)) f.once);
    used = λ b y m u. elim (subst (In b) x.activities m) [
      | inl same ↦ x.used_seen y (subst (λ c. Uses g c y) same u)
      | inr old ↦ x.old_seen y (f.used b y old u)
    ];
  }

  popped :
      (s : Search) (x : Text) (rest : List Text)
      → s.stack ≡ x ∷ rest
      → Facts g e s
      → Facts g e (record s { stack = rest })
  popped s x rest h f = record {
    root = f.root;
    stacked = λ y m. f.stacked y (rw h (inr m));
    upstream = f.upstream;
    sound = f.sound;
    listed = f.listed;
    once = f.once;
    used = f.used;
  }

  -- After the pop of `x` every other seen entity is still handled.
  abbrev HandledBut : Text → Search → Type 0
  HandledBut x s = (y : Text) → In y s.seen_entities → (y ≡ x) ⊎ Handled g e s y

  popped-HandledBut :
      (s : Search) (x : Text) (rest : List Text)
      → s.stack ≡ x ∷ rest
      → Inv g e s
      → HandledBut x (record s { stack = rest })
  popped-HandledBut s x rest h i y m = elim (i.handled y m) [
    | inl waits ↦ elim (subst (In y) h waits) [ inl same ↦ inl same | inr later ↦ inr (inl later) ]
    | inr done ↦ inr (inr done)
  ]

  close :
      (s : Search) (x : Text)
      → HandledBut x s
      → ((a : Text) → Generated g x a → In a s.seen_activities)
      → (y : Text) → In y s.seen_entities
      → Handled g e s y
  close s x others done y m = elim (others y m) [
    | inl same ↦ inr (λ a made. done a (subst (λ z. Generated g z a) same made))
    | inr h ↦ h
  ]

  Expands-HandledBut : (s t : Search) (a x : Text) → Expands s a t → HandledBut x s → HandledBut x t
  Expands-HandledBut s t a x ex others y m = elim (ex.fresh y m) [
    | inr waits ↦ inr (inl waits)
    | inl old ↦ elim (others y old) [
      | inl same ↦ inl same
      | inr (inl waits) ↦ inr (inl (ex.kept y waits))
      | inr (inr done) ↦ inr (inr (λ b made. subst (In b) (sym ex.activities) (inr (done b made))))
    ]
  ]

  produce-Inv :
      (s : Search) (x a : Text)
      → Facts g e s
      → HandledBut x s
      → In x s.seen_entities
      → Generated g x a
      → Inv g e (produce g a s)
  unfolding produce
  produce-Inv s x a f others there made = elim (Bool-cases (mem a s.seen_activities)) [
    | inl old ↦
        let known = (mem_iff a s.seen_activities).0 old in
        rw (old, produce)
          (record {
            facts = f;
            handled = close s x others (λ b other.
                subst (λ c. In c s.seen_activities) (some-injective _ _ (sym made ∙ other)) known);
          })
    | inr new ↦
        let t = expand g a (record_activity a s) in
        let ex = expand-Expands s a in
        let anc : IsAncestor g e a = record {
          entity = x;
          upstream = f.upstream x there;
          generated = made;
        } in
        let unseen = λ (m : In a s.seen_activities).
          false≢true (sym new ∙ (mem_iff a s.seen_activities).1 m) in
        rw (new, produce)
          (record {
            facts = Expands-Facts s t a f anc unseen ex;
            handled = close t x (Expands-HandledBut s t a x ex others) (λ b other.
                subst (In b) (sym ex.activities) (inl (some-injective _ _ (sym other ∙ made))));
          })
  ]

  pub visit-Inv :
      (s : Search) (x : Text) (rest : List Text)
      → s.stack ≡ x ∷ rest
      → Inv g e s
      → Inv g e (visit g x (record s { stack = rest }))
  unfolding visit
  visit-Inv s x rest h i = elim (Option-cases (generator g x)) [
    | inl nothing ↦
        rw (nothing, visit)
          (record {
            facts = popped s x rest h i.facts;
            handled =
                close (record s { stack = rest }) x (popped-HandledBut s x rest h i) (λ a made. cc);
          })
    | inr (a, made) ↦
        rw (made, visit)
          (produce-Inv (record s { stack = rest }) x a (popped s x rest h i.facts)
            (popped-HandledBut s x rest h i) (i.facts.stacked x (rw h (inl refl))) made)
  ]
