-- ===== src/Prov/Facts.antt =====
-- crates/aep-core/src/prov.rs: what holds between two rounds of the search.
use wasmagent_proxy.Base.{◌⊎◌, ◌↔◌, inl, inr, refl, sym, subst, List, [], ◌∷◌, ◌++◌, Text, In}
use wasmagent_proxy.Prov.{ProvGraph, Search, start}
use wasmagent_proxy.Prov.Reach.{Generated, Uses, Upstream, here, IsAncestor}
use wasmagent_proxy.Prov.Members.{In-concat}

-- No text stands twice in the list.
abbrev pub Distinct : List Text → Type 0
Distinct [] = Unit
Distinct (x ∷ xs) = (¬ In x xs) × Distinct xs

pub Distinct-concat :
    (x : Text) (xs : List Text) → ¬ In x xs → Distinct xs → Distinct (xs ++ x ∷ [])
Distinct-concat x [] new d = (λ h. h, tt)
Distinct-concat x (y ∷ xs) new (first, d) = (
  λ h. elim ((In-concat y x xs).0 h) [ inl m ↦ first m | inr e ↦ new (inl (sym e)) ],
  Distinct-concat x xs (λ m. new (inr m)) d,
)

module _ (g : ProvGraph) (e : Text) where
  -- The facts about the two sets and the result that hold between any two steps.
  pub record Facts (s : Search) : Type 0 where
    pub root : In e s.seen_entities
    pub stacked : (x : Text) → In x s.stack → In x s.seen_entities
    pub upstream : (x : Text) → In x s.seen_entities → Upstream g e x
    pub sound : (a : Text) → In a s.seen_activities → IsAncestor g e a
    pub listed : (a : Text) → In a s.ancestors ↔ In a s.seen_activities
    pub once : Distinct s.ancestors
    pub used : (a x : Text) → In a s.seen_activities → Uses g a x → In x s.seen_entities

  -- The entity waits, or what generated it is seen.
  abbrev pub Handled : Search → Text → Type 0
  Handled s x = In x s.stack ⊎ ((a : Text) → Generated g x a → In a s.seen_activities)

  pub record Inv (s : Search) : Type 0 where
    pub facts : Facts s
    pub handled : (x : Text) → In x s.seen_entities → Handled s x

  pub Inv-start : Inv (start g e)
  Inv-start = record {
    facts = record {
      root = inl refl;
      stacked = λ x m. m;
      upstream =
          λ x m. elim m [ inl same ↦ subst (Upstream g e) (sym same) here | inr h ↦ elim h [ ] ];
      sound = λ a m. elim m [ ];
      listed = λ a. (λ m. m, λ m. m);
      once = tt;
      used = λ a x m. elim m [ ];
    };
    handled = λ x m. inl m;
  }
