-- ===== src/Prov/Correct.antt =====
-- crates/aep-core/src/prov.rs: the result of `ancestors`.
use wasmagent_proxy.Base.{ℕ, ◌≤◌, suc, ◌≡◌, ◌↔◌, inl, inr, subst, some, List, [], Text, In}
use wasmagent_proxy.Prov.{ProvGraph, Search, start, uses, loop, ancestors}
use wasmagent_proxy.Prov.Reach.{Generated, Upstream, here, further, IsAncestor}
use wasmagent_proxy.Prov.Facts.{Distinct, Inv, Inv-start}
use wasmagent_proxy.Prov.Round.{visit-Inv}
use wasmagent_proxy.Prov.Loop.{loop_rule, loop_more, ancestors_end}

module _ (g : ProvGraph) (e : Text) where
  -- With an empty stack everything upstream has been seen.
  generated_seen :
      (t : Search)
      → Inv g e t
      → t.stack ≡ []
      → (x a : Text) → In x t.seen_entities
      → Generated g x a
      → In a t.seen_activities
  generated_seen t i empty x a m made = elim (i.handled x m) [
    | inl waits ↦ absurd (subst (In x) empty waits)
    | inr done ↦ done a made
  ]

  upstream_seen :
      (t : Search) → Inv g e t → t.stack ≡ [] → (x : Text) → Upstream g e x → In x t.seen_entities
  upstream_seen t i empty x here = i.facts.root
  upstream_seen t i empty x (further {x = w} {a = a} up made used) =
      i.facts.used a x (generated_seen t i empty w a (upstream_seen t i empty w up) made) used

-- The search terminates, on a graph with a cycle too: with fuel for one round and one more for each
-- use that the graph lists, or with any more fuel, the loop ends by its test, with an empty stack,
-- and its result is the one of the search, whatever the fuel.
pub search_terminates :
    (g : ProvGraph) (e : Text) (fuel : ℕ)
    → suc (uses g.activities) ≤ fuel
    → (t : Search) × (loop g fuel (start g e) ≡ some t)
      × (t.stack ≡ [])
      × (ancestors g e ≡ some t.ancestors)
search_terminates g e fuel enough =
    let (t, ends, value) = ancestors_end g e in
    let (_, empty) =
      loop_rule g (Inv g e) (visit-Inv g e) (suc (uses g.activities)) (start g e) t (Inv-start g e)
        ends in
    (t, loop_more g _ fuel (start g e) t ends enough, empty, value)

-- The search returns, and its result lists exactly the activities that generated an entity upstream
-- of the given one, each of them once.
pub ancestors_correct :
    (g : ProvGraph) (e : Text)
    → (result : List Text) × (ancestors g e ≡ some result)
      × Distinct result
      × ((a : Text) → In a result ↔ IsAncestor g e a)
ancestors_correct g e =
    let (t, ends, value) = ancestors_end g e in
    let (i, empty) =
      loop_rule g (Inv g e) (visit-Inv g e) (suc (uses g.activities)) (start g e) t (Inv-start g e)
        ends in
    (
      t.ancestors,
      value,
      i.facts.once,
      λ a. (
        λ m. i.facts.sound a ((i.facts.listed a).0 m),
        λ anc. (i.facts.listed a).1 (
            generated_seen g e t i empty anc.entity a
              (upstream_seen g e t i empty anc.entity anc.upstream) anc.generated),
      ),
    )
