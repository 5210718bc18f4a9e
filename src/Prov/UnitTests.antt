-- ===== src/Prov/UnitTests.antt =====
-- crates/aep-core/src/prov.rs: its unit tests, each a Boolean by the name that it has there, and that
-- they pass.
use wasmagent_proxy.Base.{
  ◌≡◌, refl, Bool, true, false, ◌&&◌, ◌||◌, ◌==◌, Option, none, some, List, [], ◌∷◌, Text, codes,
  text_eq, length,
}
use wasmagent_proxy.Base.Asserts.{some_and}
use wasmagent_proxy.Prov.{ProvActivity, ProvEntity, ProvGraph, HashMap, ancestors}

abbrev activity : Text → List Text → ProvActivity
activity id used = record { id = id; label = id; used = used; generated = []; timestamp_ms = 0 }

abbrev entity : Text → Option Text → ProvEntity
entity id generated_by = record { id = id; digest = none; generated_by = generated_by }

-- The loops of inserts; the identifiers of each test differ.
abbrev by_activity : List ProvActivity → HashMap ProvActivity
by_activity [] = []
by_activity (a ∷ activities) = (a.id, a) ∷ by_activity activities

abbrev by_entity : List ProvEntity → HashMap ProvEntity
by_entity [] = []
by_entity (e ∷ entities) = (e.id, e) ∷ by_entity entities

abbrev graph : List ProvActivity → List ProvEntity → ProvGraph
graph activities entities = record {
  activities = by_activity activities;
  entities = by_entity entities;
  agents = [];
}

abbrev same_texts : List Text → List Text → Bool
same_texts [] [] = true
same_texts (s ∷ ss) (t ∷ ts) = text_eq s t && same_texts ss ts
same_texts _ _ = false

abbrev finds : ProvGraph → Text → List Text → Bool
finds g entity_id expected = some_and (ancestors g entity_id) (same_texts expected)

abbrev ancestors_walks_generated_by_then_used_chain : Bool
ancestors_walks_generated_by_then_used_chain =
    let g =
      graph (activity (codes "act1") (codes "output" ∷ []) ∷ activity (codes "act2") [] ∷ []) (
        entity (codes "input") (some (codes "act1"))
        ∷ entity (codes "output") (some (codes "act2"))
        ∷ []) in
    finds g (codes "input") (codes "act1" ∷ codes "act2" ∷ [])

abbrev ancestors_returns_empty_for_unknown_or_root_entity : Bool
ancestors_returns_empty_for_unknown_or_root_entity =
    let g = graph (activity (codes "act1") [] ∷ []) (entity (codes "root") none ∷ []) in
    finds g (codes "missing") [] && finds g (codes "root") []

abbrev ancestors_deduplicates_shared_activities : Bool
ancestors_deduplicates_shared_activities =
    let g = graph (activity (codes "act1") (codes "mid" ∷ []) ∷ []) (
      entity (codes "in-a") (some (codes "act1"))
      ∷ entity (codes "in-b") (some (codes "act1"))
      ∷ entity (codes "mid") none
      ∷ []) in
    finds g (codes "in-a") (codes "act1" ∷ []) && finds g (codes "in-b") (codes "act1" ∷ [])

-- The sorted result is compared up to order.
abbrev ancestors_terminates_on_cyclic_graph : Bool
ancestors_terminates_on_cyclic_graph =
    let g =
      graph
        (activity (codes "act1") (codes "out" ∷ [])
          ∷ activity (codes "act2") (codes "in" ∷ [])
          ∷ [])
        (entity (codes "in") (some (codes "act1"))
          ∷ entity (codes "out") (some (codes "act2"))
          ∷ []) in
    some_and (ancestors g (codes "in")) λ result.
      length result == 2
      && (same_texts result (codes "act1" ∷ codes "act2" ∷ [])
          || same_texts result (codes "act2" ∷ codes "act1" ∷ []))

unit_tests_pass :
    (ancestors_walks_generated_by_then_used_chain
      && ancestors_returns_empty_for_unknown_or_root_entity
      && ancestors_deduplicates_shared_activities && ancestors_terminates_on_cyclic_graph)
    ≡ true
unfolding ancestors text_eq
unit_tests_pass = refl
