-- ===== src/Prov/Tests.antt =====
-- crates/aep-core/src/prov.rs: a run on a graph with a cycle.
use wasmagent_proxy.Base.{arith, ◌≡◌, ◌↔◌, none, some, List, [], ◌∷◌, Text, In, codes}
use wasmagent_proxy.Prov.{ProvActivity, ProvEntity, ProvGraph, Search, loop, start, uses, ancestors}
use wasmagent_proxy.Prov.Reach.{IsAncestor}
use wasmagent_proxy.Prov.Facts.{Distinct}
use wasmagent_proxy.Prov.Correct.{search_terminates, ancestors_correct}

abbrev entity : Text → Text → Text × ProvEntity
entity id activity = (id, record { id = id; digest = none; generated_by = some activity })

abbrev activity : Text → List Text → List Text → Text × ProvActivity
activity id used generated =
    (id, record { id = id; label = []; used = used; generated = generated; timestamp_ms = 0 })

-- "b" made "y" from "x", "a" made "x" from "y".
abbrev cycle : ProvGraph
cycle = record {
  activities =
      activity (codes "a") (codes "y" ∷ []) (codes "x" ∷ [])
      ∷ activity (codes "b") (codes "x" ∷ []) (codes "y" ∷ [])
      ∷ [];
  entities = entity (codes "x") (codes "a") ∷ entity (codes "y") (codes "b") ∷ [];
  agents = [];
}

ancestors_correct_example :
    (result : List Text) × (ancestors cycle (codes "y") ≡ some result)
    × Distinct result
    × ((a : Text) → In a result ↔ IsAncestor cycle (codes "y") a)
ancestors_correct_example = ancestors_correct cycle (codes "y")

search_terminates_example :
    (t : Search) × (loop cycle 10 (start cycle (codes "y")) ≡ some t)
    × (t.stack ≡ [])
    × (ancestors cycle (codes "y") ≡ some t.ancestors)
unfolding uses
search_terminates_example = search_terminates cycle (codes "y") 10 (omega arith)
