-- ===== src/Prov.antt =====
-- crates/aep-core/src/prov.rs: the causal graph and the search for the activities behind an entity.
pub mod Reach
mod Members
mod Loop
pub mod Facts
mod Round
pub mod Correct
mod Tests
mod UnitTests
use wasmagent_proxy.Base.{
  ℕ, zero, suc, ◌+◌, Bool, true, false, ◌||◌, Option, none, some, List, [], ◌∷◌, ◌++◌, Text,
  text_eq, length, if◌then◌else◌,
}

pub record ProvActivity : Type 0 where
  pub id : Text
  pub label : Text
  pub used : List Text
  pub generated : List Text
  pub timestamp_ms : ℕ

pub record ProvEntity : Type 0 where
  pub id : Text
  pub digest : Option Text
  pub generated_by : Option Text

pub record ProvAgent : Type 0 where
  pub id : Text
  pub label : Text

-- A `HashMap` with string keys is an association list: the first entry of a key counts.
abbrev pub HashMap : Type 0 → Type 0
HashMap V = List (Text × V)

pub record ProvGraph : Type 0 where
  pub activities : HashMap ProvActivity
  pub entities : HashMap ProvEntity
  pub agents : HashMap ProvAgent

-- `HashMap::get`
pub lookup : {V : Type 0} → HashMap V → Text → Option V
lookup [] k = none
lookup ((j, v) ∷ m) k = if text_eq j k then some v else lookup m k

-- `HashSet::contains`, which `HashSet::insert` answers too.
pub mem : Text → List Text → Bool
mem x [] = false
mem x (y ∷ set) = text_eq y x || mem x set

-- The variables of `ProvGraph::ancestors`; the top of the stack comes first.
pub record Search : Type 0 where
  pub ancestors : List Text
  pub seen_activities : List Text
  pub seen_entities : List Text
  pub stack : List Text

-- The loop over `activity.used`.
pub mark_used : List Text → Search → Search
mark_used [] s = s
mark_used (used ∷ rest) s = mark_used rest (
    if mem used s.seen_entities
    then s
    else record s { seen_entities = used ∷ s.seen_entities; stack = used ∷ s.stack })

-- How often the activities of a map use an entity.
pub uses : HashMap ProvActivity → ℕ
uses [] = 0
uses ((k, activity) ∷ m) = length activity.used + uses m

module _ (g : ProvGraph) where
  pub expand : Text → Search → Search
  expand act_id s = elim (lookup g.activities act_id) [
    | none ↦ s
    | some activity ↦ mark_used activity.used s
  ]

  pub produce : Text → Search → Search
  produce act_id s =
      if mem act_id s.seen_activities
      then s
      else expand act_id (record s {
        seen_activities = act_id ∷ s.seen_activities;
        ancestors = s.ancestors ++ act_id ∷ [];
      })

  abbrev pub generator : Text → Option Text
  generator eid = elim (lookup g.entities eid) [ none ↦ none | some entity ↦ entity.generated_by ]

  -- The body of the `while` loop, after the pop.
  pub visit : Text → Search → Search
  visit eid s = elim (generator eid) [ none ↦ s | some act_id ↦ produce act_id s ]

  -- The `while` loop; `none` means that the fuel ran out.
  pub loop : ℕ → Search → Option Search
  loop zero s = elim s.stack [ [] ↦ some s | _ ∷ _ ↦ none ]
  loop (suc fuel) s = elim s.stack [
    | [] ↦ some s
    | eid ∷ rest ↦ loop fuel (visit eid (record s { stack = rest }))
  ]

  abbrev pub start : Text → Search
  start entity_id = record {
    ancestors = [];
    seen_activities = [];
    seen_entities = entity_id ∷ [];
    stack = entity_id ∷ [];
  }

  -- `ProvGraph::ancestors`, with a round for the entity and one for each use.
  pub ancestors : Text → Option (List Text)
  unfolding lookup mem mark_used expand produce visit loop uses
  ancestors entity_id = elim (loop (suc (uses g.activities)) (start entity_id)) [
    | none ↦ none
    | some s ↦ some s.ancestors
  ]
