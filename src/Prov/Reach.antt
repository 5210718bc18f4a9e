-- ===== src/Prov/Reach.antt =====
-- crates/aep-core/src/prov.rs: which activities stand behind an entity, as a relation.
use wasmagent_proxy.Base.{◌≡◌, some, Text, In}
use wasmagent_proxy.Prov.{ProvGraph, ProvActivity, lookup, generator}

-- The entity is recorded as generated by the activity.
abbrev pub Generated : ProvGraph → Text → Text → Type 0
Generated g e a = generator g e ≡ some a

-- The activity is recorded and used the entity.
abbrev pub Uses : ProvGraph → Text → Text → Type 0
Uses g a e =
    (activity : ProvActivity) × (lookup g.activities a ≡ some activity) × In e activity.used

-- The entities upstream of `e`: `e` itself, and what an activity used that generated one of them.
pub data Upstream (g : ProvGraph) (e : Text) : Text → Type 0 where
  here : Upstream g e e
  further : {x a y : Text} → Upstream g e x → Generated g x a → Uses g a y → Upstream g e y

-- The activity generated an entity upstream of `e`.
pub record IsAncestor (g : ProvGraph) (e a : Text) : Type 0 where
  pub entity : Text
  pub upstream : Upstream g e entity
  pub generated : Generated g entity a
