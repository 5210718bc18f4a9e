-- ===== src/Dsse/Canonical/Renders.antt =====
-- crates/aep-core/src/dsse.rs: the canonical form is JSON: the grammar of the texts of a value, and
-- that `canonical_json` writes one.
use wasmagent_proxy.Base.{
  ◌≡◌, ◌↔◌, sym, subst, ◌∙◌, List, [], ◌∷◌, ◌++◌, Text, codes, In, All, length, map, append-nil,
}
use wasmagent_proxy.Json.{
  Value, null, boolean, number, string, array, object, Items, nil, cons, end, field, Map, Crates,
}
use wasmagent_proxy.Json.Members.{Entry, entries}
use wasmagent_proxy.Dsse.Canonical.{join, canonical_json_value, canonical_items}
use wasmagent_proxy.Dsse.Canonical.Entries.{In-sort_entries, All-sort_entries, length-sort_entries}
use wasmagent_proxy.Dsse.Canonical.Texts.{IsScalar, listed, can, pair_text, sorted, object_text}

-- The entries of the map, each once, in any order.
pub record Listing (es : List Entry) (m : Map) : Type 0 where
  pub same : (e : Entry) → In e es ↔ In e (entries m)
  pub size : length es ≡ length (entries m)

module _ (x : Crates) where
  -- The JSON texts of a value without whitespace: a scalar is what serde_json prints, and an object
  -- has its members in any order.
  mutual
    pub data Renders : Value → Text → Type 0 where
      scalar : (v : Value) → IsScalar v → Renders v (x.to_string v)
      array_of :
          (xs : Items) (ts : List Text)
          → EachRenders (listed xs) ts
          → Renders (array xs) (codes "[" ++ (join ts ++ codes "]"))
      object_of :
          (m : Map) (es : List Entry) (ts : List Text)
          → Listing es m
          → MembersRender es ts
          → Renders (object m) (codes "{" ++ (join ts ++ codes "}"))

    pub data EachRenders : List Value → List Text → Type 0 where
      no_items : EachRenders [] []
      item :
          (v : Value) (t : Text) (vs : List Value) (ts : List Text)
          → Renders v t
          → EachRenders vs ts
          → EachRenders (v ∷ vs) (t ∷ ts)

    pub data MembersRender : List Entry → List Text → Type 0 where
      no_members : MembersRender [] []
      member :
          (k : Text) (v : Value) (t : Text) (es : List Entry) (ts : List Text)
          → Renders v t
          → MembersRender es ts
          → MembersRender ((k, v) ∷ es) ((x.to_string (string k) ++ (codes ":" ++ t)) ∷ ts)

  abbrev IsRendered : Entry → Type 0
  IsRendered e = Renders e.1 (can x e.1)

  members-Render : (es : List Entry) → All IsRendered es → MembersRender es (map (pair_text x) es)
  members-Render [] h = no_members
  members-Render ((k, v) ∷ es) (h, hs) = member k v (can x v) es _ h (members-Render es hs)

  pub sorted-Listing : (m : Map) → Listing (sorted x m) m
  sorted-Listing m = record {
    same = λ e. In-sort_entries e (entries m);
    size = length-sort_entries (entries m);
  }

  mutual
    unfolding canonical_json_value

    value-Renders : (v : Value) → Renders v (can x v)
    value-Renders null = scalar null tt
    value-Renders (boolean b) = scalar (boolean b) tt
    value-Renders (number n) = scalar (number n) tt
    value-Renders (string s) = scalar (string s) tt
    value-Renders (array xs) = array_of xs (canonical_items x xs) (items-Render xs)
    value-Renders (object m) =
        subst (Renders (object m)) (sym (object_text x m []) ∙ append-nil (can x (object m))) (
          object_of m (sorted x m) _ (sorted-Listing m) (
            members-Render (sorted x m)
              (All-sort_entries IsRendered (entries m) (fields-Render m))))

    items-Render : (xs : Items) → EachRenders (listed xs) (canonical_items x xs)
    items-Render nil = no_items
    items-Render (cons v xs) = item v _ _ _ (value-Renders v) (items-Render xs)

    fields-Render : (m : Map) → All IsRendered (entries m)
    fields-Render end = tt
    fields-Render (field k v m) = (value-Renders v, fields-Render m)

  -- The canonical JSON of a value is a JSON text of that value without whitespace: each scalar is as
  -- serde_json prints it, each array has its items in their order, and each object has each of its
  -- members once.
  pub canonical_json-Renders : (v : Value) → Renders v (can x v)
  canonical_json-Renders v = value-Renders v
