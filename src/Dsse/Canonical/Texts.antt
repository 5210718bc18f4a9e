-- ===== src/Dsse/Canonical/Texts.antt =====
-- crates/aep-core/src/dsse.rs: the canonical JSON of arrays, objects and scalars, in parts.
use wasmagent_proxy.Base.{◌≡◌, refl, ap, List, [], ◌∷◌, ◌++◌, append_assoc, map, Text, codes}
use wasmagent_proxy.Json.{
  Value, null, boolean, number, string, array, object, Items, nil, cons, end, field, Map, Crates,
}
use wasmagent_proxy.Json.Order.{IsWellFormed}
use wasmagent_proxy.Json.Members.{Entry, entries}
use wasmagent_proxy.Dsse.Canonical.{
  Pair, texts, join, canonical_json_value, canonical_items, canonical_pairs,
}
use wasmagent_proxy.Dsse.Canonical.Entries.{sort_entries, sort_pairs-map}

-- A value that `serde_json::to_string` prints for the canonical form.
abbrev pub IsScalar : Value → Type 0
IsScalar (array xs) = ⊥
IsScalar (object m) = ⊥
IsScalar _ = Unit

abbrev pub listed : Items → List Value
listed nil = []
listed (cons v xs) = v ∷ listed xs

pub listed-injective : (xs ys : Items) → listed xs ≡ listed ys → xs ≡ ys
listed-injective nil nil e = refl
listed-injective nil (cons v ys) e = cc
listed-injective (cons u xs) nil e = cc
listed-injective (cons u xs) (cons v ys) e =
    let rest = listed-injective xs ys (cc e) in cc (e, rest)

abbrev pub IsKept : Entry → Type 0
IsKept e = IsWellFormed e.1

module _ (x : Crates) where
  abbrev pub can : Value → Text
  can = canonical_json_value x

  abbrev pub pair_text : Entry → Text
  pair_text e = x.to_string (string e.0) ++ (codes ":" ++ can e.1)

  abbrev pub render : Entry → Pair
  render e = (e.0, pair_text e)

  canonical_items-map : (xs : Items) → canonical_items x xs ≡ map can (listed xs)
  unfolding canonical_json_value
  canonical_items-map nil = refl
  canonical_items-map (cons v xs) = ap (λ ts. can v ∷ ts) (canonical_items-map xs)

  canonical_pairs-map : (m : Map) → canonical_pairs x m ≡ map render (entries m)
  unfolding canonical_json_value
  canonical_pairs-map end = refl
  canonical_pairs-map (field k v m) = ap (λ ps. render (k, v) ∷ ps) (canonical_pairs-map m)

  texts-map : (es : List Entry) → texts (map render es) ≡ map pair_text es
  texts-map [] = refl
  texts-map (e ∷ es) = ap (λ ts. pair_text e ∷ ts) (texts-map es)

  abbrev pub sorted : Map → List Entry
  sorted m = sort_entries (entries m)

  pub object_text :
      (m : Map) (s : Text)
      → can (object m) ++ s ≡ b'{' ∷ (join (map pair_text (sorted m)) ++ (b'}' ∷ s))
  unfolding canonical_json_value
  object_text m s =
      rw
        (canonical_pairs-map m, sort_pairs-map render (λ e. refl) (entries m), texts-map (sorted m))
        (ap (λ r. b'{' ∷ r) (append_assoc (join (map pair_text (sorted m))) (codes "}") s))

  pub array_text :
      (xs : Items) (s : Text)
      → can (array xs) ++ s ≡ b'[' ∷ (join (map can (listed xs)) ++ (b']' ∷ s))
  unfolding canonical_json_value
  array_text xs s =
      rw (canonical_items-map xs)
        (ap (λ r. b'[' ∷ r) (append_assoc (join (map can (listed xs))) (codes "]") s))

  pub scalar_text : (v : Value) → IsScalar v → can v ≡ x.to_string v
  unfolding canonical_json_value
  scalar_text null h = refl
  scalar_text (boolean b) h = refl
  scalar_text (number n) h = refl
  scalar_text (string s) h = refl
  scalar_text (array xs) h = absurd h
  scalar_text (object m) h = absurd h
