-- ===== src/Dsse/Canonical.antt =====
-- crates/aep-core/src/dsse.rs: canonical JSON (RFC 8785).
pub mod Sorted
pub mod Joined
pub mod Texts
pub mod Scalars
pub mod Injective
pub mod Entries
pub mod Renders
pub mod Utf16
pub mod Ascending
pub mod Tests
use Prim.Native.Nat.{Ordering}
use wasmagent_proxy.Base.{
  ℕ, ◌+◌, ◌-◌, ◌/◌, ◌%◌, List, [], ◌∷◌, ◌++◌, Text, codes, ltb, if◌then◌else◌,
}
use wasmagent_proxy.Json.{
  Value, null, boolean, number, string, array, object, Items, nil, cons, Fields, end, field,
  compare_units, Crates,
}

-- `str::encode_utf16`
unfoldable pub encode_utf16 : Text → List ℕ
encode_utf16 [] = []
encode_utf16 (c ∷ s) =
    (if ltb c 0x10000
      then c ∷ []
      else (0xd800 + (c - 0x10000) / 0x400) ∷ (0xdc00 + (c - 0x10000) % 0x400) ∷ [])
    ++ encode_utf16 s

unfoldable pub compare_utf16 : Text → Text → Ordering
unfolding encode_utf16 compare_units
compare_utf16 a b = compare_units (encode_utf16 a) (encode_utf16 b)

-- A key and the text of its pair.
abbrev pub Pair : Type 0
Pair = Text × Text

-- `keys.sort_by(compare_utf16)`, which is stable, with each key's pair carried along.
unfoldable pub insert_pair : Pair → List Pair → List Pair
unfolding compare_utf16
insert_pair p [] = p ∷ []
insert_pair p (q ∷ qs) = elim (compare_utf16 p.0 q.0) [
  | Ordering.gt ↦ q ∷ insert_pair p qs
  | Ordering.eq ↦ p ∷ q ∷ qs
  | Ordering.lt ↦ p ∷ q ∷ qs
]

unfoldable pub sort_pairs : List Pair → List Pair
unfolding insert_pair
sort_pairs [] = []
sort_pairs (p ∷ ps) = insert_pair p (sort_pairs ps)

-- `join(",")`
unfoldable pub join : List Text → Text
join [] = []
join (t ∷ []) = t
join (t ∷ u ∷ ts) = t ++ (codes "," ++ join (u ∷ ts))

abbrev pub texts : List Pair → List Text
texts [] = []
texts (p ∷ ps) = p.1 ∷ texts ps

module _ (x : Crates) where
  unfoldable mutual
    pub canonical_json_value : Value → Text
    canonical_json_value (object map) =
        codes "{" ++ (join (texts (sort_pairs (canonical_pairs map))) ++ codes "}")
    canonical_json_value (array arr) = codes "[" ++ (join (canonical_items arr) ++ codes "]")
    canonical_json_value (string s) = x.to_string (string s)
    canonical_json_value (number n) = x.to_string (number n)
    canonical_json_value (boolean b) = x.to_string (boolean b)
    canonical_json_value null = x.to_string null

    pub canonical_items : Items → List Text
    canonical_items nil = []
    canonical_items (cons v arr) = canonical_json_value v ∷ canonical_items arr

    -- The formatted pairs `key:value` of a map.
    pub canonical_pairs : Fields → List Pair
    canonical_pairs end = []
    canonical_pairs (field k v map) =
        (k, x.to_string (string k) ++ (codes ":" ++ canonical_json_value v)) ∷ canonical_pairs map

  abbrev pub canonical_json : Value → Text
  canonical_json = canonical_json_value
