-- ===== src/Dsse/Canonical/Tests.antt =====
-- crates/aep-core/src/dsse.rs: an object whose keys UTF-16 orders differently, and crates with a
-- printer for scalars whose text needs no escape.
use wasmagent_proxy.Base.{
  ℕ, true, false, List, map, inl, inr, refl, ◌≡◌, Text, codes, decimal, ◌++◌, ◌∷◌, [], arith,
}
use wasmagent_proxy.Json.{
  Value, Map, compare_units, null, boolean, number, pos_int, string, object, field, end, Crates,
}
use wasmagent_proxy.Json.Toy.{toy}
use wasmagent_proxy.Dsse.Canonical.{join, canonical_json}
use wasmagent_proxy.Dsse.Canonical.Renders.{Listing, Renders, canonical_json-Renders}
use wasmagent_proxy.Dsse.Canonical.Ascending.{Ascending, canonical_json-Ascending}
use wasmagent_proxy.Json.Members.{Entry}

abbrev pub scalar_text : Value → Text
scalar_text (string s) = codes "\"" ++ (s ++ codes "\"")
scalar_text (number (pos_int n)) = decimal n
scalar_text (boolean true) = codes "true"
scalar_text (boolean false) = codes "false"
scalar_text null = codes "null"
scalar_text _ = []

abbrev pub plain : Crates
plain = record (toy [] null) { to_string = scalar_text }

abbrev pub num : ℕ → Value
num n = number (pos_int n)

-- Keys in the order of their scalar values, which a map keeps; UTF-16 has the last before the second.
abbrev emoji : Map
emoji = field (codes "a") (num 1) (field (0xff41 ∷ []) (num 2) (field (0x1f600 ∷ []) (num 3) end))

canonical_json-Ascending_example :
    (es : List Entry) × Listing es emoji
    × Ascending es
    × (canonical_json plain (object emoji)
        ≡ codes "{"
          ++ (join (
                map
                  (λ e. plain.to_string (string e.0) ++ (codes ":" ++ canonical_json plain e.1))
                  es)
              ++ codes "}"))
unfolding compare_units
canonical_json-Ascending_example =
    canonical_json-Ascending plain emoji (refl, (refl, (tt, tt)))
      (
        (inl (omega arith), tt),
        ((inr (omega arith, omega arith), tt), ((inr (omega arith, omega arith), tt), tt)),
      )

canonical_json-Renders_example : Renders plain (object emoji) (canonical_json plain (object emoji))
canonical_json-Renders_example = canonical_json-Renders plain (object emoji)
