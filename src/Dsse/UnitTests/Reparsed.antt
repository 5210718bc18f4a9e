-- ===== src/Dsse/UnitTests/Reparsed.antt =====
-- crates/aep-core/src/dsse.rs: its unit tests that parse canonical JSON again, for whatever crates,
-- and that they pass if serde_json's parser reads each JSON text as its value.
use wasmagent_proxy.Base.{
  ◌≡◌, refl, Bool, true, not, ◌&&◌, ◌||◌, inl, inr, Bool-cases, none, Option, [], ◌∷◌, ◌++◌, Text,
  codes, as_bytes, is_prefix, contains, text_eq, ok, arith,
}
use wasmagent_proxy.Base.Asserts.{ok_and, is_none}
use wasmagent_proxy.Json.{Value, string, object, field, end, insert, get, compare_units, Crates}
use wasmagent_proxy.Json.Equality.{value_eq, value_eq_refl}
use wasmagent_proxy.Json.Order.{IsWellFormed}
use wasmagent_proxy.Json.Readable.{is_readable}
use wasmagent_proxy.Dsse.Canonical.{
  canonical_json, canonical_json_value, sort_pairs, join, compare_utf16,
}
use wasmagent_proxy.Dsse.Canonical.Renders.{canonical_json-Renders}
use wasmagent_proxy.Dsse.Canonical.Tests.{num}
use wasmagent_proxy.Dsse.Sign.Statement.{Parses}

-- `Value::get`
abbrev value_get : Value → Text → Option Value
value_get (object m) k = get m k
value_get _ k = none

abbrev utf16_surrogate_pair_key_encodes_correctly : Crates → Bool
utf16_surrogate_pair_key_encodes_correctly x =
    let map = insert (0x10000 ∷ []) (num 1) end in
    let map = insert (codes "z") (num 2) map in
    let out = canonical_json x (object map) in
    is_prefix (codes "{\"z\":2,") out
    && ok_and (x.from_slice (as_bytes out))
        (λ reparsed. not (is_none (value_get reparsed (0x10000 ∷ []))))

abbrev string_escaping_is_preserved : Crates → Bool
string_escaping_is_preserved x =
    let v = object (insert (codes "key") (string (codes "value\nwith\ttabs\r\n")) end) in
    let out = canonical_json x v in
    ok_and (x.from_slice (as_bytes out)) (λ reparsed. value_eq v reparsed)
    && (contains out (codes "\\n") || contains out (codes "\\r"))

abbrev unicode_escape_sequences_decode_uniquely : Crates → Bool
unicode_escape_sequences_decode_uniquely x =
    let v = object (insert (codes "key") (string (0xe9 ∷ [])) end) in
    let out = canonical_json x v in
    ok_and (x.from_slice (as_bytes out)) (λ reparsed. value_eq v reparsed)

from_slice-canonical_json :
    (x : Crates) (v : Value)
    → Parses x
    → IsWellFormed v
    → is_readable 127 v ≡ true
    → x.from_slice (as_bytes (canonical_json x v)) ≡ ok v
from_slice-canonical_json x v parses w limits =
    parses v (canonical_json x v) w limits (canonical_json-Renders x v)

unicode_test_passes : (x : Crates) → Parses x → unicode_escape_sequences_decode_uniquely x ≡ true
unfolding insert is_readable IsWellFormed
unicode_test_passes x parses =
    let v = object (field (codes "key") (string (0xe9 ∷ [])) end) in
    rw (from_slice-canonical_json x v parses (tt, tt, tt) refl) (value_eq_refl v)

is_prefix-append : (p s t : Text) → is_prefix p s ≡ true → is_prefix p (s ++ t) ≡ true
unfolding is_prefix
is_prefix-append [] s t h = refl
is_prefix-append (c ∷ p) [] t h = cc
is_prefix-append (c ∷ p) (d ∷ s) t h = ground (arith, is_prefix-append p s t)

contains-append_right : (s t p : Text) → contains t p ≡ true → contains (s ++ t) p ≡ true
unfolding contains
contains-append_right [] t p h = h
contains-append_right (c ∷ s) t p h = ground (arith, contains-append_right s t p h)

contains_nothing : (t : Text) → contains t [] ≡ true
unfolding contains
contains_nothing [] = refl
contains_nothing (c ∷ t) = refl

contains-append_left : (s t p : Text) → contains s p ≡ true → contains (s ++ t) p ≡ true
unfolding contains
contains-append_left [] t [] h = contains_nothing t
contains-append_left [] t (c ∷ p) h = cc
contains-append_left (d ∷ s) t p h = elim (Bool-cases (is_prefix p (d ∷ s))) [
  | inl e ↦ rw (is_prefix-append p (d ∷ s) t e) refl
  | inr e ↦ ground (arith, contains-append_left s t p)
]

-- serde_json prints "z" and 2 as they are.
utf16_test_passes :
    (x : Crates)
    → Parses x
    → x.to_string (string (codes "z")) ≡ codes "\"z\""
    → x.to_string (num 2) ≡ codes "2"
    → utf16_surrogate_pair_key_encodes_correctly x ≡ true
unfolding insert is_readable IsWellFormed canonical_json_value sort_pairs join is_prefix text_eq get
    compare_units compare_utf16
utf16_test_passes x parses z two =
    let v = object (field (codes "z") (num 2) (field (0x10000 ∷ []) (num 1) end)) in
    rw (from_slice-canonical_json x v parses (refl, tt, (tt, tt, tt)) refl, z, two) refl

-- serde_json escapes the end of a line.
escaping_test_passes :
    (x : Crates)
    → Parses x
    → contains (x.to_string (string (codes "value\nwith\ttabs\r\n"))) (codes "\\n") ≡ true
    → string_escaping_is_preserved x ≡ true
unfolding insert is_readable IsWellFormed canonical_json_value sort_pairs join
escaping_test_passes x parses escaped =
    let text = x.to_string (string (codes "value\nwith\ttabs\r\n")) in
    let v = object (field (codes "key") (string (codes "value\nwith\ttabs\r\n")) end) in
    let there : contains (canonical_json x v) (codes "\\n") ≡ true =
      contains-append_right (codes "{") _ _ (
        contains-append_left _ (codes "}") _ (
          contains-append_right (x.to_string (string (codes "key"))) _ _
            (contains-append_right (codes ":") text _ escaped))) in
    rw (from_slice-canonical_json x v parses (tt, tt, tt) refl, value_eq_refl v, there) refl
