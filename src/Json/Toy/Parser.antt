-- ===== src/Json/Toy/Parser.antt =====
-- A parser for what Json/Toy.antt prints, with the members of an object in any order.
pub mod Scanned
pub mod Steps
pub mod ReadsBack
pub mod Law
pub mod Documented
use wasmagent_proxy.Base.{
  ℕ, zero, suc, ◌+◌, ◌*◌, Bool, true, false, Option, none, some, List, [], ◌∷◌, Text, Bytes, codes,
  length, ◌==◌, Result, ok, err,
}
use wasmagent_proxy.Json.{
  Value, null, string, array, object, Items, nil, cons, Map, end, insert, Crates,
}
use wasmagent_proxy.Json.Members.{Entry}
use wasmagent_proxy.Json.Toy.{toy}
use wasmagent_proxy.Json.Toy.Printing.{read_numbers}

-- Numbers in unary up to the end of all, and what follows.
unfoldable pub scan : ℕ → Text → List ℕ × Text
scan n [] = ([], [])
scan n (c ∷ t) = elim (c == b'i') [
  | true ↦ scan (suc n) t
  | false ↦ elim (c == b'n') [
    | true ↦ let (ns, rest) = scan 0 t in (n ∷ ns, rest)
    | false ↦ ([], t)
  ]
]

abbrev pub with_rest : Option Value → Text → Option (Value × Text)
with_rest none t = none
with_rest (some v) t = some (v, t)

unfoldable pub scalar : Text → Option (Value × Text)
unfolding scan read_numbers
scalar t = let (ns, rest) = scan 0 t in with_rest (read_numbers ns) rest

abbrev pub key_of : Option (Value × Text) → Option (Text × Text)
key_of (some (string k, t)) = some (k, t)
key_of _ = none

-- After the given character.
abbrev pub after : ℕ → Text → Option Text
after c [] = none
after c (d ∷ t) = elim (d == c) [ true ↦ some t | false ↦ none ]

infixl 5 ◌>>=◌
abbrev pub ◌>>=◌ {ℓ κ} : {A : Type ℓ} {B : Type κ} → Option A → (A → Option B) → Option B
none >>= next = none
some a >>= next = next a

abbrev pub separator : Bool → Text → Option Text
separator true t = some t
separator false t = after b',' t

abbrev pub starts : ℕ → Text → Bool
starts c [] = false
starts c (d ∷ t) = d == c

unfoldable pub build : List Entry → Map
unfolding insert
build [] = end
build ((k, v) ∷ es) = insert k v (build es)

abbrev pub array_read : Items × Text → Option (Value × Text)
array_read (xs, t) = some (array xs, t)

abbrev pub object_read : List Entry × Text → Option (Value × Text)
object_read (es, t) = some (object (build es), t)

unfoldable mutual
  pub parse_value : ℕ → Text → Option (Value × Text)
  parse_value zero t = none
  parse_value (suc f) [] = none
  parse_value (suc f) (c ∷ t) = elim (c == b'[') [
    | true ↦ parse_items f true t >>= array_read
    | false ↦ elim (c == b'{') [
      | true ↦ parse_members f true t >>= object_read
      | false ↦ scalar (c ∷ t)
    ]
  ]

  pub parse_items : ℕ → Bool → Text → Option (Items × Text)
  parse_items zero first t = none
  parse_items (suc f) first t = elim (after b']' t) [
    | some rest ↦ some (nil, rest)
    | none ↦ separator first t >>= λ t.
        parse_value f t >>= λ (v, t). parse_items f false t >>= λ (xs, t). some (cons v xs, t)
  ]

  pub parse_members : ℕ → Bool → Text → Option (List Entry × Text)
  parse_members zero first t = none
  parse_members (suc f) first t = elim (after b'}' t) [
    | some rest ↦ some ([], rest)
    | none ↦ separator first t >>= λ t. key_of (scalar t) >>= λ (k, t). after b':' t >>= λ t.
        parse_value f t >>= λ (v, t). parse_members f false t >>= λ (es, t). some ((k, v) ∷ es, t)
  ]

abbrev pub finished : Option (Value × Text) → Result Value
finished (some (v, [])) = ok v
finished _ = err (codes "trailing characters")

unfoldable pub from_slice : Bytes → Result Value
unfolding parse_value scalar build
from_slice bytes = finished (parse_value (suc (2 * length bytes)) bytes)

-- The instance with this parser.
abbrev pub parsing : Crates
parsing = record (toy [] null) { from_slice = from_slice }
