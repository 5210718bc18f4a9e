-- ===== src/Json.antt =====
-- serde_json's `Value` and `Map`, which the crates' records and canonical form are made of. The map
-- is a `BTreeMap`: its entries are kept in the order of the keys.
pub mod Equality
pub mod Lookup
pub mod Members
pub mod Order
pub mod Readable
pub mod Slots
pub mod Toy
use Prim.Native.Nat.{compare, Ordering}
use wasmagent_proxy.Base.{
  ℕ, Bool, Option, none, some, List, [], ◌∷◌, Text, Bytes, text_eq, Result, if◌then◌else◌,
}

-- `serde_json::Number`: an unsigned, a negative, or a floating-point number by its bits.
pub data Number : Type 0 where
  pos_int neg_int float : ℕ → Number

mutual
  pub data Value : Type 0 where
    null : Value
    boolean : Bool → Value
    number : Number → Value
    string : Text → Value
    array : Items → Value
    object : Fields → Value

  pub data Items : Type 0 where
    nil : Items
    cons : Value → Items → Items

  pub data Fields : Type 0 where
    end : Fields
    field : Text → Value → Fields → Fields

abbrev pub Map : Type 0
Map = Fields

-- The lexicographic order of slices, `<[T]>::cmp`. `str::cmp` compares bytes of UTF-8, which orders
-- strings as their scalar values do.
unfoldable pub compare_units : List ℕ → List ℕ → Ordering
compare_units [] [] = Ordering.eq
compare_units [] (y ∷ ys) = Ordering.lt
compare_units (x ∷ xs) [] = Ordering.gt
compare_units (x ∷ xs) (y ∷ ys) = elim (compare x y) [
  | Ordering.eq ↦ compare_units xs ys
  | Ordering.lt ↦ Ordering.lt
  | Ordering.gt ↦ Ordering.gt
]

-- `Map::insert`: the value of a key that is there is replaced.
unfoldable pub insert : Text → Value → Map → Map
unfolding compare_units
insert k v end = field k v end
insert k v (field j w m) = elim (compare_units k j) [
  | Ordering.lt ↦ field k v (field j w m)
  | Ordering.eq ↦ field k v m
  | Ordering.gt ↦ field j w (insert k v m)
]

unfoldable pub insert_all : Map → Map → Map
unfolding insert
insert_all end m = m
insert_all (field k v new) m = insert_all new (insert k v m)

-- `Map::get`
unfoldable pub get : Map → Text → Option Value
unfolding text_eq
get end k = none
get (field j v m) k = if text_eq j k then some v else get m k

-- `value[key]`: `Null` where there is none.
abbrev pub or_null : Option Value → Value
or_null none = null
or_null (some v) = v

unfoldable pub index : Value → Text → Value
unfolding get
index (object m) k = or_null (get m k)
index _ k = null

abbrev pub as_str : Value → Option Text
as_str (string s) = some s
as_str _ = none

abbrev pub as_array : Value → Option Items
as_array (array xs) = some xs
as_array _ = none

abbrev pub as_object : Value → Option Map
as_object (object m) = some m
as_object _ = none

-- The crates' functions that the program calls. A key of Ed25519 is its bytes.
pub record Crates : Type 0 where
  -- `serde_json::to_string` of a value that is no array and no object, and `from_slice`
  pub to_string : Value → Text
  pub from_slice : Bytes → Result Value
  -- `Sha256`
  pub sha256 : Bytes → Bytes
  -- `hex::encode`, `hex::decode`
  pub hex_encode : Bytes → Text
  pub hex_decode : Text → Result Bytes
  -- `base64::engine::general_purpose::STANDARD`
  pub base64_encode : Bytes → Text
  pub base64_decode : Text → Result Bytes
  -- `ed25519_dalek`
  pub sign : Bytes → Bytes → Bytes
  pub verify : Bytes → Bytes → Bytes → Result (Unit {0})
