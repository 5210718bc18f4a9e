-- ===== src/Json/Equality.antt =====
-- `PartialEq` of serde_json's values, as a Boolean test.
use wasmagent_proxy.Base.{◌≡◌, refl, Bool, true, false, ◌&&◌, ◌==◌, text_eq, text_eq_refl, arith}
use wasmagent_proxy.Json.{
  Value, Number, null, boolean, number, pos_int, neg_int, float, string, array, object, Items, nil,
  cons, Map, end, field,
}

abbrev number_eq : Number → Number → Bool
number_eq (pos_int m) (pos_int n) = m == n
number_eq (neg_int m) (neg_int n) = m == n
number_eq (float m) (float n) = m == n
number_eq _ _ = false

abbrev boolean_eq : Bool → Bool → Bool
boolean_eq true true = true
boolean_eq false false = true
boolean_eq _ _ = false

unfoldable mutual
  pub value_eq : Value → Value → Bool
  value_eq null null = true
  value_eq (boolean a) (boolean b) = boolean_eq a b
  value_eq (number m) (number n) = number_eq m n
  value_eq (string s) (string t) = text_eq s t
  value_eq (array xs) (array ys) = items_eq xs ys
  value_eq (object m) (object n) = fields_eq m n
  value_eq _ _ = false

  items_eq : Items → Items → Bool
  items_eq nil nil = true
  items_eq (cons v xs) (cons w ys) = value_eq v w && items_eq xs ys
  items_eq _ _ = false

  fields_eq : Map → Map → Bool
  fields_eq end end = true
  fields_eq (field j v m) (field k w n) = text_eq j k && value_eq v w && fields_eq m n
  fields_eq _ _ = false

number_eq_refl : (n : Number) → number_eq n n ≡ true
number_eq_refl (pos_int n) = ground arith
number_eq_refl (neg_int n) = ground arith
number_eq_refl (float n) = ground arith

mutual
  unfolding value_eq

  pub value_eq_refl : (v : Value) → value_eq v v ≡ true
  value_eq_refl null = refl
  value_eq_refl (boolean true) = refl
  value_eq_refl (boolean false) = refl
  value_eq_refl (number n) = number_eq_refl n
  value_eq_refl (string s) = text_eq_refl s
  value_eq_refl (array xs) = items_eq_refl xs
  value_eq_refl (object m) = fields_eq_refl m

  items_eq_refl : (xs : Items) → items_eq xs xs ≡ true
  items_eq_refl nil = refl
  items_eq_refl (cons v xs) = rw (value_eq_refl v, items_eq_refl xs) refl

  fields_eq_refl : (m : Map) → fields_eq m m ≡ true
  fields_eq_refl end = refl
  fields_eq_refl (field k v m) = rw (text_eq_refl k, value_eq_refl v, fields_eq_refl m) refl
