-- ===== src/Json/Readable.antt =====
-- What serde_json reads back as it was written: nesting below the recursion limit of its
-- deserializer, which is 128, integers of 64 bits, and no floating-point numbers, which it reads
-- back exactly only with the feature float_roundtrip.
use wasmagent_proxy.Base.{ℕ, zero, suc, ◌^◌, ◌≡◌, refl, Bool, true, false, false≢true, ◌&&◌, ltb}
use wasmagent_proxy.Json.{
  Value, null, boolean, number, pos_int, neg_int, float, string, array, object, Items, nil, cons,
  Map, end, field,
}

unfoldable mutual
  pub is_readable : ℕ → Value → Bool
  is_readable levels null = true
  is_readable levels (boolean b) = true
  is_readable levels (number (pos_int n)) = ltb n (2 ^ 64)
  is_readable levels (number (neg_int n)) = ltb n (2 ^ 63)
  is_readable levels (number (float bits)) = false
  is_readable levels (string s) = true
  is_readable zero (array xs) = false
  is_readable (suc levels) (array xs) = items_readable levels xs
  is_readable zero (object m) = false
  is_readable (suc levels) (object m) = fields_readable levels m

  pub items_readable : ℕ → Items → Bool
  items_readable levels nil = true
  items_readable levels (cons v xs) = is_readable levels v && items_readable levels xs

  pub fields_readable : ℕ → Map → Bool
  fields_readable levels end = true
  fields_readable levels (field k v m) = is_readable levels v && fields_readable levels m

and_both : (a b : Bool) → (a && b) ≡ true → (a ≡ true) × (b ≡ true)
and_both true true h = (refl, refl)
and_both true false h = absurd (false≢true h)
and_both false b h = absurd (false≢true h)

-- More levels do no harm.
mutual
  unfolding is_readable

  pub is_readable_more :
      (levels : ℕ) (v : Value) → is_readable levels v ≡ true → is_readable (suc levels) v ≡ true
  is_readable_more levels null h = refl
  is_readable_more levels (boolean b) h = refl
  is_readable_more levels (number (pos_int n)) h = h
  is_readable_more levels (number (neg_int n)) h = h
  is_readable_more levels (number (float bits)) h = h
  is_readable_more levels (string s) h = refl
  is_readable_more zero (array xs) h = absurd (false≢true h)
  is_readable_more (suc levels) (array xs) h = items_readable_more levels xs h
  is_readable_more zero (object m) h = absurd (false≢true h)
  is_readable_more (suc levels) (object m) h = fields_readable_more levels m h

  items_readable_more :
      (levels : ℕ) (xs : Items)
      → items_readable levels xs ≡ true
      → items_readable (suc levels) xs ≡ true
  items_readable_more levels nil h = refl
  items_readable_more levels (cons v xs) h =
      let (a, b) = and_both _ _ h in
      rw (is_readable_more levels v a, items_readable_more levels xs b) refl

  fields_readable_more :
      (levels : ℕ) (m : Map)
      → fields_readable levels m ≡ true
      → fields_readable (suc levels) m ≡ true
  fields_readable_more levels end h = refl
  fields_readable_more levels (field k v m) h =
      let (a, b) = and_both _ _ h in
      rw (is_readable_more levels v a, fields_readable_more levels m b) refl
