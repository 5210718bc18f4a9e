-- ===== src/Json/Order.antt =====
-- The order of keys that Json.antt's maps keep, and what insertion does to it.
use Prim.Native.Nat.{Ordering}
use wasmagent_proxy.Base.{ℕ, ◌≡◌, ◌⊎◌, inl, inr, refl, sym, List, [], ◌∷◌, Text, arith, subst}
use wasmagent_proxy.Json.{
  Value, null, boolean, number, string, array, object, Items, nil, cons, end, field, Map,
  compare_units, insert, insert_all,
}

pub compare_units-flip :
    (x y : List ℕ) → compare_units x y ≡ Ordering.gt → compare_units y x ≡ Ordering.lt
unfolding compare_units
compare_units-flip [] [] h = ground arith
compare_units-flip [] (y ∷ ys) h = ground arith
compare_units-flip (x ∷ xs) [] h = ground arith
compare_units-flip (x ∷ xs) (y ∷ ys) h = ground (arith, compare_units-flip xs ys)

pub compare_units-eq : (x y : List ℕ) → compare_units x y ≡ Ordering.eq → x ≡ y
unfolding compare_units
compare_units-eq [] [] h = refl
compare_units-eq [] (y ∷ ys) h = ground arith
compare_units-eq (x ∷ xs) [] h = ground arith
compare_units-eq (x ∷ xs) (y ∷ ys) h = ground (arith, compare_units-eq xs ys)

-- The key comes before those of the map.
abbrev pub Before : Text → Map → Type 0
Before k end = Unit
Before k (field j v m) = compare_units k j ≡ Ordering.lt

-- Each key once, and in order.
abbrev pub Ordered : Map → Type 0
Ordered end = Unit
Ordered (field k v m) = Before k m × Ordered m

-- A value without `Null`, at any depth, whose objects have each key once and in order.
unfoldable mutual
  pub IsWellFormed : Value → Type 0
  IsWellFormed null = ⊥
  IsWellFormed (boolean b) = Unit
  IsWellFormed (number n) = Unit
  IsWellFormed (string s) = Unit
  IsWellFormed (array xs) = AreItems xs
  IsWellFormed (object m) = AreFields m

  pub AreItems : Items → Type 0
  AreItems nil = Unit
  AreItems (cons v xs) = IsWellFormed v × AreItems xs

  pub AreFields : Map → Type 0
  AreFields end = Unit
  AreFields (field k v m) = Before k m × IsWellFormed v × AreFields m

pub AreFields-Ordered : (m : Map) → AreFields m → Ordered m
unfolding AreFields
AreFields-Ordered end f = tt
AreFields-Ordered (field k v m) (b, w, f) = (b, AreFields-Ordered m f)

pub Ordering-cases : (o : Ordering) → (o ≡ Ordering.lt) ⊎ (o ≡ Ordering.eq) ⊎ (o ≡ Ordering.gt)
Ordering-cases Ordering.lt = inl refl
Ordering-cases Ordering.eq = inr (inl refl)
Ordering-cases Ordering.gt = inr (inr refl)

insert-Before :
    (j k : Text) (v : Value) (m : Map)
    → compare_units j k ≡ Ordering.lt
    → Before j m
    → Before j (insert k v m)
unfolding insert
insert-Before j k v end h b = h
insert-Before j k v (field i w m) h b = elim (Ordering-cases (compare_units k i)) [
  | inl before ↦ rw (before, insert) h
  | inr (inl same) ↦ rw (same, insert) h
  | inr (inr after) ↦ rw (after, insert) b
]

pub insert-Ordered : (k : Text) (v : Value) (m : Map) → Ordered m → Ordered (insert k v m)
unfolding insert
insert-Ordered k v end o = (tt, tt)
insert-Ordered k v (field j u m) (b, o) = elim (Ordering-cases (compare_units k j)) [
  | inl before ↦ rw (before, insert) (before, (b, o))
  | inr (inl same) ↦
      rw (same, insert) (subst (λ t. Before t m) (sym (compare_units-eq k j same)) b, o)
  | inr (inr after) ↦
      rw (after, insert)
        (insert-Before j k v m (compare_units-flip k j after) b, insert-Ordered k v m o)
]

pub insert_all-Ordered : (new m : Map) → Ordered m → Ordered (insert_all new m)
unfolding insert_all
insert_all-Ordered end m o = o
insert_all-Ordered (field k v new) m o =
    insert_all-Ordered new (insert k v m) (insert-Ordered k v m o)

pub insert-AreFields :
    (k : Text) (v : Value) (m : Map) → IsWellFormed v → AreFields m → AreFields (insert k v m)
unfolding AreFields insert
insert-AreFields k v end w f = (tt, w, f)
insert-AreFields k v (field j u m) w (b, x, f) = elim (Ordering-cases (compare_units k j)) [
  | inl before ↦ rw (before, insert) (before, w, (b, x, f))
  | inr (inl same) ↦
      rw (same, insert) (subst (λ t. Before t m) (sym (compare_units-eq k j same)) b, w, f)
  | inr (inr after) ↦
      rw (after, insert)
        (insert-Before j k v m (compare_units-flip k j after) b, x, insert-AreFields k v m w f)
]

pub insert_all-AreFields :
    (new m : Map) → AreFields new → AreFields m → AreFields (insert_all new m)
unfolding AreFields insert_all
insert_all-AreFields end m n f = f
insert_all-AreFields (field k v new) m (b, w, n) f =
    insert_all-AreFields new (insert k v m) n (insert-AreFields k v m w f)
