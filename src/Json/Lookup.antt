-- ===== src/Json/Lookup.antt =====
-- What Json.antt's maps give for a key after an insertion or a removal, and that an ordered map is
-- determined by what it gives.
use Prim.Native.Nat.{Ordering}
use wasmagent_proxy.Base.{
  ℕ, ◌≡◌, ◌≢◌, inl, inr, refl, sym, ap, subst, ◌∙◌, Bool, true, false, Option, none, some,
  some-injective, Option-cases, All-In, ◌||◌, List, [], ◌∷◌, Text, text_eq, text_eq_iff,
  text_eq_refl, Bool-cases, In, if◌then◌else◌, arith,
}
use wasmagent_proxy.Json.{Value, end, field, Map, compare_units, insert, insert_all, get}
use wasmagent_proxy.Json.Order.{Before, Ordered, Ordering-cases, compare_units-eq}
use wasmagent_proxy.Json.Members.{
  Entry, entries, Before-trans, Before-All, compare_units_irrefl, members_agree,
}

compare_units_refl : (x : List ℕ) → compare_units x x ≡ Ordering.eq
unfolding compare_units
compare_units_refl [] = refl
compare_units_refl (x ∷ xs) = ground (arith, compare_units_refl xs)

-- A key that comes before or after another is not that key.
text_eq-after : (k j : Text) → compare_units k j ≢ Ordering.eq → text_eq k j ≡ false
text_eq-after k j h = elim (Bool-cases (text_eq k j)) [
  | inl same ↦ absurd (
      h (
        subst (λ t. compare_units k t ≡ Ordering.eq) ((text_eq_iff k j).0 same)
          (compare_units_refl k)))
  | inr other ↦ other
]

pub get-insert :
    (k i : Text) (v : Value) (m : Map)
    → get (insert k v m) i ≡ (if text_eq k i then some v else get m i)
unfolding get insert
get-insert k i v end = refl
get-insert k i v (field j w m) = elim (Ordering-cases (compare_units k j)) [
  | inl before ↦ rw (before, insert) refl
  | inr (inl same) ↦ let e = compare_units-eq k j same in rw (same, insert) (ground (arith, e))
  | inr (inr after) ↦
      let apart = text_eq-after k j (λ e. ground arith) in
      rw (after, insert)
        (ground
          (arith, apart, get-insert k i v m, text_eq_iff k i, text_eq_iff j i, text_eq_refl i))
]

pub In-get :
    (m : Map) (k : Text) (v : Value)
    → Ordered m
    → In {A = Entry} (k, v) (entries m)
    → get m k ≡ some v
unfolding get
In-get (field j w m) k v (b, o) (inl e) =
    let same : k ≡ j = ap (λ (t : Entry). t.0) e in
    let value : v ≡ w = ap (λ (t : Entry). t.1) e in
    rw ((text_eq_iff j k).1 (sym same)) (ap some (sym value))
In-get (field j w m) k v (b, o) (inr h) =
    let before = All-In _ (entries m) (k, v) (Before-All j m b o) h in
    rw (text_eq-after j k (λ e. ground arith)) (In-get m k v o h)
In-get end k v o h = absurd h

pub get-In : (m : Map) (k : Text) (v : Value) → get m k ≡ some v → In {A = Entry} (k, v) (entries m)
unfolding get
get-In end k v h = absurd (ground arith)
get-In (field j w m) k v h = elim (Bool-cases (text_eq j k)) [
  | inl same ↦
      let e = (text_eq_iff j k).0 same in
      let there : get (field j w m) k ≡ some w = rw same refl in
      inl (cc (e, some-injective _ _ (sym h ∙ there)))
  | inr other ↦
      let later : get (field j w m) k ≡ get m k = rw other refl in
      inr (get-In m k v (sym later ∙ h))
]

-- Two ordered maps that give the same for each key are equal.
pub maps_agree : (m n : Map) → Ordered m → Ordered n → ((k : Text) → get m k ≡ get n k) → m ≡ n
maps_agree m n o p same =
    members_agree m n o p (λ (k, v) h. get-In n k v (sym (same k) ∙ In-get m k v o h))
      (λ (k, v) h. get-In m k v (same k ∙ In-get n k v p h))

-- The first of two options that is there.
abbrev pub first_some {ℓ} : {A : Type ℓ} → Option A → Option A → Option A
first_some (some a) d = some a
first_some none d = d

pub first_some-none {ℓ} : {A : Type ℓ} (o : Option A) → first_some o none ≡ o
first_some-none (some a) = refl
first_some-none none = refl

get-eq_none : (j k : Text) (m : Map) → Before j m → Ordered m → text_eq j k ≡ true → get m k ≡ none
get-eq_none j k m b o same = elim (Option-cases (get m k)) [
  | inl absent ↦ absent
  | inr (v, there) ↦
      let before = All-In _ (entries m) (k, v) (Before-All j m b o) (get-In m k v there) in
      absurd (
        compare_units_irrefl j
          (subst (λ t. compare_units j t ≡ Ordering.lt) (sym ((text_eq_iff j k).0 same)) before))
]

pub get-insert_all :
    (new m : Map) (k : Text)
    → Ordered new
    → get (insert_all new m) k ≡ first_some (get new k) (get m k)
unfolding get insert_all
get-insert_all end m k o = refl
get-insert_all (field j v new) m k (b, o) = elim (Bool-cases (text_eq j k)) [
  | inl same ↦
      rw
        (
          get-insert_all new (insert j v m) k o,
          get-eq_none j k new b o same,
          get-insert j k v m,
          same,
        )
        refl
  | inr other ↦ rw (get-insert_all new (insert j v m) k o, get-insert j k v m, other) refl
]

-- Whether a key is among the names.
unfoldable pub is_listed : List Text → Text → Bool
unfolding text_eq
is_listed [] k = false
is_listed (name ∷ names) k = text_eq name k || is_listed names k

-- The map without the named keys.
unfoldable pub without : List Text → Map → Map
unfolding is_listed
without names end = end
without names (field k v m) =
    let rest = without names m in if is_listed names k then rest else field k v rest

pub get-without :
    (names : List Text) (m : Map) (k : Text)
    → get (without names m) k ≡ (if is_listed names k then none else get m k)
unfolding get without
get-without names end k = ground arith
get-without names (field j v m) k = ground (arith, get-without names m k, text_eq_iff j k)

without-Before :
    (names : List Text) (j : Text) (m : Map) → Before j m → Ordered m → Before j (without names m)
unfolding without
without-Before names j end b o = tt
without-Before names j (field k v m) b (c, o) = elim (Bool-cases (is_listed names k)) [
  | inl gone ↦ rw gone (without-Before names j m (Before-trans j k m b c) o)
  | inr kept ↦ rw kept b
]

pub without-Ordered : (names : List Text) (m : Map) → Ordered m → Ordered (without names m)
unfolding without
without-Ordered names end o = tt
without-Ordered names (field k v m) (b, o) = elim (Bool-cases (is_listed names k)) [
  | inl gone ↦ rw gone (without-Ordered names m o)
  | inr kept ↦ rw kept (without-Before names k m b o, without-Ordered names m o)
]
