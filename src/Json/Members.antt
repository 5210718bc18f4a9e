-- ===== src/Json/Members.antt =====
-- The maps of Json.antt as lists of entries: an ordered map is determined by which it has.
use Prim.Native.Nat.{Ordering}
use wasmagent_proxy.Base.{
  ℕ, ◌≡◌, ◌≢◌, inl, inr, refl, sym, ap, subst, ◌∙◌, List, [], ◌∷◌, Text, In, All, All-In, arith,
}
use wasmagent_proxy.Json.{Value, end, field, Map, compare_units}
use wasmagent_proxy.Json.Order.{Before, Ordered}

abbrev pub Entry : Type 0
Entry = Text × Value

abbrev pub entries : Map → List Entry
entries end = []
entries (field k v m) = (k, v) ∷ entries m

compare_units-lt_trans :
    (x y z : List ℕ)
    → compare_units x y ≡ Ordering.lt
    → compare_units y z ≡ Ordering.lt
    → compare_units x z ≡ Ordering.lt
unfolding compare_units
compare_units-lt_trans [] [] z h k = ground arith
compare_units-lt_trans [] (y ∷ ys) [] h k = ground arith
compare_units-lt_trans [] (y ∷ ys) (z ∷ zs) h k = refl
compare_units-lt_trans (x ∷ xs) [] z h k = ground arith
compare_units-lt_trans (x ∷ xs) (y ∷ ys) [] h k = ground arith
compare_units-lt_trans (x ∷ xs) (y ∷ ys) (z ∷ zs) h k =
    ground (arith, compare_units-lt_trans xs ys zs)

pub compare_units_irrefl : (x : List ℕ) → compare_units x x ≢ Ordering.lt
unfolding compare_units
compare_units_irrefl [] h = ground arith
compare_units_irrefl (x ∷ xs) h = ground (arith, compare_units_irrefl xs)

pub Before-trans :
    (k j : Text) (m : Map) → compare_units k j ≡ Ordering.lt → Before j m → Before k m
Before-trans k j end h b = tt
Before-trans k j (field i v m) h b = compare_units-lt_trans k j i h b

pub Before-All :
    (k : Text) (m : Map)
    → Before k m
    → Ordered m
    → All (λ e. compare_units k e.0 ≡ Ordering.lt) (entries m)
Before-All k end b f = tt
Before-All k (field j v end) b (c, f) = (b, tt)
Before-All k (field j v (field i u m)) b (c, f) =
    (b, Before-All k (field i u m) (compare_units-lt_trans k j i b c) f)

-- The entries of `m` are among those of `n`.
abbrev pub Within : Map → Map → Type 0
Within m n = (e : Entry) → In e (entries m) → In e (entries n)

-- The first keys of two maps with the same entries agree.
heads_agree :
    (k j : Text) (v u : Value) (m n : Map)
    → Ordered (field k v m)
    → Ordered (field j u n)
    → Within (field k v m) (field j u n)
    → Within (field j u n) (field k v m)
    → ◌≡◌ {A = Entry} (k, v) (j, u)
heads_agree k j v u m n (b, f) (c, g) there back = elim (there (k, v) (inl refl)) [
  | inl same ↦ same
  | inr later ↦ elim (back (j, u) (inl refl)) [
    | inl same ↦ sym same
    | inr later_too ↦
        let before = All-In _ (entries n) (k, v) (Before-All j n c g) later in
        let after = All-In _ (entries m) (j, u) (Before-All k m b f) later_too in
        absurd (compare_units_irrefl k (compare_units-lt_trans k j k after before))
  ]
]

Within-rest :
    (k : Text) (v : Value) (m n : Map)
    → Ordered (field k v m)
    → Within (field k v m) (field k v n)
    → Within m n
Within-rest k v m n (b, f) there e h = elim (there e (inr h)) [
  | inl same ↦
      let before = All-In _ (entries m) e (Before-All k m b f) h in
      absurd (compare_units_irrefl k (subst (λ e. compare_units k e.0 ≡ Ordering.lt) same before))
  | inr later ↦ later
]

pub members_agree : (m n : Map) → Ordered m → Ordered n → Within m n → Within n m → m ≡ n
members_agree end end f g there back = refl
members_agree end (field j u n) f g there back = absurd (back (j, u) (inl refl))
members_agree (field k v m) end f g there back = absurd (there (k, v) (inl refl))
members_agree (field k v m) (field j u n) (b, f) (c, g) there back =
    let same = heads_agree k j v u m n (b, f) (c, g) there back in
    let moved =
      subst
        (λ (e : Entry).
          Ordered (field e.0 e.1 n)
          × Within (field k v m) (field e.0 e.1 n)
          × Within (field e.0 e.1 n) (field k v m))
        (sym same) ((c, g), there, back) in
    let rest =
      members_agree m n f g (Within-rest k v m n (b, f) moved.1)
        (Within-rest k v n m moved.0 moved.2) in
    ap (λ (e : Entry). field e.0 e.1 m) same ∙ ap (field j u) rest
