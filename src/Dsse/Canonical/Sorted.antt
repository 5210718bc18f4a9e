-- ===== src/Dsse/Canonical/Sorted.antt =====
-- crates/aep-core/src/dsse.rs: the sort of an object's keys, by the comparator alone.
use Prim.Native.Nat.{Ordering}
use wasmagent_proxy.Base.{ℕ, ◌≡◌, ◌≢◌, ◌⊎◌, inl, inr, refl, List, [], ◌∷◌, All, arith}
use wasmagent_proxy.Json.{compare_units}
use wasmagent_proxy.Json.Order.{compare_units-flip}
use wasmagent_proxy.Dsse.Canonical.{encode_utf16, compare_utf16, Pair, insert_pair, sort_pairs}

compare_units_trans :
    (x y z : List ℕ)
    → compare_units x y ≢ Ordering.gt
    → compare_units y z ≢ Ordering.gt
    → compare_units x z ≢ Ordering.gt
unfolding compare_units
compare_units_trans [] y [] h k = ground arith
compare_units_trans [] y (z ∷ zs) h k = ground arith
compare_units_trans (x ∷ xs) [] z h k = ground arith
compare_units_trans (x ∷ xs) (y ∷ ys) [] h k = ground arith
compare_units_trans (x ∷ xs) (y ∷ ys) (z ∷ zs) h k = ground (arith, compare_units_trans xs ys zs)

-- The key of `p` does not come after that of `q`.
abbrev pub NotAfter : Pair → Pair → Type 0
NotAfter p q = compare_utf16 p.0 q.0 ≢ Ordering.gt

abbrev pub Sorted : List Pair → Type 0
Sorted [] = Unit
Sorted (p ∷ ps) = All (NotAfter p) ps × Sorted ps

NotAfter-flip : (p q : Pair) → compare_utf16 p.0 q.0 ≡ Ordering.gt → NotAfter q p
unfolding compare_utf16
NotAfter-flip p q h k = cc (compare_units-flip (encode_utf16 p.0) (encode_utf16 q.0) h, k)

NotAfter-trans : (p q r : Pair) → NotAfter p q → NotAfter q r → NotAfter p r
unfolding compare_utf16
NotAfter-trans p q r = compare_units_trans (encode_utf16 p.0) (encode_utf16 q.0) (encode_utf16 r.0)

All-trans : (p q : Pair) (qs : List Pair) → NotAfter p q → All (NotAfter q) qs → All (NotAfter p) qs
All-trans p q [] h a = tt
All-trans p q (r ∷ qs) h (b, bs) = (NotAfter-trans p q r h b, All-trans p q qs h bs)

Ordering-cases : (o : Ordering) → (o ≡ Ordering.gt) ⊎ (o ≢ Ordering.gt)
Ordering-cases Ordering.lt = inr (λ h. ground arith)
Ordering-cases Ordering.eq = inr (λ h. ground arith)
Ordering-cases Ordering.gt = inl refl

insert_pair-after :
    (p q : Pair) (qs : List Pair)
    → compare_utf16 p.0 q.0 ≡ Ordering.gt
    → insert_pair p (q ∷ qs) ≡ q ∷ insert_pair p qs
unfolding insert_pair
insert_pair-after p q qs h = rw (h, insert_pair) refl

insert_pair-before :
    (p q : Pair) (qs : List Pair) → NotAfter p q → insert_pair p (q ∷ qs) ≡ p ∷ q ∷ qs
unfolding insert_pair
insert_pair-before p q qs h = ground arith

All-insert_pair :
    (P : Pair → Type 0) (p : Pair) (qs : List Pair) → P p → All P qs → All P (insert_pair p qs)
unfolding insert_pair
All-insert_pair P p [] h a = (h, tt)
All-insert_pair P p (q ∷ qs) h (b, bs) = elim (Ordering-cases (compare_utf16 p.0 q.0)) [
  | inl after ↦ rw (insert_pair-after p q qs after) (b, All-insert_pair P p qs h bs)
  | inr before ↦ rw (insert_pair-before p q qs before) (h, (b, bs))
]

insert_pair-Sorted : (p : Pair) (qs : List Pair) → Sorted qs → Sorted (insert_pair p qs)
unfolding insert_pair
insert_pair-Sorted p [] s = (tt, tt)
insert_pair-Sorted p (q ∷ qs) (a, s) = elim (Ordering-cases (compare_utf16 p.0 q.0)) [
  | inl after ↦
      rw (insert_pair-after p q qs after)
        (All-insert_pair (NotAfter q) p qs (NotAfter-flip p q after) a, insert_pair-Sorted p qs s)
  | inr before ↦ rw (insert_pair-before p q qs before) ((before, All-trans p q qs before a), (a, s))
]

pub sort_pairs-Sorted : (ps : List Pair) → Sorted (sort_pairs ps)
unfolding sort_pairs
sort_pairs-Sorted [] = tt
sort_pairs-Sorted (p ∷ ps) = insert_pair-Sorted p (sort_pairs ps) (sort_pairs-Sorted ps)
