-- ===== src/Dsse/Canonical/Utf16.antt =====
-- crates/aep-core/src/dsse.rs: the order of `compare_utf16`, by the scalar values of the strings.
use Prim.Native.Nat.{Ordering}
use wasmagent_proxy.Base.{
  ℕ, ◌≡◌, ◌≢◌, ◌⊎◌, ◌<◌, ◌≤◌, ◌+◌, ◌-◌, ◌/◌, ◌%◌, inl, inr, refl, List, [], ◌∷◌, Text, All, arith,
  subst,
}
use wasmagent_proxy.Json.{compare_units}
use wasmagent_proxy.Dsse.Canonical.{encode_utf16, compare_utf16}

-- A Unicode scalar value: below the surrogates, or above them and in the range of Unicode.
abbrev pub IsScalarValue : ℕ → Type 0
IsScalarValue c = (c < 0xd800) ⊎ (0xe000 ≤ c) × (c < 0x110000)

-- UTF-16 has a scalar value before another: in their order, but that those beyond the basic
-- multilingual plane come before its last part, which is above the surrogates.
pub data ScalarBefore : ℕ → ℕ → Type 0 where
  basic : {c d : ℕ} → c < d → d < 0x10000 → ScalarBefore c d
  beyond : {c d : ℕ} → 0x10000 ≤ c → c < d → ScalarBefore c d
  low_beyond : {c d : ℕ} → c < 0xd800 → 0x10000 ≤ d → ScalarBefore c d
  beyond_high : {c d : ℕ} → 0x10000 ≤ c → 0xe000 ≤ d → d < 0x10000 → ScalarBefore c d

pub data Utf16Before : Text → Text → Type 0 where
  ends : (c : ℕ) (t : Text) → Utf16Before [] (c ∷ t)
  first : {c d : ℕ} (s t : Text) → ScalarBefore c d → Utf16Before (c ∷ s) (d ∷ t)
  later : {s t : Text} (c : ℕ) → Utf16Before s t → Utf16Before (c ∷ s) (c ∷ t)

-- The first is the second, or before it.
abbrev pub NotLater : Text → Text → Type 0
NotLater s t = (s ≡ t) ⊎ Utf16Before s t

NotLater-cons : (c d : ℕ) (s t : Text) → c ≡ d → NotLater s t → NotLater (c ∷ s) (d ∷ t)
NotLater-cons c d s t e (inl same) = inl cc
NotLater-cons c d s t e (inr before) =
    inr (subst (λ d. Utf16Before (c ∷ s) (d ∷ t)) e (later c before))

units_cases :
    (c d : ℕ) (s t : List ℕ)
    → compare_units (c ∷ s) (d ∷ t) ≢ Ordering.gt
    → (c < d) ⊎ (c ≡ d) × (compare_units s t ≢ Ordering.gt)
unfolding compare_units
units_cases c d s t h = ground arith

plane_cases : (c : ℕ) → (c < 0x10000) ⊎ (0x10000 ≤ c)
plane_cases c = ground arith

encode_basic : (c : ℕ) (s : Text) → c < 0x10000 → encode_utf16 (c ∷ s) ≡ c ∷ encode_utf16 s
unfolding encode_utf16
encode_basic c s h = ground arith

abbrev lead : ℕ → ℕ
lead c = 0xd800 + (c - 0x10000) / 0x400

abbrev trail : ℕ → ℕ
trail c = 0xdc00 + (c - 0x10000) % 0x400

encode_beyond :
    (c : ℕ) (s : Text) → 0x10000 ≤ c → encode_utf16 (c ∷ s) ≡ lead c ∷ trail c ∷ encode_utf16 s
unfolding encode_utf16
encode_beyond c s h = ground arith

leads_differ : (c d : ℕ) → 0x10000 ≤ c → lead c < lead d → c < d
leads_differ c d h l = omega arith

trails_differ : (c d : ℕ) → 0x10000 ≤ c → 0x10000 ≤ d → lead c ≡ lead d → trail c < trail d → c < d
trails_differ c d h k l t = omega arith

pairs_same : (c d : ℕ) → 0x10000 ≤ c → 0x10000 ≤ d → lead c ≡ lead d → trail c ≡ trail d → c ≡ d
pairs_same c d h k l t = omega arith

module _ (c d : ℕ) (s t : Text) (v : IsScalarValue c) (w : IsScalarValue d)
    (rest : compare_units (encode_utf16 s) (encode_utf16 t) ≢ Ordering.gt → NotLater s t) where
  basic_basic :
      c < 0x10000
      → d < 0x10000
      → compare_units (c ∷ encode_utf16 s) (d ∷ encode_utf16 t) ≢ Ordering.gt
      → NotLater (c ∷ s) (d ∷ t)
  basic_basic h k n = elim (units_cases c d (encode_utf16 s) (encode_utf16 t) n) [
    | inl less ↦ inr (first s t (basic less k))
    | inr (same, m) ↦ NotLater-cons c d s t same (rest m)
  ]

  basic_beyond :
      (us : List ℕ)
      → c < 0x10000
      → 0x10000 ≤ d
      → compare_units (c ∷ encode_utf16 s) (lead d ∷ us) ≢ Ordering.gt
      → NotLater (c ∷ s) (d ∷ t)
  basic_beyond us h k n =
      let low : c < 0xd800 = ground (arith, units_cases c (lead d) (encode_utf16 s) us n) in
      inr (first s t (low_beyond low k))

  beyond_basic :
      (us : List ℕ)
      → 0x10000 ≤ c
      → d < 0x10000
      → compare_units (lead c ∷ us) (d ∷ encode_utf16 t) ≢ Ordering.gt
      → NotLater (c ∷ s) (d ∷ t)
  beyond_basic us h k n =
      let high : 0xe000 ≤ d = ground (arith, units_cases (lead c) d us (encode_utf16 t) n) in
      inr (first s t (beyond_high h high k))

  beyond_beyond :
      0x10000 ≤ c
      → 0x10000 ≤ d
      → compare_units (lead c ∷ trail c ∷ encode_utf16 s) (lead d ∷ trail d ∷ encode_utf16 t)
        ≢ Ordering.gt
      → NotLater (c ∷ s) (d ∷ t)
  beyond_beyond h k n =
      elim (units_cases (lead c) (lead d) (trail c ∷ encode_utf16 s) (trail d ∷ encode_utf16 t) n) [
        | inl less ↦ inr (first s t (beyond h (leads_differ c d h less)))
        | inr (leads, m) ↦
            elim (units_cases (trail c) (trail d) (encode_utf16 s) (encode_utf16 t) m) [
              | inl less ↦ inr (first s t (beyond h (trails_differ c d h k leads less)))
              | inr (trails, l) ↦ NotLater-cons c d s t (pairs_same c d h k leads trails) (rest l)
            ]
      ]

  heads :
      compare_units (encode_utf16 (c ∷ s)) (encode_utf16 (d ∷ t)) ≢ Ordering.gt
      → NotLater (c ∷ s) (d ∷ t)
  heads n = elim (plane_cases c) [
    | inl h ↦ elim (plane_cases d) [
      | inl k ↦ basic_basic h k (rw (encode_basic c s h, encode_basic d t k) at n)
      | inr k ↦ basic_beyond _ h k (rw (encode_basic c s h, encode_beyond d t k) at n)
    ]
    | inr h ↦ elim (plane_cases d) [
      | inl k ↦ beyond_basic _ h k (rw (encode_beyond c s h, encode_basic d t k) at n)
      | inr k ↦ beyond_beyond h k (rw (encode_beyond c s h, encode_beyond d t k) at n)
    ]
  ]

nothing_before : (c : ℕ) (s : Text) → compare_units (encode_utf16 (c ∷ s)) [] ≡ Ordering.gt
unfolding compare_units
nothing_before c s = elim (plane_cases c) [
  | inl h ↦ rw (encode_basic c s h) refl
  | inr h ↦ rw (encode_beyond c s h) refl
]

pub compare_utf16-NotLater :
    (s t : Text)
    → All IsScalarValue s
    → All IsScalarValue t
    → compare_utf16 s t ≢ Ordering.gt
    → NotLater s t
unfolding compare_utf16 encode_utf16
compare_utf16-NotLater [] [] v w h = inl refl
compare_utf16-NotLater [] (d ∷ t) v w h = inr (ends d t)
compare_utf16-NotLater (c ∷ s) [] v w h = absurd (h (nothing_before c s))
compare_utf16-NotLater (c ∷ s) (d ∷ t) (v, vs) (w, ws) h =
    heads c d s t v w (λ r. compare_utf16-NotLater s t vs ws r) h
