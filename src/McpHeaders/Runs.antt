-- ===== src/McpHeaders/Runs.antt =====
-- crates/aep-core/src/mcp_headers.rs: the runs of alphanumeric characters in a header value.
use Prim.Native.Nat.{max}
use native.Mathlib.Nat.{le_trans}
use wasmagent_proxy.Base.{
  ℕ, ◌+◌, ◌≤◌, ◌<◌, ◌≡◌, ◌⊎◌, ◌↔◌, inl, inr, refl, ap, true, [], ◌∷◌, ◌++◌, Text, Unicode,
  is_alphanumeric, utf8_len, byte_len, All, arith, Bool-cases,
}
use wasmagent_proxy.McpHeaders.{alnum_run_from, alnum_run}

max_cases : (n a b : ℕ) → n ≤ max a b → (n ≤ a) ⊎ (n ≤ b)
max_cases n a b h = grind arith

module _ (u : Unicode) where
  abbrev pub IsAlnum : Text → Type 0
  IsAlnum = All (λ c. is_alphanumeric u c ≡ true)

  -- Somewhere in the value stand alphanumeric characters of `n` bytes or more in a row.
  pub record HasRun (n : ℕ) (value : Text) : Type 0 where
    pub before : Text
    pub run : Text
    pub after : Text
    pub spelled : value ≡ before ++ (run ++ after)
    pub alnum : IsAlnum run
    pub long : n ≤ byte_len run

  -- The same at the start of what is left to read, where a run of `r` bytes stands before it.
  record Starts (n r : ℕ) (value : Text) : Type 0 where
    run : Text
    after : Text
    spelled : value ≡ run ++ after
    alnum : IsAlnum run
    long : n ≤ r + byte_len run

  HasRun-cons : (c n : ℕ) (value : Text) → HasRun n value → HasRun n (c ∷ value)
  HasRun-cons c n value h = record {
    before = c ∷ h.before;
    run = h.run;
    after = h.after;
    spelled = ap (λ t. c ∷ t) h.spelled;
    alnum = h.alnum;
    long = h.long;
  }

  Starts-nil : (n r : ℕ) (value : Text) → n ≤ r → Starts n r value
  unfolding byte_len
  Starts-nil n r value h = record {
    run = [];
    after = value;
    spelled = refl;
    alnum = tt;
    long = omega arith;
  }

  Starts-cons :
      (c n r : ℕ) (value : Text)
      → is_alphanumeric u c ≡ true
      → Starts n (r + utf8_len c) value
      → Starts n r (c ∷ value)
  unfolding byte_len
  Starts-cons c n r value a h = record {
    run = c ∷ h.run;
    after = h.after;
    spelled = ap (λ t. c ∷ t) h.spelled;
    alnum = (a, h.alnum);
    long = omega (arith, h.long);
  }

  Starts-HasRun : (n : ℕ) (value : Text) → Starts n 0 value → HasRun n value
  Starts-HasRun n value h = record {
    before = [];
    run = h.run;
    after = h.after;
    spelled = h.spelled;
    alnum = h.alnum;
    long = omega (arith, h.long);
  }

  run_sound :
      (n best r : ℕ) (value : Text)
      → n ≤ alnum_run_from u best r value
      → (n ≤ best) ⊎ Starts n r value ⊎ HasRun n value
  unfolding alnum_run_from
  run_sound n best r [] h = elim (max_cases n best r h) [
    | inl b ↦ inl b
    | inr s ↦ inr (inl (Starts-nil n r [] s))
  ]
  run_sound n best r (c ∷ value) h = elim (Bool-cases (is_alphanumeric u c)) [
    | inl a ↦ elim (run_sound n best (r + utf8_len c) value (rw (a, alnum_run_from) at h)) [
      | inl b ↦ inl b
      | inr (inl s) ↦ inr (inl (Starts-cons c n r value a s))
      | inr (inr later) ↦ inr (inr (HasRun-cons c n value later))
    ]
    | inr o ↦ elim (run_sound n (max best r) 0 value (rw (o, alnum_run_from) at h)) [
      | inl b ↦ elim (max_cases n best r b) [
        | inl b ↦ inl b
        | inr s ↦ inr (inl (Starts-nil n r (c ∷ value) s))
      ]
      | inr (inl s) ↦ inr (inr (HasRun-cons c n value (Starts-HasRun n value s)))
      | inr (inr later) ↦ inr (inr (HasRun-cons c n value later))
    ]
  ]

  le-run :
      (best r : ℕ) (value : Text)
      → (best ≤ alnum_run_from u best r value) × (r ≤ alnum_run_from u best r value)
  unfolding alnum_run_from
  le-run best r [] = omega arith
  le-run best r (c ∷ value) = elim (Bool-cases (is_alphanumeric u c)) [
    | inl a ↦ rw (a, alnum_run_from) (omega (arith, le-run best (r + utf8_len c) value))
    | inr o ↦ rw (o, alnum_run_from) (omega (arith, le-run (max best r) 0 value))
  ]

  run_complete_here :
      (best r : ℕ) (run after : Text)
      → IsAlnum run
      → r + byte_len run ≤ alnum_run_from u best r (run ++ after)
  unfolding alnum_run_from byte_len
  run_complete_here best r [] after a = omega (arith, le-run best r after)
  run_complete_here best r (c ∷ run) after (a, rest_alnum) =
      rw (a, alnum_run_from)
        (omega (arith, run_complete_here best (r + utf8_len c) run after rest_alnum))

  run_complete :
      (best r : ℕ) (before run after : Text)
      → IsAlnum run
      → byte_len run ≤ alnum_run_from u best r (before ++ (run ++ after))
  unfolding alnum_run_from
  run_complete best r [] run after a = omega (arith, run_complete_here best r run after a)
  run_complete best r (c ∷ before) run after a = elim (Bool-cases (is_alphanumeric u c)) [
    | inl x ↦ rw (x, alnum_run_from) (run_complete best (r + utf8_len c) before run after a)
    | inr o ↦ rw (o, alnum_run_from) (run_complete (max best r) 0 before run after a)
  ]

  -- The length that the code computes reaches `n` exactly when a run of so many bytes is there.
  pub alnum_run_iff : (n : ℕ) (value : Text) → 0 < n → (n ≤ alnum_run u value) ↔ HasRun n value
  unfolding alnum_run
  alnum_run_iff n value pos = (
    λ h. elim (run_sound n 0 0 value h) [
      | inl b ↦ absurd (omega arith)
      | inr (inl s) ↦ Starts-HasRun n value s
      | inr (inr there) ↦ there
    ],
    λ h. rw h.spelled (le_trans h.long (run_complete 0 0 h.before h.run h.after h.alnum)),
  )
