-- ===== src/Base/Results.antt =====
-- Rust's `Result<T, String>`, for calls that may also panic: every fallible function of the crates
-- fails with a message.
use mathlib.Core.Path.{◌≡◌, refl}
use mathlib.Core.Bool.{Bool, true, false}
use mathlib.Core.Logic.{◌↔◌, ◌⊎◌, inl, inr}
use mathlib.Core.Option.{Option, none, some}
use wasmagent_proxy.Base.Strings.{Text}

pub data Result {ℓ} (T : Type ℓ) : Type ℓ where
  ok : T → Result T
  err panic : Text → Result T

-- `Option::ok_or`
abbrev pub ok_or {ℓ} : {T : Type ℓ} → Option T → Text → Result T
ok_or (some a) e = ok a
ok_or none e = err e

-- `?`
infixl 5 ◌>>=◌ ◌>>◌
abbrev pub ◌>>=◌ {ℓ κ} : {T : Type ℓ} {V : Type κ} → Result T → (T → Result V) → Result V
panic message >>= next = panic message
err message >>= next = err message
ok value >>= next = next value

-- `?` on a result without a value.
abbrev pub ◌>>◌ {ℓ} : {V : Type ℓ} → Result (Unit {0}) → Result V → Result V
first >> second = first >>= (λ _. second)

-- `Result::map_err`
abbrev pub map_err {ℓ} : {A : Type ℓ} → Result A → (Text → Text) → Result A
map_err (ok a) f = ok a
map_err (err e) f = err (f e)
map_err (panic e) f = panic e

-- `return Err(e)` when the test holds.
abbrev pub reject_if : Bool → Text → Result (Unit {0})
reject_if true e = err e
reject_if false e = ok tt

pub Result-cases {ℓ} :
    {A : Type ℓ} (r : Result A)
    → ((a : A) × (r ≡ ok a)) ⊎ ((e : Text) × (r ≡ err e)) ⊎ ((e : Text) × (r ≡ panic e))
Result-cases (ok a) = inl (a, refl)
Result-cases (err e) = inr (inl (e, refl))
Result-cases (panic e) = inr (inr (e, refl))

-- A sequence succeeds exactly when both steps do.
pub seq_iff : (m k : Result (Unit {0})) → ((m >> k) ≡ ok tt) ↔ ((m ≡ ok tt) × (k ≡ ok tt))
seq_iff (ok a) k = (λ h. (refl, h), λ h. h.1)
seq_iff (err e) k = (λ h. cc, λ h. cc h.0)
seq_iff (panic e) k = (λ h. cc, λ h. cc h.0)

pub reject_iff : (b : Bool) (e : Text) → (reject_if b e ≡ ok tt) ↔ (b ≡ false)
reject_iff true e = (λ h. cc, λ h. cc)
reject_iff false e = (λ h. refl, λ h. refl)
