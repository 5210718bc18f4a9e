-- ===== src/Base/Asserts.antt =====
-- What the unit tests of the crates assert, as Boolean tests.
use mathlib.Core.Bool.{Bool, true, false, ◌&&◌}
use mathlib.Core.List.{List, [], ◌∷◌}
use mathlib.Core.Option.{Option, none, some}
use wasmagent_proxy.Base.Strings.{Text, contains}
use wasmagent_proxy.Base.Results.{Result, ok, err, panic}

-- `assert_eq!` of options.
abbrev pub same_option {ℓ} : {A : Type ℓ} → (A → A → Bool) → Option A → Option A → Bool
same_option same none none = true
same_option same (some a) (some b) = same a b
same_option same _ _ = false

abbrev pub is_none {ℓ} : {A : Type ℓ} → Option A → Bool
is_none none = true
is_none (some a) = false

-- `unwrap` of an option, and of a result, before further assertions.
abbrev pub some_and {ℓ} : {A : Type ℓ} → Option A → (A → Bool) → Bool
some_and none test = false
some_and (some a) test = test a

abbrev pub ok_and {ℓ} : {A : Type ℓ} → Result A → (A → Bool) → Bool
ok_and (ok a) test = test a
ok_and _ test = false

abbrev pub is_ok {ℓ} : {A : Type ℓ} → Result A → Bool
is_ok (ok a) = true
is_ok _ = false

abbrev pub is_err {ℓ} : {A : Type ℓ} → Result A → Bool
is_err (err e) = true
is_err _ = false

-- `expect_err` with a message that contains the text, and `should_panic`.
abbrev pub err_with {ℓ} : {A : Type ℓ} → Result A → Text → Bool
err_with (err e) part = contains e part
err_with _ part = false

abbrev pub err_that {ℓ} : {A : Type ℓ} → Result A → (Text → Bool) → Bool
err_that (err e) test = test e
err_that _ test = false

abbrev pub panics_with {ℓ} : {A : Type ℓ} → Result A → Text → Bool
panics_with (panic e) part = contains e part
panics_with _ part = false

-- A loop of assertions.
abbrev pub each_holds {ℓ} : {A : Type ℓ} → (A → Bool) → List A → Bool
each_holds test [] = true
each_holds test (a ∷ xs) = test a && each_holds test xs
