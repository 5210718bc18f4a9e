-- ===== src/Base/Best.antt =====
-- `Iterator::max_by_key` and `Iterator::min_by_key`: of several extreme items the last and the
-- first.
use Prim.Native.Nat.{ℕ, ◌≤◌}
use mathlib.Core.Path.{◌≡◌, refl, subst}
use mathlib.Core.Logic.{inl}
use mathlib.Core.List.{List, [], ◌∷◌}
use mathlib.Core.Option.{Option, none, some, some-injective}
use native.Mathlib.Omega.{arith}
use wasmagent_proxy.Base.Lists.{In, All}
use wasmagent_proxy.Base.Tests.{ltb, leb, if◌then◌else◌}

module _ {A : Type 0} (key : A → ℕ) where
  pub max_from : A → List A → A
  max_from best [] = best
  max_from best (x ∷ xs) = max_from (if leb (key best) (key x) then x else best) xs

  unfoldable pub max_by_key : List A → Option A
  unfolding max_from
  max_by_key [] = none
  max_by_key (x ∷ xs) = some (max_from x xs)

  pub min_from : A → List A → A
  min_from best [] = best
  min_from best (x ∷ xs) = min_from (if ltb (key x) (key best) then x else best) xs

  unfoldable pub min_by_key : List A → Option A
  unfolding min_from
  min_by_key [] = none
  min_by_key (x ∷ xs) = some (min_from x xs)

  max_from-In : (best : A) (xs : List A) → In (max_from best xs) (best ∷ xs)
  unfolding max_from
  max_from-In best [] = inl refl
  max_from-In best (x ∷ xs) =
      ground (arith, max_from-In (if leb (key best) (key x) then x else best) xs)

  max_from-le :
      (best : A) (xs : List A)
      → (key best ≤ key (max_from best xs)) × All (λ x. key x ≤ key (max_from best xs)) xs
  unfolding max_from
  max_from-le best [] = (omega arith, tt)
  max_from-le best (x ∷ xs) =
      ground (arith, max_from-le (if leb (key best) (key x) then x else best) xs)

  min_from-In : (best : A) (xs : List A) → In (min_from best xs) (best ∷ xs)
  unfolding min_from
  min_from-In best [] = inl refl
  min_from-In best (x ∷ xs) =
      ground (arith, min_from-In (if ltb (key x) (key best) then x else best) xs)

  min_from-le :
      (best : A) (xs : List A)
      → (key (min_from best xs) ≤ key best) × All (λ x. key (min_from best xs) ≤ key x) xs
  unfolding min_from
  min_from-le best [] = (omega arith, tt)
  min_from-le best (x ∷ xs) =
      ground (arith, min_from-le (if ltb (key x) (key best) then x else best) xs)

  -- The maximum is an item, and no item has a greater key.
  pub max_by_key-some :
      (xs : List A) (m : A) → max_by_key xs ≡ some m → In m xs × All (λ x. key x ≤ key m) xs
  unfolding max_by_key
  max_by_key-some [] m h = cc
  max_by_key-some (x ∷ xs) m h =
      subst (λ n. In n (x ∷ xs) × All (λ z. key z ≤ key n) (x ∷ xs)) (some-injective _ _ h)
        (max_from-In x xs, max_from-le x xs)

  pub min_by_key-some :
      (xs : List A) (m : A) → min_by_key xs ≡ some m → In m xs × All (λ x. key m ≤ key x) xs
  unfolding min_by_key
  min_by_key-some [] m h = cc
  min_by_key-some (x ∷ xs) m h =
      subst (λ n. In n (x ∷ xs) × All (λ z. key n ≤ key z) (x ∷ xs)) (some-injective _ _ h)
        (min_from-In x xs, min_from-le x xs)

  pub max_by_key-total : (x : A) (xs : List A) → (m : A) × (max_by_key (x ∷ xs) ≡ some m)
  unfolding max_by_key
  max_by_key-total x xs = (max_from x xs, refl)

  pub min_by_key-total : (x : A) (xs : List A) → (m : A) × (min_by_key (x ∷ xs) ≡ some m)
  unfolding min_by_key
  min_by_key-total x xs = (min_from x xs, refl)
