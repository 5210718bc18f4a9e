-- ===== src/Json/Toy/Printing.antt =====
-- The printer of Json/Toy.antt: what it prints of scalars can be read back.
use wasmagent_proxy.Base.{
  ℕ, zero, suc, ◌≡◌, refl, sym, ap, ◌∙◌, true, false, Option, none, some, some-injective, List, [],
  ◌∷◌, ◌++◌, Text, arith,
}
use wasmagent_proxy.Json.{
  Value, pos_int, neg_int, float, null, boolean, number, string, array, object,
}
use wasmagent_proxy.Json.Toy.{numbers, tally, print_numbers, to_string}
use wasmagent_proxy.Dsse.Canonical.Joined.{Ends}
use wasmagent_proxy.Dsse.Canonical.Texts.{IsScalar}
use wasmagent_proxy.Dsse.Canonical.Scalars.{IsPlain}

pub tally-append : (n : ℕ) (t s : Text) → tally n t ++ s ≡ tally n (t ++ s)
unfolding tally
tally-append zero t s = refl
tally-append (suc n) t s = ap (λ r. b'i' ∷ r) (tally-append n t s)

tally-injective : (n m : ℕ) (s t : Text) → tally n s ≡ tally m t → (n ≡ m) × (s ≡ t)
unfolding tally
tally-injective zero zero s t e = (refl, cc e)
tally-injective zero (suc m) s t e = absurd (ground arith)
tally-injective (suc n) zero s t e = absurd (ground arith)
tally-injective (suc n) (suc m) s t e =
    let (same, rest) = tally-injective n m s t (cc e) in (ap suc same, rest)

tally-not_end : (n : ℕ) (s t : Text) → ¬ (tally n s ≡ b'e' ∷ t)
unfolding tally
tally-not_end zero s t e = ground arith
tally-not_end (suc n) s t e = ground arith

print_numbers-injective :
    (ns ms : List ℕ) (s t : Text)
    → print_numbers ns ++ s ≡ print_numbers ms ++ t
    → (ns ≡ ms) × (s ≡ t)
unfolding print_numbers
print_numbers-injective [] [] s t e = (refl, cc e)
print_numbers-injective [] (m ∷ ms) s t e =
    absurd (tally-not_end m _ s (sym (tally-append m (print_numbers ms) t) ∙ sym e))
print_numbers-injective (n ∷ ns) [] s t e =
    absurd (tally-not_end n _ t (sym (tally-append n (print_numbers ns) s) ∙ e))
print_numbers-injective (n ∷ ns) (m ∷ ms) s t e =
    let (same, rest) =
      tally-injective n m _ _
        (sym (tally-append n (print_numbers ns) s) ∙ (e ∙ tally-append m (print_numbers ms) t)) in
    let (sames, ends) = print_numbers-injective ns ms s t rest in (cc (same, sames), ends)

unfoldable pub read_numbers : List ℕ → Option Value
read_numbers (zero ∷ _) = some null
read_numbers (suc zero ∷ _) = some (boolean false)
read_numbers (suc (suc zero) ∷ _) = some (boolean true)
read_numbers (suc (suc (suc zero)) ∷ n ∷ _) = some (number (pos_int n))
read_numbers (suc (suc (suc (suc zero))) ∷ n ∷ _) = some (number (neg_int n))
read_numbers (suc (suc (suc (suc (suc zero)))) ∷ n ∷ _) = some (number (float n))
read_numbers (suc (suc (suc (suc (suc (suc zero))))) ∷ s) = some (string s)
read_numbers _ = none

pub read-numbers : (v : Value) → IsScalar v → read_numbers (numbers v) ≡ some v
unfolding read_numbers
read-numbers null h = refl
read-numbers (boolean true) h = refl
read-numbers (boolean false) h = refl
read-numbers (number (pos_int n)) h = refl
read-numbers (number (neg_int n)) h = refl
read-numbers (number (float n)) h = refl
read-numbers (string s) h = refl
read-numbers (array xs) h = absurd h
read-numbers (object m) h = absurd h

pub to_string-delimits :
    (u v : Value) (s t : Text)
    → IsScalar u
    → IsScalar v
    → Ends s
    → Ends t
    → to_string u ++ s ≡ to_string v ++ t
    → (u ≡ v) × (s ≡ t)
unfolding to_string
to_string-delimits u v s t scalar other _ _ e =
    let (same, rest) = print_numbers-injective (numbers u) (numbers v) s t e in
    (
      some-injective _ _
          (sym (read-numbers u scalar) ∙ (ap read_numbers same ∙ read-numbers v other)),
      rest,
    )

tally-IsPlain : (n : ℕ) (t : Text) → IsPlain (tally n t)
unfolding tally
tally-IsPlain zero t = record {
  begun = record { start = b'n'; rest = t; spelled = refl; other = λ d. ground arith };
  no_object = λ e. ground arith;
  no_array = λ e. ground arith;
}
tally-IsPlain (suc n) t = record {
  begun = record { start = b'i'; rest = tally n t; spelled = refl; other = λ d. ground arith };
  no_object = λ e. ground arith;
  no_array = λ e. ground arith;
}

print_numbers-IsPlain : (ns : List ℕ) → IsPlain (print_numbers ns)
unfolding print_numbers
print_numbers-IsPlain [] = record {
  begun = record { start = b'e'; rest = []; spelled = refl; other = λ d. ground arith };
  no_object = λ e. ground arith;
  no_array = λ e. ground arith;
}
print_numbers-IsPlain (n ∷ ns) = tally-IsPlain n (print_numbers ns)

pub to_string-IsPlain : (v : Value) → IsScalar v → IsPlain (to_string v)
unfolding to_string
to_string-IsPlain v scalar = print_numbers-IsPlain (numbers v)
