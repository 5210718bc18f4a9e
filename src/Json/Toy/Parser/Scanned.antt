-- ===== src/Json/Toy/Parser/Scanned.antt =====
-- What the parser of Json/Toy/Parser.antt reads of scalars and of joined texts.
use wasmagent_proxy.Base.{
  ℕ, zero, suc, ◌+◌, ◌≡◌, refl, ap, ◌∙◌, some, List, [], ◌∷◌, ◌++◌, Text, arith,
}
use wasmagent_proxy.Json.{Value}
use wasmagent_proxy.Json.Toy.{numbers, tally, print_numbers, to_string}
use wasmagent_proxy.Json.Toy.Printing.{tally-append, read-numbers}
use wasmagent_proxy.Json.Toy.Parser.{scan, scalar}
use wasmagent_proxy.Dsse.Canonical.Texts.{IsScalar}

scan-tally : (m n : ℕ) (t : Text) → scan m (tally n t) ≡ ((m + n) ∷ (scan 0 t).0, (scan 0 t).1)
unfolding scan tally
scan-tally m zero t =
    let e : m ≡ m + 0 = omega arith in ap (λ k. (k ∷ (scan 0 t).0, (scan 0 t).1)) e
scan-tally m (suc n) t =
    let e : suc m + n ≡ m + suc n = omega arith in
    scan-tally (suc m) n t ∙ ap (λ k. (k ∷ (scan 0 t).0, (scan 0 t).1)) e

scan-print : (ns : List ℕ) (s : Text) → scan 0 (print_numbers ns ++ s) ≡ (ns, s)
unfolding scan print_numbers
scan-print [] s = refl
scan-print (n ∷ ns) s =
    ap (scan 0) (tally-append n (print_numbers ns) s)
    ∙ scan-tally 0 n (print_numbers ns ++ s)
    ∙ let e : 0 + n ≡ n = omega arith in rw (e, scan-print ns s) refl

pub scalar-to_string : (v : Value) (s : Text) → IsScalar v → scalar (to_string v ++ s) ≡ some (v, s)
unfolding scalar to_string
scalar-to_string v s h = rw (scan-print (numbers v) s, read-numbers v h) refl
