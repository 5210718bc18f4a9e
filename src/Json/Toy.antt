-- ===== src/Json/Toy.antt =====
-- An instance of the parameters of Json.antt that computes, for the runs: its base64 writes a number
-- in unary, and so does its printer; its signature has 64 copies of the length of what it signs.
pub mod Laws
pub mod Printing
pub mod Parser
use wasmagent_proxy.Base.{
  ℕ, zero, suc, ◌+◌, ◌*◌, ◌/◌, ◌%◌, ◌-◌, ◌≡◌, ◌≢◌, refl, ap, sym, ◌∙◌, subst, Bool, true, false,
  List, [], ◌∷◌, ◌++◌, Text, Bytes, codes, decimal, length, replicate, text_eq, text_eq_refl,
  byte_len, All, Result, ok, err, panic, ◌>>=◌, ltb, ◌==◌, if◌then◌else◌, arith, Unicode,
}
use wasmagent_proxy.Json.{
  Value, Number, pos_int, neg_int, float, null, boolean, number, string, array, object, Crates,
}

abbrev digit : ℕ → ℕ
digit n = if ltb n 10 then b'0' + n else b'W' + n

unfoldable pub hex_encode : Bytes → Text
hex_encode [] = []
hex_encode (b ∷ bs) = digit (b / 16) ∷ digit (b % 16) ∷ hex_encode bs

-- Lower-case hexadecimal digits only.
abbrev value : ℕ → Result ℕ
value c =
    if ltb c b'0'
    then err (codes "Invalid character")
    else if ltb c b':'
    then ok (c - b'0')
    else if ltb c b'a'
    then err (codes "Invalid character")
    else if ltb c b'g'
    then ok (c - b'W')
    else err (codes "Invalid character")

unfoldable pub hex_decode : Text → Result Bytes
hex_decode [] = ok []
hex_decode (c ∷ []) = err (codes "Odd number of digits")
hex_decode (c ∷ d ∷ t) =
    let rest = hex_decode t in
    value c >>= λ high. value d >>= λ low. rest >>= λ bs. ok ((high * 16 + low) ∷ bs)

unfoldable quad : ℕ → Text → Text
quad c t = c ∷ c ∷ c ∷ c ∷ t

unfoldable unary : ℕ → Text → Text
unfolding quad
unary zero t = quad b'B' t
unary (suc n) t = quad b'A' (unary n t)

unfoldable pub base64_encode : Bytes → Text
unfolding unary
base64_encode [] = []
base64_encode (b ∷ bs) = unary b (base64_encode bs)

unfoldable pub decode_from : ℕ → Text → Result Bytes
decode_from n [] = ok []
decode_from n (c ∷ _ ∷ _ ∷ _ ∷ t) = elim (c == b'A') [
  | true ↦ decode_from (suc n) t
  | false ↦ decode_from 0 t >>= λ bs. ok (n ∷ bs)
]
decode_from n _ = err (codes "Invalid padding")

-- A scalar as numbers, and numbers in unary, each with its end, and the end of all.
abbrev pub numbers : Value → List ℕ
numbers null = 0 ∷ []
numbers (boolean false) = 1 ∷ []
numbers (boolean true) = 2 ∷ []
numbers (number (pos_int n)) = 3 ∷ n ∷ []
numbers (number (neg_int n)) = 4 ∷ n ∷ []
numbers (number (float bits)) = 5 ∷ bits ∷ []
numbers (string s) = 6 ∷ s
numbers _ = []

unfoldable pub tally : ℕ → Text → Text
tally zero t = b'n' ∷ t
tally (suc n) t = b'i' ∷ tally n t

unfoldable pub print_numbers : List ℕ → Text
unfolding tally
print_numbers [] = b'e' ∷ []
print_numbers (n ∷ ns) = tally n (print_numbers ns)

unfoldable pub to_string : Value → Text
unfolding print_numbers
to_string v = print_numbers (numbers v)

unfoldable pub sign : Bytes → Bytes → Bytes
sign key m = replicate 64 (length m)

unfoldable pub verify : Bytes → Bytes → Bytes → Result (Unit {0})
unfolding sign
verify key m sig =
    if text_eq sig (sign key m)
    then ok tt
    else err (codes "signature error: Verification equation was not satisfied")

-- `from_slice` reads one document, which it is given.
abbrev pub toy : Bytes → Value → Crates
toy document parsed = record {
  to_string = to_string;
  from_slice = λ bytes. if text_eq bytes document then ok parsed else err (codes "expected value");
  sha256 = λ bytes. length bytes ∷ [];
  hex_encode = hex_encode;
  hex_decode = hex_decode;
  base64_encode = base64_encode;
  base64_decode = decode_from 0;
  sign = sign;
  verify = verify;
}
