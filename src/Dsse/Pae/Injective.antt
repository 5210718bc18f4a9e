-- ===== src/Dsse/Pae/Injective.antt =====
-- crates/aep-core/src/dsse.rs: reading an encoding back.
use wasmagent_proxy.Base.{
  ℕ, zero, suc, ◌+◌, ◌-◌, ◌*◌, ◌/◌, ◌%◌, ◌≤◌, ◌<◌, ◌≡◌, refl, sym, ap, ◌∙◌, true, false, Option,
  none, some, some-injective, [], ◌∷◌, ◌++◌, append-nil, subst, Text, Bytes, as_bytes, byte_len,
  utf8_char, decimal, decimal_from, length, length-append, take, drop, take-length-append,
  drop-length-append, All, ltb, ltb→lt, ◌==◌, arith, Bool-cases, inl, inr,
}
use wasmagent_proxy.Dsse.Pae.{pae_encode}

abbrev Digits : Text → Type 0
Digits = All (λ c. (48 ≤ c) × (c ≤ 57))

Digits-decimal_from : (f n : ℕ) (acc : Text) → Digits acc → Digits (decimal_from f n acc)
unfolding decimal_from
Digits-decimal_from zero n acc d = d
Digits-decimal_from (suc f) n acc d = elim (Bool-cases (ltb n 10)) [
  | inl small ↦ rw (small, decimal_from) ((omega arith, omega arith), d)
  | inr large ↦
      rw (large, decimal_from) (Digits-decimal_from f (n / 10) _ ((omega arith, omega arith), d))
]

-- The number that digits spell behind a number already read.
value : ℕ → Text → ℕ
value n [] = n
value n (c ∷ s) = value (n * 10 + (c - 48)) s

value-decimal_from : (f n : ℕ) (acc : Text) → n < f → value 0 (decimal_from f n acc) ≡ value n acc
unfolding decimal_from value
value-decimal_from zero n acc h = elim h [ ]
value-decimal_from (suc f) n acc h = elim (Bool-cases (ltb n 10)) [
  | inl small ↦ rw (small, decimal_from) (ap (λ k. value k acc) (omega (arith, ltb→lt n 10 small)))
  | inr large ↦
      rw (large, decimal_from)
        (value-decimal_from f (n / 10) ((b'0' + n % 10) ∷ acc) (ground arith)
          ∙ ap (λ k. value k acc) (omega arith))
]

as_bytes-Digits : (s : Text) → Digits s → as_bytes s ≡ s
unfolding as_bytes
as_bytes-Digits [] d = refl
as_bytes-Digits (c ∷ s) (d, ds) = ground (arith, as_bytes-Digits s ds)

pub length-as_bytes : (s : Text) → length (as_bytes s) ≡ byte_len s
unfolding as_bytes byte_len
length-as_bytes [] = refl
length-as_bytes (c ∷ s) =
    rw (length-append (utf8_char c) (as_bytes s), length-as_bytes s) (ground arith)

-- A decoder of the encoding: a number up to a space, so many bytes, a space.
read_number : ℕ → Bytes → Option (ℕ × Bytes)
read_number n [] = none
read_number n (c ∷ s) = elim (c == 32) [
  | true ↦ some (n, s)
  | false ↦ read_number (n * 10 + (c - 48)) s
]

read_number-append :
    (n : ℕ) (s rest : Text) → Digits s → read_number n (s ++ 32 ∷ rest) ≡ some (value n s, rest)
unfolding read_number value
read_number-append n [] rest d = refl
read_number-append n (c ∷ s) rest ((low, high), d) =
    let digit : (c == 32) ≡ false = ground arith in
    rw (digit, read_number) (read_number-append (n * 10 + (c - 48)) s rest d)

value_all_digits : (n : ℕ) → value 0 (decimal_from (suc n) n []) ≡ n
unfolding value
value_all_digits n = value-decimal_from (suc n) n [] (omega arith)

read_number-decimal :
    (n : ℕ) (rest : Bytes) → read_number 0 (as_bytes (decimal n) ++ 32 ∷ rest) ≡ some (n, rest)
unfolding decimal
read_number-decimal n rest =
    let d = Digits-decimal_from (suc n) n [] tt in
    rw (as_bytes-Digits (decimal_from (suc n) n []) d) (
      read_number-append 0 (decimal_from (suc n) n []) rest d
      ∙ ap (λ v. some (v, rest)) (value_all_digits n))

-- A length and as many bytes; what follows is left.
read_block : Bytes → Option (Bytes × Bytes)
read_block s = elim (read_number 0 s) [
  | none ↦ none
  | some (n, rest) ↦ some (take n rest, drop n rest)
]

read_block-append :
    (block rest : Bytes)
    → read_block (as_bytes (decimal (length block)) ++ 32 ∷ (block ++ rest)) ≡ some (block, rest)
unfolding read_block
read_block-append block rest =
    rw (read_number-decimal (length block) (block ++ rest), read_block)
      (cc (take-length-append block rest, drop-length-append block rest))

-- The two blocks of an encoding.
read_blocks : Bytes → Option (Bytes × Bytes)
read_blocks s = elim (read_block s) [
  | none ↦ none
  | some (block, rest) ↦ elim (read_block (drop 1 rest)) [
    | none ↦ none
    | some (payload, _) ↦ some (block, payload)
  ]
]

decode-pae_encode :
    (payload_type : Text) (payload : Bytes)
    → read_blocks (drop 7 (pae_encode payload_type payload)) ≡ some (as_bytes payload_type, payload)
unfolding read_blocks pae_encode
decode-pae_encode payload_type payload =
    let rest : Bytes = as_bytes (decimal (length payload)) ++ 32 ∷ payload in
    let last : read_block rest ≡ some (payload, []) =
      subst (λ s. read_block (as_bytes (decimal (length payload)) ++ 32 ∷ s) ≡ some (payload, []))
        (append-nil payload) (read_block-append payload []) in
    rw (sym (length-as_bytes payload_type))
      (rw (read_block-append (as_bytes payload_type) (32 ∷ rest), read_blocks) (rw last))

-- Two encodings are equal only if the payload types have the same bytes and the payloads are equal.
pub pae_injective :
    (t u : Text) (p q : Bytes)
    → pae_encode t p ≡ pae_encode u q
    → (as_bytes t ≡ as_bytes u) × (p ≡ q)
pae_injective t u p q h =
    let same =
      some-injective _ _ (
        sym (decode-pae_encode t p) ∙ ap (λ s. read_blocks (drop 7 s)) h ∙ decode-pae_encode u q) in
    (ap (λ b. b.0) same, ap (λ b. b.1) same)
