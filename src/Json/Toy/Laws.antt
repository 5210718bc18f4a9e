-- ===== src/Json/Toy/Laws.antt =====
-- What the instance of Json/Toy.antt has in common with the crates.
use wasmagent_proxy.Base.{
  ℕ, zero, suc, ◌+◌, ◌%◌, ◌≡◌, refl, ap, ◌∙◌, [], ◌∷◌, Text, Bytes, length, text_eq_refl, byte_len,
  All, ok, panic, arith,
}
use wasmagent_proxy.Dsse.Verify.RoundTrip.{IsStandard}
use wasmagent_proxy.Json.{Value}
use wasmagent_proxy.Json.Toy.{toy, quad, unary, base64_encode, decode_from, sign, verify}

module _ (P : ℕ → Type 0) (a : P b'A') (b : P b'B') where
  All-unary : (n : ℕ) (t : Text) → All P t → All P (unary n t)
  unfolding unary quad
  All-unary zero t h = (b, (b, (b, (b, h))))
  All-unary (suc n) t h = (a, (a, (a, (a, All-unary n t h))))

  All-base64_encode : (bytes : Bytes) → All P (base64_encode bytes)
  unfolding base64_encode
  All-base64_encode [] = tt
  All-base64_encode (n ∷ bytes) = All-unary n _ (All-base64_encode bytes)

byte_len-unary : (n : ℕ) (t : Text) → byte_len t % 4 ≡ 0 → byte_len (unary n t) % 4 ≡ 0
unfolding unary quad byte_len
byte_len-unary zero t h = omega arith
byte_len-unary (suc n) t h = omega (arith, byte_len-unary n t h)

pub byte_len-base64_encode : (bytes : Bytes) → byte_len (base64_encode bytes) % 4 ≡ 0
unfolding base64_encode byte_len
byte_len-base64_encode [] = refl
byte_len-base64_encode (n ∷ bytes) =
    byte_len-unary n (base64_encode bytes) (byte_len-base64_encode bytes)

decode_from-unary :
    (m n : ℕ) (t : Text) (bytes : Bytes)
    → decode_from 0 t ≡ ok bytes
    → decode_from m (unary n t) ≡ ok ((m + n) ∷ bytes)
unfolding unary quad decode_from
decode_from-unary m zero t bytes h =
    let e : m ≡ m + 0 = omega arith in rw h (ap (λ k. ok (k ∷ bytes)) e)
decode_from-unary m (suc n) t bytes h =
    let e : suc m + n ≡ m + suc n = omega arith in
    decode_from-unary (suc m) n t bytes h ∙ ap (λ k. ok (k ∷ bytes)) e

pub decode-base64_encode : (bytes : Bytes) → decode_from 0 (base64_encode bytes) ≡ ok bytes
unfolding base64_encode decode_from
decode-base64_encode [] = refl
decode-base64_encode (n ∷ bytes) =
    let e : 0 + n ≡ n = omega arith in
    decode_from-unary 0 n (base64_encode bytes) bytes (decode-base64_encode bytes)
    ∙ ap (λ k. ok (k ∷ bytes)) e

pub length-sign : (key m : Bytes) → length (sign key m) ≡ 64
unfolding sign
length-sign key m = refl

pub verify-sign : (key m : Bytes) → verify key m (sign key m) ≡ ok tt
unfolding verify
verify-sign key m = rw (text_eq_refl (sign key m)) refl

pub decode_from-ne-panic : (n : ℕ) (t e : Text) → ¬ (decode_from n t ≡ panic e)
unfolding decode_from
decode_from-ne-panic n [] e h = cc
decode_from-ne-panic n (a ∷ []) e h = cc
decode_from-ne-panic n (a ∷ b ∷ []) e h = cc
decode_from-ne-panic n (a ∷ b ∷ c ∷ []) e h = cc
decode_from-ne-panic n (a ∷ b ∷ c ∷ d ∷ t) e h =
    ground (arith, decode_from-ne-panic (suc n) t e, decode_from-ne-panic 0 t e)

pub verify-ne-panic : (key m sig : Bytes) (e : Text) → ¬ (verify key m sig ≡ panic e)
unfolding verify
verify-ne-panic key m sig e h = ground arith

pub from_slice-ne-panic :
    (document : Bytes) (parsed : Value) (bytes : Bytes) (e : Text)
    → ¬ ((toy document parsed).from_slice bytes ≡ panic e)
from_slice-ne-panic document parsed bytes e h = ground arith

pub encoded-IsStandard : (bytes : Bytes) → All IsStandard (base64_encode bytes)
encoded-IsStandard =
    All-base64_encode IsStandard (λ e. ground arith, λ e. ground arith)
      (λ e. ground arith, λ e. ground arith)
