-- ===== src/Dsse/Verify/Opens.antt =====
-- crates/aep-core/src/dsse.rs: which envelopes open, and to which statement.
use wasmagent_proxy.Base.{
  ◌≡◌, ◌↔◌, inl, inr, refl, List, [], ◌∷◌, Bytes, text_eq_iff, length, ok, Result-cases, arith,
}
use wasmagent_proxy.Json.{Value, Crates}
use wasmagent_proxy.Evidence.{DsseEnvelope, DsseSignature}
use wasmagent_proxy.Dsse.Pae.{in_toto_payload_type, pae_encode}
use wasmagent_proxy.Dsse.Verify.{normalize, check_count, decode_base64_lenient, open_envelope}

module _ (x : Crates) where
  -- The envelope has the in-toto type and one signature, which covers the encoding of its payload,
  -- and the payload parses to the statement.
  pub record Opens (envelope : DsseEnvelope) (key : Bytes) (statement : Value) : Type 0 where
    pub typed : envelope.payload_type ≡ in_toto_payload_type
    pub signature : DsseSignature
    pub only : envelope.signatures ≡ signature ∷ []
    pub bytes : Bytes
    pub payload : x.base64_decode envelope.payload ≡ ok bytes
    pub sig : Bytes
    pub decoded : x.base64_decode (normalize signature.sig) ≡ ok sig
    pub size : length sig ≡ 64
    pub signed : x.verify key (pae_encode in_toto_payload_type bytes) sig ≡ ok tt
    pub parsed : x.from_slice bytes ≡ ok statement

  count_one :
      (ss : List DsseSignature)
      → check_count (length ss) ≡ ok tt
      → (s : DsseSignature) × (ss ≡ s ∷ [])
  unfolding check_count
  count_one [] h = cc
  count_one (s ∷ []) h = (s, refl)
  count_one (s ∷ t ∷ ss) h = ground arith

  open_sound :
      (envelope : DsseEnvelope) (key : Bytes) (statement : Value)
      → open_envelope x envelope key ≡ ok statement
      → Opens envelope key statement
  unfolding open_envelope decode_base64_lenient
  open_sound envelope key statement h =
      let counted : check_count (length envelope.signatures) ≡ ok tt = ground arith in
      let (s, one) = count_one envelope.signatures counted in
      elim (Result-cases (x.base64_decode envelope.payload)) [
        | inl (bytes, e) ↦ elim (Result-cases (x.base64_decode (normalize s.sig))) [
          | inl (sig, d) ↦ record {
            typed = ground (arith, text_eq_iff envelope.payload_type in_toto_payload_type);
            signature = s;
            only = one;
            bytes = bytes;
            payload = e;
            sig = sig;
            decoded = d;
            size = ground arith;
            signed = ground arith;
            parsed = ground arith;
          }
          | inr failed ↦ ground arith
        ]
        | inr failed ↦ ground arith
      ]

  open_complete :
      (envelope : DsseEnvelope) (key : Bytes) (statement : Value)
      → Opens envelope key statement
      → open_envelope x envelope key ≡ ok statement
  unfolding open_envelope decode_base64_lenient check_count
  open_complete envelope key statement o =
      ground (arith, text_eq_iff envelope.payload_type in_toto_payload_type)

  pub open_iff :
      (envelope : DsseEnvelope) (key : Bytes) (statement : Value)
      → (open_envelope x envelope key ≡ ok statement) ↔ Opens envelope key statement
  open_iff envelope key statement =
      (open_sound envelope key statement, open_complete envelope key statement)
