-- ===== src/Dsse/Verify/Panics.antt =====
-- crates/aep-core/src/dsse.rs: the panics of `verify_record_dsse`.
use wasmagent_proxy.Base.{
  ◌≡◌, ◌↔◌, inl, inr, some, Text, Bytes, codes, ok, panic, List-cases, Option-cases, Result-cases,
  arith,
}
use wasmagent_proxy.Json.{Value, Items, cons, index, as_array, Crates}
use wasmagent_proxy.Evidence.{AepRecord, DsseEnvelope}
use wasmagent_proxy.Dsse.Pae.{in_toto_payload_type, pae_encode}
use wasmagent_proxy.Dsse.Sign.{subject_name, payload_digest}
use wasmagent_proxy.Dsse.Verify.{
  normalize, check_types, check_subject, check_count, decode_base64_lenient, open_envelope,
  verify_record_dsse,
}
use wasmagent_proxy.Dsse.Verify.Binding.{IsTyped, types_iff}
use wasmagent_proxy.Dsse.Verify.Missing.{
  no_entry, IsUndigested, check_types-ne-panic, check_subject-panic, undigested-panics,
}

module _ (x : Crates) where
  -- The envelope opens to a typed statement, whose first subject has the name of the run and no
  -- SHA-256 digest.
  pub record IsUnbound (r : AepRecord) (key : Bytes) : Type 0 where
    pub envelope : DsseEnvelope
    pub attached : r.dsse_envelope ≡ some envelope
    pub statement : Value
    pub opens : open_envelope x envelope key ≡ ok statement
    pub typed : IsTyped statement
    pub subject : Value
    pub subjects : Items
    pub listed : as_array (index statement (codes "subject")) ≡ some (cons subject subjects)
    pub undigested : IsUndigested (subject_name r.run_id) subject

  module _ (decodes : (t e : Text) → ¬ (x.base64_decode t ≡ panic e))
      (verifies : (key m sig : Bytes) (e : Text) → ¬ (x.verify key m sig ≡ panic e))
      (parses : (b : Bytes) (e : Text) → ¬ (x.from_slice b ≡ panic e)) where
    open_envelope-ne-panic :
        (envelope : DsseEnvelope) (key : Bytes) (e : Text)
        → ¬ (open_envelope x envelope key ≡ panic e)
    unfolding open_envelope check_count decode_base64_lenient
    open_envelope-ne-panic envelope key e h = elim (List-cases envelope.signatures) [
      | inl none_there ↦ ground arith
      | inr (s, rest, one) ↦ elim (Result-cases (x.base64_decode envelope.payload)) [
        | inl (bytes, payload) ↦ elim (Result-cases (x.base64_decode (normalize s.sig))) [
          | inl (sig, decoded) ↦
              ground
                (arith, verifies key (pae_encode in_toto_payload_type bytes) sig e, parses bytes e)
          | inr failed ↦ ground (arith, decodes (normalize s.sig) e)
        ]
        | inr failed ↦ ground (arith, decodes envelope.payload e)
      ]
    ]

    -- If base64 decoding, signature verification and JSON parsing do not panic, verification panics
    -- exactly for a record whose envelope opens to a typed statement whose first subject has the name
    -- of the run and, for its digest, an object without a "sha256" entry: it does not return the
    -- error that the digest is missing. The message is the one of the index.
    pub verify-panic_iff :
        (r : AepRecord) (key : Bytes) (e : Text)
        → (verify_record_dsse x r key ≡ panic e) ↔ ((e ≡ no_entry) × IsUnbound r key)
    unfolding verify_record_dsse payload_digest
    verify-panic_iff r key e = (sound, complete)
      where
        sound : verify_record_dsse x r key ≡ panic e → (e ≡ no_entry) × IsUnbound r key
        sound h = elim (Option-cases r.dsse_envelope) [
          | inl absent ↦ ground arith
          | inr (envelope, attached) ↦ elim (Result-cases (open_envelope x envelope key)) [
            | inl (statement, opens) ↦ elim (Result-cases (check_types statement)) [
              | inl (_, typed) ↦
                  let unbound : check_subject statement (subject_name r.run_id) (payload_digest x r)
                      ≡ panic e =
                    ground arith in
                  let (said, subject, subjects, listed, undigested) =
                    check_subject-panic statement _ _ e unbound in
                  (
                    said,
                    record {
                      envelope = envelope;
                      attached = attached;
                      statement = statement;
                      opens = opens;
                      typed = (types_iff statement).0 typed;
                      subject = subject;
                      subjects = subjects;
                      listed = listed;
                      undigested = undigested;
                    },
                  )
              | inr (inl (m, failed)) ↦ ground arith
              | inr (inr (m, failed)) ↦ absurd (check_types-ne-panic statement m failed)
            ]
            | inr (inl (m, failed)) ↦ ground arith
            | inr (inr (m, failed)) ↦ absurd (open_envelope-ne-panic envelope key m failed)
          ]
        ]

        complete : (e ≡ no_entry) × IsUnbound r key → verify_record_dsse x r key ≡ panic e
        complete (said, u) =
            let typed = (types_iff u.statement).1 u.typed in
            let unbound =
              undigested-panics u.statement u.subject u.subjects (subject_name r.run_id)
                (payload_digest x r) u.listed u.undigested in
            rw (said, u.attached, u.opens, typed) unbound
