-- ===== src/Dsse/Verify/Accepted.antt =====
-- crates/aep-core/src/dsse.rs: the records that `verify_record_dsse` accepts.
use wasmagent_proxy.Base.{
  ◌≡◌, ◌↔◌, inl, inr, sym, ap, subst, ◌∙◌, some, [], ◌∷◌, ◌++◌, Text, Bytes, codes, Result, ok,
  ◌>>◌, Option-cases, some-injective, Result-cases, arith,
}
use wasmagent_proxy.Json.{Value, Crates}
use wasmagent_proxy.Evidence.{AepRecord, DsseEnvelope}
use wasmagent_proxy.Dsse.Sign.{subject_name, payload_digest}
use wasmagent_proxy.Dsse.Verify.{check_types, check_subject, open_envelope, verify_record_dsse}
use wasmagent_proxy.Dsse.Verify.Opens.{Opens, open_iff}
use wasmagent_proxy.Dsse.Verify.Binding.{
  both_iff, IsTyped, types_iff, Binds, subject_iff, subject_unique,
}

ok-injective : {A : Type 0} (a b : A) → ok a ≡ ok b → a ≡ b
ok-injective a b e = cc

++-cancel_left : (p s t : Text) → p ++ s ≡ p ++ t → s ≡ t
++-cancel_left [] s t e = e
++-cancel_left (c ∷ p) s t e = ++-cancel_left p s t (cc e)

module _ (x : Crates) where
  Opens-unique :
      {envelope other : DsseEnvelope} {statement other_statement : Value} (key other_key : Bytes)
      → envelope ≡ other
      → Opens x envelope key statement
      → Opens x other other_key other_statement
      → statement ≡ other_statement
  Opens-unique key other_key e a b =
      let payloads = ap (λ v. x.base64_decode v.payload) e in
      let bytes = ok-injective _ _ (sym a.payload ∙ (payloads ∙ b.payload)) in
      ok-injective _ _ (sym a.parsed ∙ (ap x.from_slice bytes ∙ b.parsed))

  -- The record carries an envelope that opens to a typed statement, whose first subject has the name
  -- of the record's run and the digest of the record's canonical form.
  pub record IsAccepted (r : AepRecord) (key : Bytes) : Type 0 where
    pub envelope : DsseEnvelope
    pub attached : r.dsse_envelope ≡ some envelope
    pub statement : Value
    pub opens : Opens x envelope key statement
    pub typed : IsTyped statement
    pub binds : Binds statement (subject_name r.run_id) (payload_digest x r)

  abbrev judge : AepRecord → Value → Result (Unit {0})
  judge r statement = do
    check_types statement
    check_subject statement (subject_name r.run_id) (payload_digest x r)

  judge_iff :
      (r : AepRecord) (statement : Value)
      → (judge r statement ≡ ok tt)
        ↔ (IsTyped statement × Binds statement (subject_name r.run_id) (payload_digest x r))
  judge_iff r statement =
      both_iff _ _ _ _ (types_iff statement)
        (subject_iff statement (subject_name r.run_id) (payload_digest x r))

  -- Verification succeeds exactly for a record that carries an envelope of the in-toto type with one
  -- signature, of 64 bytes, which the key accepts for the encoding of the decoded payload, and whose
  -- payload parses to a statement of the in-toto and the AEP predicate type, of which the first
  -- subject has the name of the record's run and the digest of the record's canonical form.
  pub verify_iff :
      (r : AepRecord) (key : Bytes) → (verify_record_dsse x r key ≡ ok tt) ↔ IsAccepted r key
  unfolding verify_record_dsse
  verify_iff r key = (sound, complete)
    where
      sound : verify_record_dsse x r key ≡ ok tt → IsAccepted r key
      sound h = elim (Option-cases r.dsse_envelope) [
        | inl absent ↦ ground arith
        | inr (envelope, e) ↦ elim (Result-cases (open_envelope x envelope key)) [
          | inl (statement, o) ↦
              let (typed, binds) = (judge_iff r statement).0 (ground arith) in
              record {
                envelope = envelope;
                attached = e;
                statement = statement;
                opens = (open_iff x envelope key statement).0 o;
                typed = typed;
                binds = binds;
              }
          | inr failed ↦ ground arith
        ]
      ]

      complete : IsAccepted r key → verify_record_dsse x r key ≡ ok tt
      complete a =
          let opened = (open_iff x a.envelope key a.statement).1 a.opens in
          let judged = (judge_iff r a.statement).1 (a.typed, a.binds) in ground arith

  -- Two records accepted with the same envelope, under whatever keys, belong to the same run and
  -- have canonical forms of the same digest.
  pub envelope_binds_record :
      (r s : AepRecord) (key other : Bytes)
      → verify_record_dsse x r key ≡ ok tt
      → verify_record_dsse x s other ≡ ok tt
      → r.dsse_envelope ≡ s.dsse_envelope
      → (r.run_id ≡ s.run_id) × (payload_digest x r ≡ payload_digest x s)
  envelope_binds_record r s key other h k same =
      let a = (verify_iff r key).0 h in
      let b = (verify_iff s other).0 k in
      let one : some a.envelope ≡ some b.envelope = sym a.attached ∙ (same ∙ b.attached) in
      let agreed = Opens-unique key other (some-injective _ _ one) a.opens b.opens in
      let (name, digest) =
        subject_unique _ _ _ _ _
          (subst (λ v. Binds v (subject_name r.run_id) (payload_digest x r)) agreed a.binds)
          b.binds in
      (++-cancel_left (codes "urn:wasmagent:run:") r.run_id s.run_id name, digest)
