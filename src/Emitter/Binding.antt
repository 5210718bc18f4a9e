-- ===== src/Emitter/Binding.antt =====
-- crates/proxy-wasm-evidence/src/emitter.rs: when a record is emitted and what it binds.
use wasmagent_proxy.Base.{
  ℕ, ◌%◌, ◌≡◌, ◌≢◌, ◌⊎◌, ◌↔◌, sym, ap, subst, inl, inr, refl, false, Bool-cases, none, some, List,
  [], ◌∷◌, ◌++◌, Text, Bytes, codes, is_blank, byte_len, length, All, ok, err, text_eq,
}
use wasmagent_proxy.Json.{string, get, Crates}
use wasmagent_proxy.Evidence.{ActionEvidence, AepRecord}
use wasmagent_proxy.Dsse.Sign.{
  sign_envelope, sign_record_dsse, check_grading, statement, statement_bytes, payload_digest,
}
use wasmagent_proxy.Dsse.Verify.{verify_record_dsse}
use wasmagent_proxy.Dsse.Verify.RoundTrip.{IsStandard, signed_verifies}
use wasmagent_proxy.Emitter.{EmitterIdentity, assemble, assemble_and_sign}

module _ (x : Crates) where
  -- What signing makes of an assembled record.
  abbrev pub emitted : List ActionEvidence → EmitterIdentity → ℕ → Bytes → AepRecord
  emitted evidence identity ts key =
      let r = assemble evidence identity ts in
      record r { dsse_envelope = some (sign_envelope x r key identity.key_id) }

  sign-assemble :
      (evidence : List ActionEvidence) (identity : EmitterIdentity) (ts : ℕ) (key : Bytes)
      → sign_record_dsse x (assemble evidence identity ts) key identity.key_id
        ≡ (emitted evidence identity ts key, ok tt)
  unfolding sign_record_dsse check_grading assemble
  sign-assemble evidence identity ts key = refl

  -- A record is emitted exactly when there is evidence and the trace identifier is not blank. It is
  -- then the assembled record with its envelope, and otherwise the result is an error.
  pub emits_iff :
      (evidence : List ActionEvidence) (identity : EmitterIdentity) (ts : ℕ) (key : Bytes)
      → ((assemble_and_sign x evidence identity ts key ≡ ok (emitted evidence identity ts key))
          ↔ ((evidence ≢ []) × (is_blank identity.trace_id ≡ false)))
        × ((assemble_and_sign x evidence identity ts key ≡ ok (emitted evidence identity ts key))
            ⊎ (e : Text) × (assemble_and_sign x evidence identity ts key ≡ err e))
  unfolding assemble_and_sign
  emits_iff [] identity ts key = ((λ h. cc, λ (there, _). absurd (there refl)), inr (_, refl))
  emits_iff (a ∷ evidence) identity ts key = elim (Bool-cases (is_blank identity.trace_id)) [
    | inl blank ↦ rw blank ((λ h. cc, λ (_, h). cc), inr (_, refl))
    | inr named ↦
        rw (named, sign-assemble (a ∷ evidence) identity ts key)
          ((λ h. (λ e. cc, refl), λ h. refl), inl refl)
  ]

  pub emitted_only :
      (evidence : List ActionEvidence) (identity : EmitterIdentity) (ts : ℕ) (key : Bytes)
      (r : AepRecord)
      → assemble_and_sign x evidence identity ts key ≡ ok r
      → r ≡ emitted evidence identity ts key
  emitted_only evidence identity ts key r h = elim (emits_iff evidence identity ts key).1 [
    | inl e ↦ cc
    | inr (m, e) ↦ cc
  ]

  -- An emitted record has the trace identifier and a run identifier that is made of it, the evidence
  -- and the time stamp it was given, the claimed agent, which is marked as self-asserted, and no
  -- user.
  pub emitted_binds :
      (evidence : List ActionEvidence) (identity : EmitterIdentity) (ts : ℕ) (key : Bytes)
      (r : AepRecord)
      → assemble_and_sign x evidence identity ts key ≡ ok r
      → (r.run_id ≡ codes "gw-" ++ identity.trace_id)
        × (r.trace_id ≡ some identity.trace_id)
        × (r.actions ≡ evidence)
        × (r.created_at_ms ≡ ts)
        × (get r.extra (codes "claimed_agent_id") ≡ some (string identity.agent_id))
        × (get r.extra (codes "identity_source") ≡ some (string (codes "self_asserted")))
        × (r.user_id ≡ none)
  unfolding assemble text_eq get
  emitted_binds evidence identity ts key r h =
      rw (emitted_only evidence identity ts key r h) (refl, refl, refl, refl, refl, refl, refl)

  statement-emitted :
      (evidence : List ActionEvidence) (identity : EmitterIdentity) (ts : ℕ) (key : Bytes)
      → statement x (emitted evidence identity ts key) ≡ statement x (assemble evidence identity ts)
  unfolding statement payload_digest assemble
  statement-emitted evidence identity ts key = refl

  -- An emitted record verifies: if base64 decodes what it encodes, and encodes to a text of the
  -- standard alphabet whose length is a multiple of 4, if the signatures of the key have 64 bytes
  -- and the verifying key accepts them, and if the bytes of the record's statement parse to that
  -- statement.
  pub emitted_verifies :
      (evidence : List ActionEvidence) (identity : EmitterIdentity) (ts : ℕ)
      (key verifying_key : Bytes) (r : AepRecord)
      → ((b : Bytes) → x.base64_decode (x.base64_encode b) ≡ ok b)
      → ((b : Bytes) → All IsStandard (x.base64_encode b))
      → ((b : Bytes) → byte_len (x.base64_encode b) % 4 ≡ 0)
      → ((m : Bytes) → length (x.sign key m) ≡ 64)
      → ((m : Bytes) → x.verify verifying_key m (x.sign key m) ≡ ok tt)
      → x.from_slice (statement_bytes x r) ≡ ok (statement x r)
      → assemble_and_sign x evidence identity ts key ≡ ok r
      → verify_record_dsse x r verifying_key ≡ ok tt
  unfolding statement_bytes
  emitted_verifies evidence identity ts key vk r decodes standard padded sized verifies parses h =
      let only = emitted_only evidence identity ts key r h in
      let signed = sign-assemble evidence identity ts key in
      let parses : x.from_slice (statement_bytes x (emitted evidence identity ts key))
          ≡ ok (statement x (emitted evidence identity ts key)) =
        subst (λ r. x.from_slice (statement_bytes x r) ≡ ok (statement x r)) only parses in
      let done =
        signed_verifies x (assemble evidence identity ts) key vk identity.key_id decodes standard
          padded sized verifies (rw (sym (statement-emitted evidence identity ts key)) parses)
          (ap (λ p. p.1) signed) in
      rw only (subst (λ p. verify_record_dsse x p.0 vk ≡ ok tt) signed done)
