-- ===== src/Dsse/Verify/Tampered.antt =====
-- crates/aep-core/src/dsse.rs: `verify_record_dsse` on any record that carries the envelope of a
-- signed one.
use wasmagent_proxy.Base.{
  ◌≡◌, ◌↔◌, ◌≢◌, true, ◌⊎◌, inl, inr, refl, sym, ap, ◌∙◌, subst, none, some, Text, Bytes, as_bytes,
  Result, ok, err, ◌>>◌, text_eq, Bool-cases,
}
use wasmagent_proxy.Base.Asserts.{is_err}
use wasmagent_proxy.Json.{Value, Crates, index}
use wasmagent_proxy.Evidence.{AepRecord}
use wasmagent_proxy.Evidence.Serialize.{record_to_value}
use wasmagent_proxy.Dsse.Canonical.{canonical_json}
use wasmagent_proxy.Dsse.Sign.{
  strip, subject_name, sha256_hex, payload_digest, wrap_in_toto_statement, statement, sign_envelope,
  sign_record_dsse,
}
use wasmagent_proxy.Dsse.Sign.Floor.{sign_iff_IsGraded}
use wasmagent_proxy.Dsse.Sign.Statement.{IsParsed, from_slice-statement}
use wasmagent_proxy.Dsse.Verify.{
  expect_text, check_digest, check_first, check_subject, open_envelope, verify_record_dsse,
}
use wasmagent_proxy.Dsse.Verify.Opens.{open_iff}
use wasmagent_proxy.Dsse.Verify.Binding.{types_iff, subject_iff}
use wasmagent_proxy.Dsse.Verify.Accepted.{envelope_binds_record}
use wasmagent_proxy.Dsse.Verify.RoundTrip.{envelope-Opens, wrapped-IsTyped, wrapped-Binds}
use wasmagent_proxy.Dsse.Verify.Signed.{Documented, signed_record_verifies}

-- It returns, with or without an error.
abbrev pub Returns : Result (Unit {0}) → Type 0
Returns m = (m ≡ ok tt) ⊎ (e : Text) × (m ≡ err e)

Returns-seq : (m k : Result (Unit {0})) → Returns m → Returns k → Returns (m >> k)
Returns-seq m k (inl e) h = rw e h
Returns-seq m k (inr (t, e)) h = rw e (inr (t, refl))

expect_text-Returns :
    (t missing expected : Text) (mismatch : Text → Text)
    → Returns (expect_text (some t) missing expected mismatch)
unfolding expect_text
expect_text-Returns t missing expected mismatch = elim (Bool-cases (text_eq t expected)) [
  | inl e ↦ rw e (inl refl)
  | inr e ↦ rw e (inr (_, refl))
]

check_subject-Returns :
    (v : Value) (run_id digest name other : Text)
    → Returns (check_subject (wrap_in_toto_statement v run_id digest) name other)
unfolding check_subject check_first check_digest wrap_in_toto_statement index text_eq
check_subject-Returns v run_id digest name other =
    Returns-seq _ _ (expect_text-Returns (subject_name run_id) _ name _)
      (expect_text-Returns digest _ other _)

pub is_err-Returns : (m : Result (Unit {0})) → Returns m → m ≢ ok tt → is_err m ≡ true
is_err-Returns m (inl e) refused = absurd (refused e)
is_err-Returns m (inr (t, e)) refused = rw e refl

module _ (x : Crates) (r s : AepRecord) (key verifying_key : Bytes) (key_id : Text)
    (documented : Documented x key verifying_key) (parsed : IsParsed r)
    (signed : (sign_record_dsse x r key key_id).1 ≡ ok tt)
    (same : s.dsse_envelope ≡ (sign_record_dsse x r key key_id).0.dsse_envelope) where
  signs :
      sign_record_dsse x r key key_id
      ≡ (record r { signature = none; dsse_envelope = some (sign_envelope x r key key_id) }, ok tt)
  signs = elim (sign_iff_IsGraded x r key key_id).1 [ inl e ↦ e | inr (m, e) ↦ cc ]

  carried : s.dsse_envelope ≡ some (sign_envelope x r key key_id)
  carried = same ∙ ap (λ p. p.0.dsse_envelope) signs

  opens : open_envelope x (sign_envelope x r key key_id) verifying_key ≡ ok (statement x r)
  opens = (open_iff x (sign_envelope x r key key_id) verifying_key (statement x r)).1 (
      envelope-Opens x r key verifying_key key_id documented.decodes documented.standard
        documented.padded documented.sized documented.verifies
        (from_slice-statement x r documented.parses parsed))

  judged :
      verify_record_dsse x s verifying_key
      ≡ check_subject (statement x r) (subject_name s.run_id) (payload_digest x s)
  unfolding verify_record_dsse statement
  judged = rw (carried, opens, (types_iff (statement x r)).1 (wrapped-IsTyped _ r.run_id _)) refl

  pub carried-Returns : Returns (verify_record_dsse x s verifying_key)
  unfolding statement
  carried-Returns = rw judged (
      check_subject-Returns (record_to_value (strip r)) r.run_id (payload_digest x r)
        (subject_name s.run_id) (payload_digest x s))

  pub carried_binds :
      verify_record_dsse x s verifying_key ≡ ok tt
      → (s.run_id ≡ r.run_id) × (payload_digest x s ≡ payload_digest x r)
  unfolding payload_digest
  carried_binds h =
      envelope_binds_record x s _ verifying_key verifying_key h
        (subst (λ p. verify_record_dsse x p.0 verifying_key ≡ ok tt) signs
          (signed_record_verifies x r key verifying_key key_id documented parsed signed))
        carried

  -- A record that carries the envelope that another was given verifies exactly when it has the run
  -- identifier of the other and the canonical form of what was signed of it, and verification returns
  -- an error otherwise. The other is signed successfully, under the conditions on it and on the
  -- crates under which it verifies, and the two canonical forms have different digests unless they
  -- are equal.
  pub carried_verifies_iff :
      (payload_digest x s ≡ payload_digest x r
        → canonical_json x (record_to_value (strip s))
          ≡ canonical_json x (record_to_value (strip r)))
      → ((verify_record_dsse x s verifying_key ≡ ok tt) ↔ (
          (s.run_id ≡ r.run_id)
          × (canonical_json x (record_to_value (strip s))
              ≡ canonical_json x (record_to_value (strip r)))))
        × Returns (verify_record_dsse x s verifying_key)
  unfolding statement payload_digest
  carried_verifies_iff collides =
      ((λ h. ((carried_binds h).0, collides (carried_binds h).1), complete), carried-Returns)
    where
      complete :
          (s.run_id ≡ r.run_id)
            × (canonical_json x (record_to_value (strip s))
                ≡ canonical_json x (record_to_value (strip r)))
          → verify_record_dsse x s verifying_key ≡ ok tt
      complete (run, text) =
          let digest : payload_digest x s ≡ payload_digest x r =
            ap (λ t. sha256_hex x (as_bytes t)) text in
          let base =
            (subject_iff (statement x r) (subject_name r.run_id) (payload_digest x r)).1
              (wrapped-Binds _ r.run_id _) in
          let named =
            subst (λ n. check_subject (statement x r) (subject_name n) (payload_digest x r) ≡ ok tt)
              (sym run) base in
          judged
          ∙ subst (λ d. check_subject (statement x r) (subject_name s.run_id) d ≡ ok tt)
              (sym digest) named
