-- ===== src/Dsse/Verify/RoundTrip.antt =====
-- crates/aep-core/src/dsse.rs: `verify_record_dsse` on what `sign_record_dsse` leaves.
use wasmagent_proxy.Base.{
  ℕ, ◌%◌, ◌≡◌, ◌≢◌, inl, inr, refl, none, some, [], ◌∷◌, map, append-nil, Text, Bytes, text_eq,
  byte_len, length, ok, All, arith,
}
use wasmagent_proxy.Json.{Value, Crates, index}
use wasmagent_proxy.Evidence.{AepRecord}
use wasmagent_proxy.Dsse.Pae.{in_toto_payload_type, pae_encode}
use wasmagent_proxy.Dsse.Sign.{
  subject_name, payload_digest, wrap_in_toto_statement, statement, statement_bytes,
  encode_signature, sign_envelope, sign_record_dsse,
}
use wasmagent_proxy.Dsse.Sign.Floor.{sign_iff_IsGraded}
use wasmagent_proxy.Dsse.Verify.{to_standard, padding, normalize, verify_record_dsse}
use wasmagent_proxy.Dsse.Verify.Opens.{Opens}
use wasmagent_proxy.Dsse.Verify.Accepted.{verify_iff}
use wasmagent_proxy.Dsse.Verify.Binding.{IsTyped, Binds}

-- A character of the standard alphabet of base64 is neither of the two that only the URL-safe one
-- has.
abbrev pub IsStandard : ℕ → Type 0
IsStandard c = (c ≢ b'-') × (c ≢ b'_')

to_standard_id : (t : Text) → All IsStandard t → map to_standard t ≡ t
to_standard_id [] a = refl
to_standard_id (c ∷ t) (a, rest) = ground (arith, to_standard_id t rest)

pub normalize_id : (t : Text) → All IsStandard t → byte_len t % 4 ≡ 0 → normalize t ≡ t
unfolding normalize padding
normalize_id t a e = rw (to_standard_id t a, e) (append-nil t)

pub wrapped-IsTyped :
    (v : Value) (run_id digest : Text) → IsTyped (wrap_in_toto_statement v run_id digest)
unfolding wrap_in_toto_statement index text_eq
wrapped-IsTyped v run_id digest = (refl, refl)

pub wrapped-Binds :
    (v : Value) (run_id digest : Text)
    → Binds (wrap_in_toto_statement v run_id digest) (subject_name run_id) digest
unfolding wrap_in_toto_statement index text_eq
wrapped-Binds v run_id digest = (refl, refl)

module _ (x : Crates) where
  pub envelope-Opens :
      (r : AepRecord) (key verifying_key : Bytes) (key_id : Text)
      → ((b : Bytes) → x.base64_decode (x.base64_encode b) ≡ ok b)
      → ((b : Bytes) → All IsStandard (x.base64_encode b))
      → ((b : Bytes) → byte_len (x.base64_encode b) % 4 ≡ 0)
      → ((m : Bytes) → length (x.sign key m) ≡ 64)
      → ((m : Bytes) → x.verify verifying_key m (x.sign key m) ≡ ok tt)
      → x.from_slice (statement_bytes x r) ≡ ok (statement x r)
      → Opens x (sign_envelope x r key key_id) verifying_key (statement x r)
  unfolding sign_envelope encode_signature
  envelope-Opens r key verifying_key key_id decodes standard padded sized verifies parses =
      let sig = x.sign key (pae_encode in_toto_payload_type (statement_bytes x r)) in
      record {
        typed = refl;
        signature = record { keyid = key_id; sig = x.base64_encode sig };
        only = refl;
        bytes = statement_bytes x r;
        payload = decodes _;
        sig = sig;
        decoded = rw (normalize_id (x.base64_encode sig) (standard sig) (padded sig)) (decodes sig);
        size = sized _;
        signed = verifies _;
        parsed = parses;
      }

  abbrev signed_record : AepRecord → Bytes → Text → AepRecord
  signed_record r key key_id = record r {
    signature = none;
    dsse_envelope = some (sign_envelope x r key key_id);
  }

  -- A record that is signed verifies: if base64 decodes what it encodes, and encodes to a text of
  -- the standard alphabet whose length is a multiple of 4, if the signatures of the key have 64
  -- bytes and the verifying key accepts them, and if the bytes of the record's statement parse to
  -- that statement, then verification of the record that a successful signing leaves succeeds.
  pub signed_verifies :
      (r : AepRecord) (key verifying_key : Bytes) (key_id : Text)
      → ((b : Bytes) → x.base64_decode (x.base64_encode b) ≡ ok b)
      → ((b : Bytes) → All IsStandard (x.base64_encode b))
      → ((b : Bytes) → byte_len (x.base64_encode b) % 4 ≡ 0)
      → ((m : Bytes) → length (x.sign key m) ≡ 64)
      → ((m : Bytes) → x.verify verifying_key m (x.sign key m) ≡ ok tt)
      → x.from_slice (statement_bytes x r) ≡ ok (statement x r)
      → (sign_record_dsse x r key key_id).1 ≡ ok tt
      → verify_record_dsse x (sign_record_dsse x r key key_id).0 verifying_key ≡ ok tt
  unfolding statement wrap_in_toto_statement payload_digest
  signed_verifies r key verifying_key key_id decodes standard padded sized verifies parses signed =
      elim (sign_iff_IsGraded x r key key_id).1 [
        | inl e ↦ rw e (
            (verify_iff x (signed_record r key key_id) verifying_key).1 (record {
              envelope = sign_envelope x r key key_id;
              attached = refl;
              statement = statement x r;
              opens =
                  envelope-Opens r key verifying_key key_id decodes standard padded sized verifies
                    parses;
              typed = wrapped-IsTyped _ _ _;
              binds = wrapped-Binds _ r.run_id (payload_digest x r);
            }))
        | inr (m, e) ↦ cc
      ]
