-- ===== src/Emitter/Delivery.antt =====
-- crates/proxy-wasm-evidence/src/emitter.rs and crates/aep-core/src/evidence.rs: an emitted record
-- after it was written and read by another party.
use wasmagent_proxy.Base.{
  ℕ, ◌^◌, ltb, Text, true, ◌≡◌, refl, sym, ap, ◌∙◌, subst, some, List, Bytes, codes, All, ok,
  as_bytes,
}
use wasmagent_proxy.Json.{field, end, string, compare_units, Crates}
use wasmagent_proxy.Json.Readable.{is_readable, is_readable_more, items_readable}
use wasmagent_proxy.Json.Order.{AreFields}
use wasmagent_proxy.Evidence.Rendered.{IsPlain, record-IsWellFormed}
use wasmagent_proxy.Dsse.Canonical.Renders.{Renders}
use wasmagent_proxy.Json.Slots.Named.{Apart-end, Apart-field}
use wasmagent_proxy.Json.Lookup.{is_listed}
use wasmagent_proxy.Evidence.{ActionEvidence, AepRecord}
use wasmagent_proxy.Evidence.Serialize.{record_to_value, action_to_value, envelope_to_value, items}
use wasmagent_proxy.Evidence.Deserialize.{record_names, record_from_value}
use wasmagent_proxy.Evidence.Deserialize.RoundTrip.{IsForeign, record-read_back}
use wasmagent_proxy.Dsse.Canonical.{canonical_json}
use wasmagent_proxy.Dsse.Sign.{sign_envelope, strip, sha256_hex, payload_digest}
use wasmagent_proxy.Dsse.Verify.{verify_record_dsse}
use wasmagent_proxy.Dsse.Sign.Statement.{IsParsed, Parses, from_slice-statement}
use wasmagent_proxy.Dsse.Verify.Signed.{Documented}
use wasmagent_proxy.Emitter.{EmitterIdentity, assemble, assemble_and_sign}
use wasmagent_proxy.Emitter.Binding.{emitted, emitted_only, emitted_verifies}

-- The record that is read: its identity source is a field and no other entry.
abbrev pub delivered : AepRecord → EmitterIdentity → AepRecord
delivered r identity = record r {
  identity_source = some (codes "self_asserted");
  extra = field (codes "claimed_agent_id") (string identity.agent_id) end;
}

-- What the evidence and the time stamp have to be for a record of them to be read back.
pub record IsSendable (evidence : List ActionEvidence) (ts : ℕ) : Type 0 where
  pub plain : All IsPlain evidence
  pub foreign : All IsForeign evidence
  pub actions : items_readable 124 (items action_to_value evidence) ≡ true
  pub clock : ltb ts (2 ^ 64) ≡ true

module _ (x : Crates) (evidence : List ActionEvidence) (identity : EmitterIdentity) (ts : ℕ)
    (key : Bytes) where
  same_value :
      record_to_value (emitted x evidence identity ts key)
      ≡ record_to_value (delivered (emitted x evidence identity ts key) identity)
  unfolding record_to_value assemble
  same_value = refl

  same_signed :
      record_to_value (strip (emitted x evidence identity ts key))
      ≡ record_to_value (strip (delivered (emitted x evidence identity ts key) identity))
  unfolding record_to_value assemble
  same_signed = refl

  same_digest :
      payload_digest x (delivered (emitted x evidence identity ts key) identity)
      ≡ payload_digest x (emitted x evidence identity ts key)
  unfolding payload_digest
  same_digest = ap (λ v. sha256_hex x (as_bytes (canonical_json x v))) (sym same_signed)

  same_verdict :
      (verifying_key : Bytes)
      → verify_record_dsse x (delivered (emitted x evidence identity ts key) identity) verifying_key
        ≡ verify_record_dsse x (emitted x evidence identity ts key) verifying_key
  unfolding verify_record_dsse
  same_verdict verifying_key = rw same_digest refl

  read_back :
      All IsForeign evidence
      → record_from_value (record_to_value (emitted x evidence identity ts key))
        ≡ some (delivered (emitted x evidence identity ts key) identity)
  unfolding assemble is_listed
  read_back foreign =
      ap record_from_value same_value
      ∙ record-read_back (delivered (emitted x evidence identity ts key) identity) (tt, tt)
          (Apart-field record_names (codes "claimed_agent_id") (string identity.agent_id) end refl
            (Apart-end record_names))
          foreign

  claims-AreFields : AreFields (emitted x evidence identity ts key).extra
  unfolding assemble AreFields compare_units
  claims-AreFields = (refl, tt, (tt, tt, tt))

  emitted_readable :
      IsSendable evidence ts
      → is_readable 126 (record_to_value (emitted x evidence identity ts key)) ≡ true
  unfolding is_readable record_to_value assemble envelope_to_value sign_envelope
  emitted_readable sendable = rw (sendable.clock, sendable.actions) refl

  pub emitted-IsParsed : IsSendable evidence ts → IsParsed (emitted x evidence identity ts key)
  unfolding is_readable record_to_value assemble
  emitted-IsParsed sendable = record {
    extra = claims-AreFields;
    actions = sendable.plain;
    readable = rw (sendable.clock, sendable.actions) refl;
  }

  pub verify-emitted :
      (verifying_key : Bytes)
      → Documented x key verifying_key
      → IsSendable evidence ts
      → assemble_and_sign x evidence identity ts key ≡ ok (emitted x evidence identity ts key)
      → verify_record_dsse x (emitted x evidence identity ts key) verifying_key ≡ ok tt
  verify-emitted vk d sendable h =
      emitted_verifies x evidence identity ts key vk (emitted x evidence identity ts key) d.decodes
        d.standard d.padded d.sized d.verifies
        (from_slice-statement x _ d.parses (emitted-IsParsed sendable)) h

  from_slice-emitted :
      Parses x
      → IsSendable evidence ts
      → (t : Text) → Renders x (record_to_value (emitted x evidence identity ts key)) t
      → x.from_slice (as_bytes t) ≡ ok (record_to_value (emitted x evidence identity ts key))
  unfolding assemble
  from_slice-emitted parses sendable t written =
      parses (record_to_value (emitted x evidence identity ts key)) t
        (record-IsWellFormed (emitted x evidence identity ts key) claims-AreFields sendable.plain)
        (is_readable_more 126 (record_to_value (emitted x evidence identity ts key))
          (emitted_readable sendable))
        written

  -- An emitted record verifies, and so does what another party reads of it. Let base64, Ed25519 and
  -- the parser of serde_json do what they document, let the extra fields of the evidence and of its
  -- decisions be in the order of their keys, without `Null`, and none have the name of a field, let
  -- an action's JSON value have at most 124 levels, integers of 64 bits and no floating-point number,
  -- and let the time stamp have 64 bits. Then each JSON text of the record without whitespace, with
  -- its members in any order, is read as the record's JSON value, which deserializes to a record that
  -- verifies. It is the emitted record but for its identity source, which is a field of what is read
  -- and an extra entry of what is emitted.
  pub delivered_verifies :
      (verifying_key : Bytes) (r : AepRecord) (t : Text)
      → Documented x key verifying_key
      → IsSendable evidence ts
      → assemble_and_sign x evidence identity ts key ≡ ok r
      → Renders x (record_to_value r) t
      → (verify_record_dsse x r verifying_key ≡ ok tt)
        × (x.from_slice (as_bytes t) ≡ ok (record_to_value r))
        × (record_from_value (record_to_value r) ≡ some (delivered r identity))
        × (verify_record_dsse x (delivered r identity) verifying_key ≡ ok tt)
  delivered_verifies vk r t d sendable h written =
      let only = emitted_only x evidence identity ts key r h in
      let verdict =
        verify-emitted vk d sendable
          (subst (λ r. assemble_and_sign x evidence identity ts key ≡ ok r) only h) in
      let text = subst (λ r. Renders x (record_to_value r) t) only written in
      subst
        (λ r.
          (verify_record_dsse x r vk ≡ ok tt)
          × (x.from_slice (as_bytes t) ≡ ok (record_to_value r))
          × (record_from_value (record_to_value r) ≡ some (delivered r identity))
          × (verify_record_dsse x (delivered r identity) vk ≡ ok tt))
        (sym only)
        (
          verdict,
          from_slice-emitted d.parses sendable t text,
          read_back sendable.foreign,
          same_verdict vk ∙ verdict,
        )
