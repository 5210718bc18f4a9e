-- ===== src/Pipeline.antt =====
-- crates/proxy-wasm-evidence/src/filter.rs, recorder.rs and emitter.rs together: the evidence that
-- an HTTP context captured, drained from its buffer, as a record that is emitted and delivered.
-- filter.rs does not call the emitter; the comment on `EvidenceSink` says how they go together.
pub mod Sendable
mod Tests
use wasmagent_proxy.Base.{
  ℕ, zero, suc, ◌≡◌, ◌≢◌, ◌<◌, ◌≤◌, ◌-◌, ◌^◌, refl, ap, ◌∙◌, true, false, none, some, Option, List,
  [], ◌∷◌, Text, Bytes, Unicode, ok, length, drop, All, Option-cases, inl, inr, is_blank, ltb,
  as_bytes, arith,
}
use wasmagent_proxy.Json.{Crates}
use wasmagent_proxy.Json.Order.{AreFields}
use wasmagent_proxy.Json.Slots.Named.{Apart-end}
use wasmagent_proxy.Json.Readable.{is_readable, items_readable}
use wasmagent_proxy.McpHeaders.{McpHeaderRisk, classify_mcp_headers}
use wasmagent_proxy.Recording.{RecordingMode, RiskContext}
use wasmagent_proxy.Evidence.{ActionEvidence, AepRecord}
use wasmagent_proxy.Evidence.Serialize.{action_to_value, record_to_value, items}
use wasmagent_proxy.Evidence.Rendered.{IsPlain}
use wasmagent_proxy.Evidence.Deserialize.{action_names, record_from_value}
use wasmagent_proxy.Evidence.Deserialize.RoundTrip.{IsForeign}
use wasmagent_proxy.Dsse.Canonical.Renders.{Renders}
use wasmagent_proxy.Dsse.Verify.{verify_record_dsse}
use wasmagent_proxy.Dsse.Verify.Signed.{Documented}
use wasmagent_proxy.Recorder.Buffer
use wasmagent_proxy.Recorder.Buffer.{EvidenceBuffer}
use wasmagent_proxy.Recorder.Capture.{
  SystemTime, since_epoch, before_epoch, unix_millis, build_evidence,
}
use wasmagent_proxy.Config.{PluginConfig}
use wasmagent_proxy.Filter.{
  Host, EvidenceMetrics, EvidenceFilter, new_filter, evidence_of, current_time_ms,
}
use wasmagent_proxy.Filter.Exchange.{
  entry, entries, exchanges, exchanges_keep_newest, new_filter-buffer, length-entries,
}
use wasmagent_proxy.Emitter.{EmitterIdentity, assemble, assemble_and_sign}
use wasmagent_proxy.Emitter.Binding.{emitted, emits_iff}
use wasmagent_proxy.Emitter.Delivery.{IsSendable, delivered, delivered_verifies}
use wasmagent_proxy.Pipeline.Sendable.{
  ltb_of, sent-IsSendable, All-drop, drop-nonempty, entries-IsSent,
}

new-capacity : (most n : ℕ) (b : EvidenceBuffer) → Buffer.new most n ≡ ok b → 0 < n
unfolding Buffer.new
new-capacity most n b h = ground arith

module _ (u : Unicode) where
  -- What `drain` takes out of the buffer after the exchanges.
  abbrev pub captured : List Host → EvidenceFilter → List ActionEvidence
  captured hosts f = (Buffer.drain (exchanges u hosts f).evidence_buffer).1

  captured-entries :
      (hosts : List Host) (most context_id : ℕ) (config : PluginConfig) (metrics : EvidenceMetrics)
      (f : EvidenceFilter)
      → new_filter most context_id config metrics ≡ ok f
      → captured hosts f ≡ drop (length hosts - config.max_evidence_buffer) (entries u hosts f)
  unfolding Buffer.drain
  captured-entries hosts most context_id config metrics f h =
      (exchanges_keep_newest u hosts most context_id config metrics f h).0

  captured-nonempty :
      (hosts : List Host) (most context_id : ℕ) (config : PluginConfig) (metrics : EvidenceMetrics)
      (f : EvidenceFilter)
      → new_filter most context_id config metrics ≡ ok f
      → 0 < length hosts
      → captured hosts f ≢ []
  captured-nonempty hosts most context_id config metrics f h some_host =
      let room =
        new-capacity most config.max_evidence_buffer f.evidence_buffer
          (new_filter-buffer most context_id config metrics f h) in
      rw (captured-entries hosts most context_id config metrics f h) (
        drop-nonempty (length hosts - config.max_evidence_buffer) (entries u hosts f)
          (rw (length-entries u hosts f) (omega arith)))

  captured-IsSendable :
      (hosts : List Host) (most context_id : ℕ) (config : PluginConfig) (metrics : EvidenceMetrics)
      (f : EvidenceFilter) (ts : ℕ)
      → new_filter most context_id config metrics ≡ ok f
      → ts < 2 ^ 64
      → IsSendable (captured hosts f) ts
  captured-IsSendable hosts most context_id config metrics f ts h clock =
      rw (captured-entries hosts most context_id config metrics f h)
        (sent-IsSendable _ ts (All-drop _ _ (entries-IsSent u hosts f)) (ltb_of ts (2 ^ 64) clock))

  -- The record of what was captured.
  abbrev pub sent : Crates → List Host → EvidenceFilter → EmitterIdentity → ℕ → Bytes → AepRecord
  sent x hosts f identity ts key = emitted x (captured hosts f) identity ts key

  sent-actions :
      (x : Crates) (hosts : List Host) (f : EvidenceFilter) (identity : EmitterIdentity) (ts : ℕ)
      (key : Bytes)
      → (sent x hosts f identity ts key).actions ≡ captured hosts f
  unfolding assemble
  sent-actions x hosts f identity ts key = refl

  -- The whole way of the evidence, without a condition on it. Of a new HTTP context that could be
  -- created, after at least one exchange, whatever the requests and the answers of the host, the
  -- drained evidence is emitted as a record whose actions are the entries of the newest exchanges, as
  -- many as the buffer holds. The record verifies. Each JSON text of it without whitespace, with its
  -- members in any order, is read as its JSON value, which deserializes to a record that verifies: the
  -- emitted one but for its identity source. The trace identifier is not blank, the time stamp has 64
  -- bits, and base64, Ed25519 and the parser of serde_json do what they document.
  pub captured_delivers :
      (x : Crates) (hosts : List Host) (most context_id : ℕ) (config : PluginConfig)
      (metrics : EvidenceMetrics) (f : EvidenceFilter) (identity : EmitterIdentity) (ts : ℕ)
      (key verifying_key : Bytes) (t : Text)
      → Documented x key verifying_key
      → new_filter most context_id config metrics ≡ ok f
      → 0 < length hosts
      → is_blank identity.trace_id ≡ false
      → ts < 2 ^ 64
      → Renders x (record_to_value (sent x hosts f identity ts key)) t
      → (assemble_and_sign x (captured hosts f) identity ts key
          ≡ ok (sent x hosts f identity ts key))
        × ((sent x hosts f identity ts key).actions
            ≡ drop (length hosts - config.max_evidence_buffer) (entries u hosts f))
        × (verify_record_dsse x (sent x hosts f identity ts key) verifying_key ≡ ok tt)
        × (x.from_slice (as_bytes t) ≡ ok (record_to_value (sent x hosts f identity ts key)))
        × (record_from_value (record_to_value (sent x hosts f identity ts key))
            ≡ some (delivered (sent x hosts f identity ts key) identity))
        × (verify_record_dsse x (delivered (sent x hosts f identity ts key) identity) verifying_key
            ≡ ok tt)
  captured_delivers x hosts most context_id config metrics f identity ts key vk t d opened some_host
        named clock written =
      let emits =
        (emits_iff x (captured hosts f) identity ts key).0.1
          (captured-nonempty hosts most context_id config metrics f opened some_host, named) in
      let (verdict, text, value, read) =
        delivered_verifies x (captured hosts f) identity ts key vk (sent x hosts f identity ts key)
          t d (captured-IsSendable hosts most context_id config metrics f ts opened clock) emits
          written in
      (
        emits,
        sent-actions x hosts f identity ts key
            ∙ captured-entries hosts most context_id config metrics f opened,
        verdict,
        text,
        value,
        read,
      )
