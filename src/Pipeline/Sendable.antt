-- ===== src/Pipeline/Sendable.antt =====
-- crates/proxy-wasm-evidence/src/filter.rs: the entry of an exchange is read back as it is written.
use wasmagent_proxy.Base.{
  ℕ, zero, suc, ◌≡◌, ◌≢◌, ◌<◌, ◌^◌, refl, true, none, some, Option, List, [], ◌∷◌, Text, Unicode,
  length, drop, All, Option-cases, inl, inr, ltb, arith,
}
use wasmagent_proxy.Json.Order.{AreFields}
use wasmagent_proxy.Json.Slots.Named.{Apart-end}
use wasmagent_proxy.Json.Readable.{is_readable, items_readable}
use wasmagent_proxy.McpHeaders.{McpHeaderRisk}
use wasmagent_proxy.Recording.{RecordingMode, RiskContext}
use wasmagent_proxy.Evidence.{ActionEvidence}
use wasmagent_proxy.Evidence.Serialize.{action_to_value, items}
use wasmagent_proxy.Evidence.Rendered.{IsPlain}
use wasmagent_proxy.Evidence.Deserialize.{action_names}
use wasmagent_proxy.Evidence.Deserialize.RoundTrip.{IsForeign}
use wasmagent_proxy.Recorder.Capture.{
  SystemTime, since_epoch, before_epoch, unix_millis, build_evidence,
}
use wasmagent_proxy.Filter.{Host, EvidenceFilter, evidence_of, current_time_ms}
use wasmagent_proxy.Filter.Exchange.{entry, entries}
use wasmagent_proxy.Emitter.Delivery.{IsSendable}

pub ltb_of : (m n : ℕ) → m < n → ltb m n ≡ true
ltb_of m n h = ground arith

unix_millis_bounded : (time : SystemTime) → ltb (unix_millis time) (2 ^ 64) ≡ true
unfolding unix_millis
unix_millis_bounded (since_epoch nanos) = ltb_of _ _ (omega arith)
unix_millis_bounded (before_epoch nanos) = refl

clock_bounded : (host : Host) (f : EvidenceFilter) → ltb (current_time_ms host f).0 (2 ^ 64) ≡ true
unfolding current_time_ms
clock_bounded host f = elim (Option-cases host.get_current_time) [
  | inl e ↦ rw e refl
  | inr (time, e) ↦ rw e (unix_millis_bounded time)
]

-- What a sendable piece of evidence is, for each.
pub record IsSent (a : ActionEvidence) : Type 0 where
  pub plain : IsPlain a
  pub foreign : IsForeign a
  pub readable : is_readable 124 (action_to_value a) ≡ true

built-IsSent :
    (action_id tool_name : Text) (ctx : RiskContext) (now : ℕ) (risk : Option McpHeaderRisk)
    (mode : RecordingMode)
    → ltb now (2 ^ 64) ≡ true
    → IsSent
        (record (build_evidence action_id tool_name ctx now none risk) { recording_mode = mode })
unfolding is_readable action_to_value build_evidence AreFields
built-IsSent action_id tool_name ctx now none mode h = record {
  plain = (tt, tt);
  foreign = (tt, Apart-end action_names, tt);
  readable = rw h refl;
}
built-IsSent action_id tool_name ctx now (some risk) mode h = record {
  plain = (tt, tt);
  foreign = (tt, Apart-end action_names, tt);
  readable = rw h refl;
}

All-weaken :
    {P Q : ActionEvidence → Type 0} (es : List ActionEvidence)
    → ((a : ActionEvidence) → P a → Q a)
    → All P es
    → All Q es
All-weaken [] weaker h = tt
All-weaken (a ∷ es) weaker (h, hs) = (weaker a h, All-weaken es weaker hs)

pub All-drop : (n : ℕ) (es : List ActionEvidence) → All IsSent es → All IsSent (drop n es)
All-drop zero es h = h
All-drop (suc n) [] h = tt
All-drop (suc n) (a ∷ es) (h, hs) = All-drop n es hs

pub drop-nonempty : (n : ℕ) (es : List ActionEvidence) → n < length es → drop n es ≢ []
drop-nonempty zero [] h e = omega arith
drop-nonempty zero (a ∷ es) h e = cc
drop-nonempty (suc n) [] h e = omega arith
drop-nonempty (suc n) (a ∷ es) h e = drop-nonempty n es (omega arith) e

all_readable :
    (es : List ActionEvidence)
    → All IsSent es
    → items_readable 124 (items action_to_value es) ≡ true
unfolding is_readable items
all_readable [] h = refl
all_readable (a ∷ es) (h, hs) = rw (h.readable, all_readable es hs) refl

pub sent-IsSendable :
    (es : List ActionEvidence) (ts : ℕ) → All IsSent es → ltb ts (2 ^ 64) ≡ true → IsSendable es ts
sent-IsSendable es ts h clock = record {
  plain = All-weaken es (λ a s. s.plain) h;
  foreign = All-weaken es (λ a s. s.foreign) h;
  actions = all_readable es h;
  clock = clock;
}

module _ (u : Unicode) where
  entry-IsSent : (host : Host) (f : EvidenceFilter) → IsSent (entry u host f)
  unfolding entry evidence_of
  entry-IsSent host f = built-IsSent _ _ _ _ _ _ (clock_bounded host f)

  pub entries-IsSent : (hosts : List Host) (f : EvidenceFilter) → All IsSent (entries u hosts f)
  unfolding entries
  entries-IsSent [] f = tt
  entries-IsSent (host ∷ hosts) f = (entry-IsSent host f, entries-IsSent hosts f)
