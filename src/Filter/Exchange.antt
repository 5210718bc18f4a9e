-- ===== src/Filter/Exchange.antt =====
-- crates/proxy-wasm-evidence/src/filter.rs: the exchanges of an HTTP context, each the headers of a
-- request and those of its response.
use wasmagent_proxy.Base.{
  ℕ, suc, inl, inr, Result-cases, ◌-◌, ◌%◌, ◌^◌, ◌≤◌, ◌≡◌, refl, sym, ap, subst, ◌∙◌, none, some,
  Option, List, [], ◌∷◌, Text, Unicode, ok, length, drop, arith,
}
use wasmagent_proxy.Recording.Policy.{assurance, exposure, compile_mono}
use wasmagent_proxy.Evidence.{ActionEvidence}
use wasmagent_proxy.Recorder.Buffer
use wasmagent_proxy.Recorder.Buffer.{EvidenceBuffer}
use wasmagent_proxy.Recorder.Buffer.History.{Ledger, step, steps, record_entry, open_ledger}
use wasmagent_proxy.Recorder.Buffer.Newest.{pushes, buffer_keeps_newest}
use wasmagent_proxy.Recorder.Severity.{
  http_class, mcp_class, max_severity, infer_side_effect_class_with_mcp,
}
use wasmagent_proxy.Config.{PluginConfig}
use wasmagent_proxy.Filter.{
  Host, EvidenceMetrics, EvidenceFilter, new_filter, current_time_ms, on_http_request_headers,
  risk_context, evidence_of, on_http_response_headers,
}
use wasmagent_proxy.Filter.Response.{evidence_mode}

mcp_exposure :
    (m path op : Text)
    → exposure (http_class m path) ≤ exposure (max_severity (http_class m path) (mcp_class op))
unfolding http_class mcp_class max_severity
mcp_exposure m path op = ground arith

step-buffer :
    (l : Ledger) (e : ActionEvidence)
    → (step l (record_entry e)).buffer ≡ (Buffer.push l.buffer e).0
unfolding step
step-buffer l e = refl

pub new_filter-buffer :
    (most context_id : ℕ) (config : PluginConfig) (metrics : EvidenceMetrics) (f : EvidenceFilter)
    → new_filter most context_id config metrics ≡ ok f
    → Buffer.new most config.max_evidence_buffer ≡ ok f.evidence_buffer
unfolding new_filter
new_filter-buffer most context_id config metrics f h =
    elim (Result-cases (Buffer.new most config.max_evidence_buffer)) [
      | inl (b, e) ↦ e ∙ ground arith
      | inr failed ↦ ground arith
    ]

module _ (u : Unicode) where
  infer_exposure :
      (method path : Text) (op : Option Text)
      → exposure (infer_side_effect_class_with_mcp u method path none)
        ≤ exposure (infer_side_effect_class_with_mcp u method path op)
  unfolding infer_side_effect_class_with_mcp
  infer_exposure method path none = omega arith
  infer_exposure method path (some op) = mcp_exposure _ path op

  -- An MCP operation never lowers what is recorded: without the header the recorded mode has no
  -- greater assurance than with it.
  pub mcp_never_lowers :
      (f : EvidenceFilter) (now : ℕ)
      → assurance (evidence_of u (record f { mcp_method = none }) now).recording_mode
        ≤ assurance (evidence_of u f now).recording_mode
  mcp_never_lowers f now =
      let without = record f { mcp_method = none } in
      let policy = compile_mono (risk_context u without) (risk_context u f) (record {
        vetted = λ h. h;
        anomaly = λ h. h;
        taint = omega arith;
        class = infer_exposure f.method f.path f.mcp_method;
      }) in
      omega (arith, policy, evidence_mode u f now, evidence_mode u without now)

  -- One request and its response, in front of a host that answers each with its own values.
  unfoldable pub exchange : Host → EvidenceFilter → EvidenceFilter
  exchange host f = (on_http_response_headers u host (on_http_request_headers host f)).0

  unfoldable pub exchanges : List Host → EvidenceFilter → EvidenceFilter
  unfolding exchange
  exchanges [] f = f
  exchanges (host ∷ hosts) f = exchanges hosts (exchange host f)

  -- The entry of an exchange that a fresh filter would record.
  unfoldable pub entry : Host → EvidenceFilter → ActionEvidence
  entry host f = evidence_of u (on_http_request_headers host f) (current_time_ms host f).0

  unfoldable pub entries : List Host → EvidenceFilter → List ActionEvidence
  entries [] f = []
  entries (host ∷ hosts) f = entry host f ∷ entries hosts f

  entry-exchange :
      (host other : Host) (f : EvidenceFilter) → entry other (exchange host f) ≡ entry other f
  unfolding entry exchange on_http_response_headers on_http_request_headers current_time_ms
  entry-exchange host other f = refl

  entries-exchange :
      (host : Host) (hosts : List Host) (f : EvidenceFilter)
      → entries hosts (exchange host f) ≡ entries hosts f
  unfolding entries
  entries-exchange host [] f = refl
  entries-exchange host (other ∷ hosts) f =
      rw (entry-exchange host other f, entries-exchange host hosts f) refl

  exchange-push :
      (host : Host) (f : EvidenceFilter)
      → (exchange host f).evidence_buffer ≡ (Buffer.push f.evidence_buffer (entry host f)).0
  unfolding entry exchange on_http_response_headers on_http_request_headers current_time_ms
  exchange-push host f = refl

  exchanges-steps :
      (hosts : List Host) (f : EvidenceFilter) (l : Ledger)
      → l.buffer ≡ f.evidence_buffer
      → (exchanges hosts f).evidence_buffer ≡ (steps l (pushes (entries hosts f))).buffer
  unfolding exchanges entries steps
  exchanges-steps [] f l e = sym e
  exchanges-steps (host ∷ hosts) f l e =
      let next : (step l (record_entry (entry host f))).buffer ≡ (exchange host f).evidence_buffer =
        step-buffer l (entry host f)
        ∙ (ap (λ b. (Buffer.push b (entry host f)).0) e ∙ sym (exchange-push host f)) in
      let ih =
        exchanges-steps hosts (exchange host f) (step l (record_entry (entry host f))) next in
      subst
        (λ es.
          (exchanges hosts (exchange host f)).evidence_buffer
          ≡ (steps (step l (record_entry (entry host f))) (pushes es)).buffer)
        (entries-exchange host hosts f) ih

  pub length-entries :
      (hosts : List Host) (f : EvidenceFilter) → length (entries hosts f) ≡ length hosts
  unfolding entries
  length-entries [] f = refl
  length-entries (host ∷ hosts) f = ap suc (length-entries hosts f)

  -- The exchanges of a new HTTP context leave the entries of the newest of them in its buffer, as
  -- many as fit; the entry of an exchange is the one that it would have left in the new context, so
  -- that no exchange sees the headers of an earlier one; and the drop counter tells how many are
  -- missing, modulo the range of `u64`.
  pub exchanges_keep_newest :
      (hosts : List Host) (most context_id : ℕ) (config : PluginConfig) (metrics : EvidenceMetrics)
      (f : EvidenceFilter)
      → new_filter most context_id config metrics ≡ ok f
      → ((exchanges hosts f).evidence_buffer.entries
          ≡ drop (length hosts - config.max_evidence_buffer) (entries hosts f))
        × ((exchanges hosts f).evidence_buffer.dropped_total
            ≡ (length hosts - config.max_evidence_buffer) % 2 ^ 64)
  exchanges_keep_newest hosts most context_id config metrics f h =
      let b = new_filter-buffer most context_id config metrics f h in
      let (kept, dropped) =
        buffer_keeps_newest most config.max_evidence_buffer f.evidence_buffer (entries hosts f) b in
      let same = exchanges-steps hosts f (open_ledger f.evidence_buffer) refl in
      rw (same, sym (length-entries hosts f)) (kept, dropped)
