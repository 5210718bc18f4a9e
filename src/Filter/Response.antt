-- ===== src/Filter/Response.antt =====
-- crates/proxy-wasm-evidence/src/filter.rs: what a response says of the evidence it records.
use Prim.Native.Nat.{max}
use wasmagent_proxy.Base.{
  ℕ, ◌≡◌, inl, inr, refl, true, false, Option, none, some, Option-cases, List, [], ◌∷◌, ◌++◌, Text,
  codes, Unicode, text_eq,
}
use wasmagent_proxy.Recording.{mode_str, compile_recording_policy}
use wasmagent_proxy.Recording.Policy.{assurance}
use wasmagent_proxy.Evidence.{ActionEvidence}
use wasmagent_proxy.Recorder.Buffer
use wasmagent_proxy.Recorder.Capture.{build_evidence}
use wasmagent_proxy.Recorder.Capture.Coherence.{max_recording_mode-IsMax}
use wasmagent_proxy.Filter.{
  Host, HostCall, define_counter, increment_metric, set_http_response_header, EvidenceFilter,
  current_time_ms, risk_header, risk_context, evidence_of, on_http_response_headers,
}

-- The metrics that a list of calls increments, and the values that it gives a response header.
abbrev pub increments : List HostCall → List ℕ
increments [] = []
increments (define_counter name ∷ calls) = increments calls
increments (increment_metric id n ∷ calls) = id ∷ increments calls
increments (set_http_response_header name t ∷ calls) = increments calls

abbrev pub sets : Text → List HostCall → List Text
sets name [] = []
sets name (define_counter counter ∷ calls) = sets name calls
sets name (increment_metric id n ∷ calls) = sets name calls
sets name (set_http_response_header other t ∷ calls) = elim (text_eq name other) [
  | true ↦ t ∷ sets name calls
  | false ↦ sets name calls
]

abbrev pub to_list : Option Text → List Text
to_list none = []
to_list (some t) = t ∷ []

sets-risk : (o : Option Text) → sets (codes "x-aep-mcp-header-risk") (risk_header o) ≡ to_list o
unfolding text_eq
sets-risk none = refl
sets-risk (some t) = refl

sets-mode_risk : (o : Option Text) → sets (codes "x-aep-recording-mode") (risk_header o) ≡ []
unfolding text_eq
sets-mode_risk none = refl
sets-mode_risk (some t) = refl

sets-clock :
    (name : Text) (host : Host) (f : EvidenceFilter) (calls : List HostCall)
    → sets name ((current_time_ms host f).1 ++ calls) ≡ sets name calls
unfolding current_time_ms
sets-clock name host f calls = elim (Option-cases host.get_current_time) [
  | inl e ↦ rw (e, current_time_ms) refl
  | inr (t, e) ↦ rw (e, current_time_ms) refl
]

module _ (u : Unicode) where
  -- The recorded mode is the greater of the mode that the policy compiles for the request and the
  -- configured baseline.
  pub evidence_mode :
      (f : EvidenceFilter) (now : ℕ)
      → assurance (evidence_of u f now).recording_mode
        ≡ max
            (assurance (compile_recording_policy (risk_context u f)).mode)
            (assurance f.config.default_mode)
  unfolding evidence_of build_evidence
  evidence_mode f now =
      (max_recording_mode-IsMax (compile_recording_policy (risk_context u f)).mode
        f.config.default_mode).0

  -- A response pushes one entry. Its mode has the greater assurance of what the policy compiles for
  -- the request and the configured baseline; the recording header
  -- has this mode, once; and the risk header has the entry's risk, once, if it
  -- has one, and is not set otherwise.
  pub response_reports :
      (host : Host) (f : EvidenceFilter)
      → (e : ActionEvidence) × ((on_http_response_headers u host f).0.evidence_buffer
          ≡ (Buffer.push f.evidence_buffer e).0)
        × (assurance e.recording_mode
            ≡ max
                (assurance (compile_recording_policy (risk_context u f)).mode)
                (assurance f.config.default_mode))
        × (sets (codes "x-aep-recording-mode") (on_http_response_headers u host f).1
            ≡ mode_str e.recording_mode ∷ [])
        × (sets (codes "x-aep-mcp-header-risk") (on_http_response_headers u host f).1
            ≡ to_list e.mcp_header_risk)
  unfolding on_http_response_headers text_eq
  response_reports host f =
      let e = evidence_of u f (current_time_ms host f).0 in
      (
        e,
        refl,
        evidence_mode f _,
        rw (sets-clock (codes "x-aep-recording-mode") host f, sets-mode_risk e.mcp_header_risk)
            refl,
        rw (sets-clock (codes "x-aep-mcp-header-risk") host f) (sets-risk e.mcp_header_risk),
      )
