-- ===== src/Filter.antt =====
-- crates/proxy-wasm-evidence/src/filter.rs: the root context, which holds the configuration, and the
-- filter of one HTTP context. A handler returns its context and the host calls that it makes, in
-- order; what the host answers is a parameter.
pub mod Root
pub mod Response
pub mod Exchange
pub mod Tests
use wasmagent_proxy.Base.{
  ℕ, Bool, true, false, Option, none, some, List, [], ◌∷◌, ◌++◌, Text, Bytes, codes, decimal,
  Unicode, Result, ok, err, panic, ◌>>=◌, ◌==◌, if◌then◌else◌,
}
use wasmagent_proxy.Json.{Crates}
use wasmagent_proxy.Recording.{RecordingMode, validation, delta, full, mode_str, RiskContext}
use wasmagent_proxy.McpHeaders.{classify_mcp_headers}
use wasmagent_proxy.Evidence.{ActionEvidence}
use wasmagent_proxy.Recorder.Buffer
use wasmagent_proxy.Recorder.Buffer.{EvidenceBuffer}
use wasmagent_proxy.Recorder.Severity.{infer_side_effect_class_with_mcp}
use wasmagent_proxy.Recorder.Capture.{SystemTime, unix_millis, max_recording_mode, build_evidence}
use wasmagent_proxy.Config.{PluginConfig, default_config, validate}

-- What the Proxy-Wasm host answers.
pub record Host : Type 0 where
  pub define_metric : Text → Option ℕ
  pub get_plugin_configuration : Option Bytes
  -- `serde_json::from_slice::<PluginConfig>`, whose error is only logged.
  pub parse_config : Bytes → Option PluginConfig
  pub get_http_request_header : Text → Option Text
  pub get_current_time : Option SystemTime

pub data HostCall : Type 0 where
  define_counter : Text → HostCall
  increment_metric : ℕ → ℕ → HostCall
  set_http_response_header : Text → Text → HostCall

abbrev pub metric_base : Text
metric_base = codes "aep.evidence.recorded_total"

pub record EvidenceMetrics : Type 0 where
  pub validation : ℕ
  pub delta : ℕ
  pub full : ℕ
  pub clock_failure : ℕ

-- `unwrap_or(0)`, `unwrap_or_default()`
abbrev pub or_zero : Option ℕ → ℕ
or_zero none = 0
or_zero (some id) = id

abbrev pub or_empty : Option Text → Text
or_empty none = []
or_empty (some t) = t

abbrev pub or_else : Option Text → Option Text → Option Text
or_else none b = b
or_else (some t) b = some t

-- `EvidenceMetrics::define`: the identifiers, and the counters that it defines, in order.
unfoldable pub define : Host → EvidenceMetrics × List HostCall
define host =
    let validation = metric_base ++ codes ".validation" in
    let delta = metric_base ++ codes ".delta" in
    let full = metric_base ++ codes ".full" in
    let clock_failure = metric_base ++ codes ".clock_failure_total" in
    (
      record {
        validation = or_zero (host.define_metric validation);
        delta = or_zero (host.define_metric delta);
        full = or_zero (host.define_metric full);
        clock_failure = or_zero (host.define_metric clock_failure);
      },
      define_counter validation
          ∷ define_counter delta
          ∷ define_counter full
          ∷ define_counter clock_failure
          ∷ [],
    )

abbrev pub default_metrics : EvidenceMetrics
default_metrics = record { validation = 0; delta = 0; full = 0; clock_failure = 0 }

-- `EvidenceMetrics::id_for`
abbrev pub id_for : EvidenceMetrics → RecordingMode → ℕ
id_for m RecordingMode.validation = m.validation
id_for m RecordingMode.delta = m.delta
id_for m RecordingMode.full = m.full

pub record EvidenceRoot : Type 0 where
  pub config : PluginConfig
  pub metrics : EvidenceMetrics

-- `EvidenceRoot::new` and `impl Default for EvidenceRoot`
abbrev pub default_root : EvidenceRoot
default_root = record { config = default_config; metrics = default_metrics }

-- The parse of the configuration and its validation; `None` where either fails. `validate` panics
-- only where `hex::decode` does, which it does not.
unfoldable pub load_config : Crates → Host → Bytes → Option PluginConfig
load_config x host config_bytes = elim (host.parse_config config_bytes) [
  | some config ↦ elim (validate x config) [
    | ok _ ↦ some config
    | err reason ↦ none
    | panic e ↦ none
  ]
  | none ↦ none
]

-- `EvidenceRoot::on_configure`
unfoldable pub on_configure : Crates → Host → EvidenceRoot → ℕ → EvidenceRoot × Bool × List HostCall
unfolding define load_config
on_configure x host root plugin_configuration_size =
    let (metrics, calls) = define host in
    let root = record root { metrics = metrics } in
    if plugin_configuration_size == 0
    then (record root { config = default_config }, true, calls)
    else elim host.get_plugin_configuration [
      | none ↦ (root, false, calls)
      | some config_bytes ↦ elim (load_config x host config_bytes) [
        | none ↦ (root, false, calls)
        | some config ↦ (record root { config = config }, true, calls)
      ]
    ]

pub record EvidenceFilter : Type 0 where
  pub context_id : ℕ
  pub config : PluginConfig
  pub evidence_buffer : EvidenceBuffer
  pub method : Text
  pub path : Text
  pub trace_id : Option Text
  pub agent_id : Option Text
  pub mcp_method : Option Text
  pub mcp_name : Option Text
  pub metrics : EvidenceMetrics

-- `EvidenceFilter::new`, which panics where `EvidenceBuffer::new` does, with the most entries that
-- the target can allocate.
unfoldable pub new_filter : ℕ → ℕ → PluginConfig → EvidenceMetrics → Result EvidenceFilter
new_filter most context_id config metrics = do
  evidence_buffer ← Buffer.new most config.max_evidence_buffer
  ok (record {
    context_id = context_id;
    config = config;
    evidence_buffer = evidence_buffer;
    method = [];
    path = [];
    trace_id = none;
    agent_id = none;
    mcp_method = none;
    mcp_name = none;
    metrics = metrics;
  })

-- `EvidenceRoot::create_http_context`
unfoldable pub create_http_context : ℕ → EvidenceRoot → ℕ → Result EvidenceFilter
unfolding new_filter
create_http_context most root context_id = new_filter most context_id root.config root.metrics

-- `EvidenceFilter::current_time_ms`
unfoldable pub current_time_ms : Host → EvidenceFilter → ℕ × List HostCall
current_time_ms host f = elim host.get_current_time [
  | some time ↦ (unix_millis time, [])
  | none ↦ (0, increment_metric f.metrics.clock_failure 1 ∷ [])
]

-- `EvidenceFilter::on_http_request_headers`
unfoldable pub on_http_request_headers : Host → EvidenceFilter → EvidenceFilter
on_http_request_headers host f =
    let header = host.get_http_request_header in
    record f {
      method = or_empty (header (codes ":method"));
      path = or_empty (header (codes ":path"));
      trace_id = header f.config.trace_id_header;
      agent_id = header f.config.agent_id_header;
      mcp_method = or_else (header (codes "x-mcp-method")) (header (codes "mcp-method"));
      mcp_name = or_else (header (codes "mcp-name")) (header (codes "x-mcp-name"));
    }

abbrev pub risk_header : Option Text → List HostCall
risk_header none = []
risk_header (some risk_str) = set_http_response_header (codes "x-aep-mcp-header-risk") risk_str ∷ []

module _ (u : Unicode) where
  abbrev pub risk_context : EvidenceFilter → RiskContext
  risk_context f = record {
    was_vetted = false;
    has_consent_anomaly = false;
    taint_chain_length = 0;
    side_effect_class = infer_side_effect_class_with_mcp u f.method f.path f.mcp_method;
  }

  -- The evidence that `on_http_response_headers` records, at a time.
  unfoldable pub evidence_of : EvidenceFilter → ℕ → ActionEvidence
  evidence_of f now =
      let evidence =
        build_evidence (codes "ctx-" ++ decimal f.context_id) (f.method ++ (codes " " ++ f.path))
          (risk_context f) now none (classify_mcp_headers u f.mcp_method f.mcp_name) in
      record evidence {
        recording_mode = max_recording_mode evidence.recording_mode f.config.default_mode;
      }

  -- `EvidenceFilter::on_http_response_headers`
  unfoldable pub on_http_response_headers : Host → EvidenceFilter → EvidenceFilter × List HostCall
  unfolding current_time_ms evidence_of
  on_http_response_headers host f =
      let (now, clock_calls) = current_time_ms host f in
      let evidence = evidence_of f now in
      (
        record f { evidence_buffer = (Buffer.push f.evidence_buffer evidence).0 },
        clock_calls
            ++ (set_http_response_header (codes "x-aep-recording-mode")
                  (mode_str evidence.recording_mode)
                ∷ increment_metric (id_for f.metrics evidence.recording_mode) 1
                ∷ risk_header evidence.mcp_header_risk),
      )
