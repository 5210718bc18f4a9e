-- ===== src/Filter/Tests.antt =====
-- crates/proxy-wasm-evidence/src/filter.rs: runs of the handlers.
use Prim.Native.Nat.{max}
use wasmagent_proxy.Base.{
  ℕ, ◌-◌, ◌%◌, ◌^◌, ◌≤◌, ◌<◌, ◌≡◌, ◌⊎◌, ◌↔◌, refl, false, true, Option, none, some, List, [], ◌∷◌,
  Text, codes, ok, panic, length, drop, Unicode, text_eq,
}
use wasmagent_proxy.Json.{null, Crates}
use wasmagent_proxy.Json.Toy.{toy}
use wasmagent_proxy.Recording.{full, mode_str, compile_recording_policy}
use wasmagent_proxy.Recording.Policy.{assurance}
use wasmagent_proxy.Evidence.{ActionEvidence}
use wasmagent_proxy.Recorder.Buffer
use wasmagent_proxy.Recorder.Capture.{SystemTime, since_epoch}
use wasmagent_proxy.Config.{PluginConfig, default_config, validate}
use wasmagent_proxy.Filter.{
  Host, EvidenceRoot, default_root, default_metrics, EvidenceFilter, on_configure, new_filter,
  create_http_context, on_http_request_headers, on_http_response_headers, risk_context, evidence_of,
}
use wasmagent_proxy.Filter.Root.{Loads, on_configure_iff, started, configured, Configured-creates}
use wasmagent_proxy.Filter.Response.{sets, to_list, response_reports}
use wasmagent_proxy.Filter.Exchange.{exchanges, entries, mcp_never_lowers, exchanges_keep_newest}

abbrev crates : Crates
crates = toy [] null

abbrev pub ascii : Unicode
ascii = record { is_alphanumeric_beyond = λ _. false; to_uppercase_beyond = λ c. c ∷ [] }

-- The baseline "full" and a buffer of one entry.
abbrev pub strict : PluginConfig
strict = record default_config { default_mode = full; max_evidence_buffer = 1 }

-- A request with a method and, if there is one, an MCP operation.
abbrev request : Text → Option Text → Text → Option Text
request method op name = elim (text_eq name (codes ":method")) [
  | true ↦ some method
  | false ↦ elim (text_eq name (codes "mcp-method")) [ true ↦ op | false ↦ none ]
]

abbrev host : Text → Option SystemTime → Host
host method clock = record {
  define_metric = λ name. some (length name);
  get_plugin_configuration = some (codes "{}");
  parse_config = λ _. some strict;
  get_http_request_header = request method (some (codes "tools/call"));
  get_current_time = clock;
}

abbrev pub with_clock : Host
with_clock = host (codes "GET") (some (since_epoch 5_000_000))

abbrev pub without_clock : Host
without_clock = host (codes "POST") none

abbrev pub fresh : EvidenceFilter
fresh = record {
  context_id = 7;
  config = strict;
  evidence_buffer = record { entries = []; capacity = 1; dropped_total = 0 };
  method = [];
  path = [];
  trace_id = none;
  agent_id = none;
  mcp_method = none;
  mcp_name = none;
  metrics = default_metrics;
}

pub opened : new_filter 10 7 strict default_metrics ≡ ok fresh
unfolding new_filter Buffer.new
opened = refl

abbrev asked : EvidenceFilter
asked = on_http_request_headers with_clock fresh

on_configure_iff_example :
    (((on_configure crates with_clock default_root 2).1 ≡ true)
      ↔ ((◌≡◌ {A = ℕ} 2 0) ⊎ (config : PluginConfig) × Loads crates with_clock config))
    × (((on_configure crates with_clock default_root 2).1 ≡ true)
          × (validate crates (on_configure crates with_clock default_root 2).0.config ≡ ok tt)
        ⊎ ((on_configure crates with_clock default_root 2).1 ≡ false)
          × ((on_configure crates with_clock default_root 2).0.config ≡ default_root.config))
on_configure_iff_example = on_configure_iff crates with_clock default_root 2

abbrev root : EvidenceRoot
root = (on_configure crates with_clock default_root 2).0

Configured-creates_example :
    (0 < root.config.max_evidence_buffer)
    × ((root.config.max_evidence_buffer ≤ 10)
          × ((f : EvidenceFilter) × (create_http_context 10 root 7 ≡ ok f)
              × (f.config ≡ root.config)
              × (f.evidence_buffer.entries ≡ [])
              × (f.evidence_buffer.capacity ≡ root.config.max_evidence_buffer))
        ⊎ (10 < root.config.max_evidence_buffer)
          × (create_http_context 10 root 7 ≡ panic (codes "capacity overflow")))
Configured-creates_example =
    Configured-creates crates 10 root 7 (configured with_clock default_root 2 started)

-- A host whose configuration asks for 2 ^ 32 - 1 entries, which is accepted.
abbrev greedy : Host
greedy = record with_clock {
  parse_config = λ _. some (record default_config { max_evidence_buffer = 4_294_967_295 });
}

greedy_accepted : (on_configure crates greedy default_root 2).1 ≡ true
unfolding on_configure validate
greedy_accepted = refl

greedy_panics :
    create_http_context 10_000_000 (on_configure crates greedy default_root 2).0 7
    ≡ panic (codes "capacity overflow")
unfolding on_configure validate create_http_context Buffer.new
greedy_panics = refl

response_reports_example :
    (e : ActionEvidence) × ((on_http_response_headers ascii with_clock asked).0.evidence_buffer
      ≡ (Buffer.push asked.evidence_buffer e).0)
    × (assurance e.recording_mode
        ≡ max
            (assurance (compile_recording_policy (risk_context ascii asked)).mode)
            (assurance asked.config.default_mode))
    × (sets (codes "x-aep-recording-mode") (on_http_response_headers ascii with_clock asked).1
        ≡ mode_str e.recording_mode ∷ [])
    × (sets (codes "x-aep-mcp-header-risk") (on_http_response_headers ascii with_clock asked).1
        ≡ to_list e.mcp_header_risk)
response_reports_example = response_reports ascii with_clock asked

mcp_never_lowers_example :
    assurance (evidence_of ascii (record asked { mcp_method = none }) 5).recording_mode
    ≤ assurance (evidence_of ascii asked 5).recording_mode
mcp_never_lowers_example = mcp_never_lowers ascii asked 5

abbrev pub hosts : List Host
hosts = with_clock ∷ without_clock ∷ []

exchanges_keep_newest_example :
    ((exchanges ascii hosts fresh).evidence_buffer.entries
      ≡ drop (length hosts - strict.max_evidence_buffer) (entries ascii hosts fresh))
    × ((exchanges ascii hosts fresh).evidence_buffer.dropped_total
        ≡ (length hosts - strict.max_evidence_buffer) % 2 ^ 64)
exchanges_keep_newest_example =
    exchanges_keep_newest ascii hosts 10 7 strict default_metrics fresh opened
