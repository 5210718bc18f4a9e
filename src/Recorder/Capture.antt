-- ===== src/Recorder/Capture.antt =====
-- crates/proxy-wasm-evidence/src/recorder.rs: time stamps, the recording baseline and
-- `build_evidence`.
pub mod Coherence
use wasmagent_proxy.Base.{
  ℕ, ◌/◌, ◌%◌, ◌^◌, Bool, true, false, not, Option, none, some, Text, ltb, if◌then◌else◌,
}
use wasmagent_proxy.Json.{Fields}
use wasmagent_proxy.McpHeaders.{McpHeaderRisk, risk_str}
use wasmagent_proxy.Recording.{
  RecordingMode, validation, delta, full, RiskContext, is_read, canonical_str,
  compile_recording_policy,
}
use wasmagent_proxy.Evidence.{ActionEvidence}

-- `SystemTime`: its distance from the epoch in nanoseconds.
pub data SystemTime : Type 0 where
  since_epoch before_epoch : ℕ → SystemTime

-- The milliseconds of a `Duration` are cast to `u64`.
unfoldable pub unix_millis_checked : SystemTime → Option ℕ
unix_millis_checked (since_epoch nanos) = some (nanos / 1_000_000 % 2 ^ 64)
unix_millis_checked (before_epoch nanos) = none

unfoldable pub unix_millis : SystemTime → ℕ
unfolding unix_millis_checked
unix_millis time = elim (unix_millis_checked time) [ none ↦ 0 | some ms ↦ ms ]

-- `rank` of `max_recording_mode`
abbrev pub mode_rank : RecordingMode → ℕ
mode_rank validation = 0
mode_rank delta = 1
mode_rank full = 2

unfoldable pub max_recording_mode : RecordingMode → RecordingMode → RecordingMode
max_recording_mode a b = if ltb (mode_rank a) (mode_rank b) then b else a

abbrev pub risk_text : Option McpHeaderRisk → Option Text
risk_text none = none
risk_text (some r) = some (risk_str r)

unfoldable pub build_evidence :
    Text → Text → RiskContext → ℕ → Option Text → Option McpHeaderRisk → ActionEvidence
build_evidence action_id tool_name risk_ctx timestamp_ms precondition_digest mcp_header_risk =
    let policy = compile_recording_policy risk_ctx in
    record {
      action_id = action_id;
      tool_name = tool_name;
      state_changing = not (is_read risk_ctx.side_effect_class);
      precondition_digest = precondition_digest;
      result_digest = none;
      timestamp_ms = timestamp_ms;
      parent_action_id = none;
      causal_chain_id = none;
      recording_mode = policy.mode;
      capability_decision = none;
      mcp_header_risk = risk_text mcp_header_risk;
      side_effect_class = some (canonical_str risk_ctx.side_effect_class);
      extra = Fields.end;
    }
