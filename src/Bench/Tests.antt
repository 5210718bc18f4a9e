-- ===== src/Bench/Tests.antt =====
-- benchmarks/latency_bench.rs: a run.
use wasmagent_proxy.Base.{◌≡◌, true, false}
use wasmagent_proxy.Recording.{RiskContext, network_egress, compile_recording_policy}
use wasmagent_proxy.Bench.{benched, all_contexts}
use wasmagent_proxy.Bench.Covers.{Reaches, bench_covers}

abbrev context : RiskContext
context = record {
  was_vetted = false;
  has_consent_anomaly = true;
  taint_chain_length = 9;
  side_effect_class = network_egress;
}

covered_context : (benched ≡ all_contexts) × Reaches all_contexts (compile_recording_policy context)
covered_context = bench_covers context
