-- ===== src/Bench.antt =====
-- benchmarks/latency_bench.rs: the contexts that the benchmark compiles.
pub mod Covers
mod Tests
use wasmagent_proxy.Base.{true, false, List, [], ◌∷◌}
use wasmagent_proxy.Recording.{
  RiskContext, read, mutate_local, mutate_external, network_egress, unknown,
}

abbrev pub base_ctx : RiskContext
base_ctx = record {
  was_vetted = false;
  has_consent_anomaly = false;
  taint_chain_length = 0;
  side_effect_class = read;
}

-- The contexts of `bench_compile_recording_policy`, each made from `base_ctx`.
abbrev pub benched : List RiskContext
benched =
    record base_ctx { was_vetted = true }
    ∷ record base_ctx { has_consent_anomaly = true }
    ∷ record base_ctx { taint_chain_length = 3; side_effect_class = mutate_local }
    ∷ record base_ctx { side_effect_class = unknown }
    ∷ record base_ctx { side_effect_class = mutate_external }
    ∷ record base_ctx { side_effect_class = network_egress }
    ∷ record base_ctx { side_effect_class = mutate_local }
    ∷ base_ctx
    ∷ []

abbrev pub all_contexts : List RiskContext
all_contexts =
    record {
      was_vetted = true;
      has_consent_anomaly = false;
      taint_chain_length = 0;
      side_effect_class = read;
    }
    ∷ record {
      was_vetted = false;
      has_consent_anomaly = true;
      taint_chain_length = 0;
      side_effect_class = read;
    }
    ∷ record {
      was_vetted = false;
      has_consent_anomaly = false;
      taint_chain_length = 3;
      side_effect_class = mutate_local;
    }
    ∷ record {
      was_vetted = false;
      has_consent_anomaly = false;
      taint_chain_length = 0;
      side_effect_class = unknown;
    }
    ∷ record {
      was_vetted = false;
      has_consent_anomaly = false;
      taint_chain_length = 0;
      side_effect_class = mutate_external;
    }
    ∷ record {
      was_vetted = false;
      has_consent_anomaly = false;
      taint_chain_length = 0;
      side_effect_class = network_egress;
    }
    ∷ record {
      was_vetted = false;
      has_consent_anomaly = false;
      taint_chain_length = 0;
      side_effect_class = mutate_local;
    }
    ∷ record {
      was_vetted = false;
      has_consent_anomaly = false;
      taint_chain_length = 0;
      side_effect_class = read;
    }
    ∷ []
