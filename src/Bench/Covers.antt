-- ===== src/Bench/Covers.antt =====
-- benchmarks/latency_bench.rs: the exits of the policy compiler that the contexts reach.
use wasmagent_proxy.Base.{◌≡◌, ◌⊎◌, refl, List, [], ◌∷◌, arith}
use wasmagent_proxy.Recording.{RiskContext, RecordingPolicy, compile_recording_policy}
use wasmagent_proxy.Bench.{benched, all_contexts}

-- Some context of the list compiles to the policy.
abbrev pub Reaches : List RiskContext → RecordingPolicy → Type 0
Reaches [] p = ⊥
Reaches (c ∷ cs) p = (compile_recording_policy c ≡ p) ⊎ Reaches cs p

-- The contexts of the benchmark are those of its list of all contexts, and every context compiles
-- to a policy, its mode and its reason, that one of them compiles to.
pub bench_covers :
    (c : RiskContext) → (benched ≡ all_contexts) × Reaches all_contexts (compile_recording_policy c)
unfolding compile_recording_policy
bench_covers c = (refl, ground arith)
