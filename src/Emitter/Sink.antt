-- ===== src/Emitter/Sink.antt =====
-- crates/proxy-wasm-evidence/src/emitter.rs: the sink trait, for a sink whose state is `S`, and the
-- sink of the tests.
use wasmagent_proxy.Base.{List, [], ◌∷◌, ◌++◌, Result, ok}
use wasmagent_proxy.Evidence.{AepRecord}

pub record EvidenceSink (S : Type 0) : Type 0 where
  -- The sink after the call, and what the call returns.
  pub emit : S → AepRecord → S × Result (Unit {0})

pub record InMemorySink : Type 0 where
  pub records : List AepRecord

instance abbrev pub in_memory : EvidenceSink InMemorySink
in_memory = record { emit = λ sink r. (record sink { records = sink.records ++ r ∷ [] }, ok tt) }
