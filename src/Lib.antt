-- ===== src/Lib.antt =====
-- The evidence core and the Proxy-Wasm filter of wasmagent-proxy.
--
-- The program is a filter for an HTTP gateway. For every response it records one piece of evidence:
-- what was called, how strong its side effects may be, how closely it has to be recorded, and
-- whether an MCP header shows something it should not. Evidence is assembled into a record, which is
-- signed as a DSSE envelope around an in-toto statement, and others verify it.
--
-- The parts, with the crate's file that each models:
--   * Recording: crates/aep-core/src/recording.rs. `compile_recording_policy`, by the order of its
--     returns.
--   * McpHeaders: crates/aep-core/src/mcp_headers.rs. `classify_mcp_headers`; `headers_risk` is its
--     loop over the two headers, `header_risk` the body, `alnum_run` the longest piece of `split`.
--   * Evidence: crates/aep-core/src/evidence.rs. The records with their fields in order;
--     Evidence/Serialize is the derived `Serialize`, as `serde_json::to_value` runs it, and
--     Evidence/Deserialize the derived `Deserialize`, as `serde_json::from_value` runs it;
--     `run_side_effect_class_max` and `strictest_recording_mode` with the keys they fold by.
--   * Dsse: crates/aep-core/src/dsse.rs and signing.rs. Dsse/Pae has `pae_encode`, Dsse/Canonical
--     `canonical_json`, Dsse/Sign `sign_record_dsse` and Dsse/Verify `verify_record_dsse`, whose
--     parts are functions of their own: `open_envelope` up to the parsed statement, `check_types`,
--     `check_subject`. Signing takes the record and returns it as the call leaves it.
--     Dsse/Canonical/Utf16 describes the order of UTF-16 by scalar values, and
--     Dsse/Canonical/Renders is the grammar of JSON texts, Dsse/Sign/Statement what `from_slice` has
--     to make of a statement's bytes, and Dsse/Verify/Signed the crates as documented (`Documented`).
--   * Prov: crates/aep-core/src/prov.rs. `ProvGraph::ancestors`, whose loop keeps its four variables
--     in `Search`.
--   * Recorder: crates/proxy-wasm-evidence/src/recorder.rs. Recorder/Buffer is `EvidenceBuffer`,
--     Recorder/Severity `infer_side_effect_class_with_mcp`, Recorder/Capture `build_evidence`,
--     `max_recording_mode` and the time stamps.
--   * Config: crates/proxy-wasm-evidence/src/config.rs. `PluginConfig` and `validate`;
--     Config/Deserialize is its derived `Deserialize`.
--   * Emitter: crates/proxy-wasm-evidence/src/emitter.rs. `assemble_and_sign`; Emitter/Sink is the
--     trait `EvidenceSink`, and Emitter/Delivery what becomes of a record that another party reads.
--   * Filter: crates/proxy-wasm-evidence/src/filter.rs. `EvidenceRoot` and `EvidenceFilter`; each
--     handler is a function from the context to the context and the host calls that it makes, in
--     order. Filter/Exchange runs several exchanges on one context.
--   * Pipeline: what an HTTP context captured, drained, emitted and read by another party, as the
--     comment on `EvidenceSink` describes it; filter.rs itself does not call the emitter.
--   * Samples: crates/aep-core/examples/emit_aep_samples.rs, the records it publishes.
--   * Bench: benchmarks/latency_bench.rs, the contexts it compiles.
--   * Base has the helpers: Boolean tests, lists, strings, results, and the folds `max_by_key` and
--     `min_by_key`. Json has serde_json's values, and the crates that the program calls;
--     Json/Lookup and Json/Slots are what maps and the objects of structs give for a key, and
--     Json/Readable the limits within which serde_json reads back what it wrote.
--   * The UnitTests modules are the unit tests of the same files, as Booleans, and that they pass,
--     those that sign or parse with whatever crates do what they document; Base/Asserts has their
--     assertions.
--
-- A string is the list of its scalar values and has its UTF-8 by `as_bytes`; `Result` has a third
-- constructor for a panic. The crates are the parameter `Crates` (Json.antt): SHA-256, hex, base64,
-- Ed25519, the printing of JSON scalars and the parsing of JSON; what a theorem needs of them is
-- among its hypotheses. The Unicode tables beyond ASCII are the parameter `Unicode`, and what the
-- Proxy-Wasm host answers is the parameter `Host`. Json/Toy is an instance of the crates that
-- computes, for the runs, and Json/Toy/Parser one with a parser, which has the laws that are assumed
-- of the crates.
--
-- Bounds: the drop counter of the buffer and the milliseconds wrap at 2 ^ 64, as `u64` does in a
-- release build and in a cast; lengths, which are `usize`, do not wrap. A new buffer reserves its
-- capacity, which panics beyond the number of entries whose bytes fit `isize::MAX`; the number, which
-- depends on the target and the compiler's layout, is the parameter `most`. The loop of `ancestors`
-- has fuel for one round and one more for each use that the graph lists, which is enough, since an
-- entity is pushed at most once.
--
-- Not modelled: the crate roots and the registration with the SDK, log lines, the messages
-- of serde, the files that the example writes, the measurement of the benchmark, the
-- integration tests, which read other repositories' files, and the scripts and manifests around.
pub mod Base
pub mod Bench
pub mod Config
pub mod Dsse
pub mod Emitter
pub mod Evidence
pub mod Filter
pub mod Json
pub mod McpHeaders
pub mod Pipeline
pub mod Prov
pub mod Recorder
pub mod Recording
pub mod Samples
