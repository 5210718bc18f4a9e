-- ===== src/Recorder.antt =====
-- crates/proxy-wasm-evidence/src/recorder.rs: the parts of the recorder.
pub mod Buffer
pub mod Severity
pub mod Capture
mod Tests
mod UnitTests
