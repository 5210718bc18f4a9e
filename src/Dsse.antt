-- ===== src/Dsse.antt =====
-- crates/aep-core/src/dsse.rs and signing.rs: signed envelopes around records.
pub mod Pae
pub mod Canonical
pub mod Sign
pub mod Verify
mod Tests
mod UnitTests
