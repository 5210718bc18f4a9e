-- ===== src/Config.antt =====
-- crates/proxy-wasm-evidence/src/config.rs: the plugin's configuration and its validation.
pub mod Validate
pub mod Deserialize
mod Tests
mod UnitTests
use wasmagent_proxy.Base.{
  ℕ, not, Option, none, some, Text, codes, ◌++◌, length, decimal, ok, Result, ◌>>=◌, ◌>>◌, map_err,
  reject_if, ◌==◌,
}
use wasmagent_proxy.Json.{Crates}
use wasmagent_proxy.Recording.{RecordingMode, validation}

pub record PluginConfig : Type 0 where
  pub default_mode : RecordingMode
  pub key_id : Text
  pub signing_key_hex : Option Text
  pub trace_id_header : Text
  pub agent_id_header : Text
  pub max_evidence_buffer : ℕ

-- `impl Default for PluginConfig`
abbrev pub default_config : PluginConfig
default_config = record {
  default_mode = validation;
  key_id = codes "default";
  signing_key_hex = none;
  trace_id_header = codes "x-b3-traceid";
  agent_id_header = codes "x-agent-id";
  max_evidence_buffer = 1024;
}

module _ (x : Crates) where
  -- The test of a key that is there.
  unfoldable pub validate_key : Option Text → Result (Unit {0})
  validate_key none = ok tt
  validate_key (some key_hex) = do
    decoded ←
        map_err (x.hex_decode key_hex) (λ err. codes "signing_key_hex is not valid hex: " ++ err)
    reject_if (not (length decoded == 32)) (
        codes "signing_key_hex must decode to 32 bytes (Ed25519 seed), got "
        ++ decimal (length decoded))

  unfoldable pub validate : PluginConfig → Result (Unit {0})
  unfolding validate_key
  validate config = do
    reject_if (config.max_evidence_buffer == 0) (codes "max_evidence_buffer must be greater than 0")
    validate_key config.signing_key_hex
