-- ===== src/Config/Tests.antt =====
-- crates/proxy-wasm-evidence/src/config.rs: runs of the validation.
use wasmagent_proxy.Base.{◌<◌, ◌≡◌, ◌↔◌, refl, some, [], codes, Text, ok, err, replicate, decimal}
use wasmagent_proxy.Json.{null, Crates}
use wasmagent_proxy.Json.Toy.{toy, hex_decode}
use wasmagent_proxy.Config.{PluginConfig, default_config, validate}
use wasmagent_proxy.Config.Validate.{IsSeed, validate_iff}

abbrev pub crates : Crates
crates = toy [] null

abbrev pub keyed : Text → PluginConfig
keyed key_hex = record default_config { signing_key_hex = some key_hex }

-- The tests of config.rs, and a key that is there but empty.
accepts_default : validate crates default_config ≡ ok tt
unfolding validate
accepts_default = refl

accepts_key : validate crates (keyed (replicate 64 b'0')) ≡ ok tt
unfolding validate hex_decode
accepts_key = refl

rejects_empty :
    validate crates (keyed [])
    ≡ err (codes "signing_key_hex must decode to 32 bytes (Ed25519 seed), got 0")
unfolding validate hex_decode decimal
rejects_empty = refl

validate_iff_example :
    (validate crates (keyed []) ≡ ok tt)
    ↔ ((0 < (keyed []).max_evidence_buffer) × IsSeed crates (keyed []).signing_key_hex)
validate_iff_example = validate_iff crates (keyed [])
