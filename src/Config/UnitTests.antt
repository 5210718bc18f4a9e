-- ===== src/Config/UnitTests.antt =====
-- crates/proxy-wasm-evidence/src/config.rs: its unit tests, each a Boolean by the name that it has
-- there, and that they pass. A document is given by its value.
use wasmagent_proxy.Base.{
  ◌≡◌, refl, Bool, true, ◌&&◌, ◌==◌, Text, codes, replicate, contains, decimal, text_eq,
}
use wasmagent_proxy.Base.Asserts.{some_and, is_ok, err_with}
use wasmagent_proxy.Json.{Value, number, pos_int, string, object, field, end, Fields}
use wasmagent_proxy.Json.Toy.{hex_decode}
use wasmagent_proxy.Config.{default_config, validate}
use wasmagent_proxy.Evidence.Deserialize.{variant}
use wasmagent_proxy.Config.Deserialize.{config_from_value}
use wasmagent_proxy.Config.Tests.{crates, keyed}

abbrev defaults_max_evidence_buffer_to_1024 : Bool
defaults_max_evidence_buffer_to_1024 = default_config.max_evidence_buffer == 1024

-- The document of the two tests that read one, without its last field, which is the first in order.
abbrev headers : Text → Fields → Value
headers mode rest = object (
    field (codes "agent_id_header") (string (codes "x-agent")) (
      field (codes "default_mode") (string mode)
        (field (codes "key_id") (string (codes "gateway-key")) rest)))

abbrev traced : Fields
traced = field (codes "trace_id_header") (string (codes "x-trace-id")) end

abbrev reads_max_evidence_buffer_from_json : Bool
reads_max_evidence_buffer_from_json =
    some_and
      (config_from_value (
        headers (codes "delta") (field (codes "max_evidence_buffer") (number (pos_int 64)) traced)))
      λ config. config.max_evidence_buffer == 64

abbrev defaults_max_evidence_buffer_when_json_omits_it : Bool
defaults_max_evidence_buffer_when_json_omits_it =
    some_and (config_from_value (headers (codes "full") traced))
      λ config. config.max_evidence_buffer == 1024

abbrev validate_accepts_default_config : Bool
validate_accepts_default_config = is_ok (validate crates default_config)

abbrev validate_rejects_zero_evidence_buffer : Bool
validate_rejects_zero_evidence_buffer =
    err_with (validate crates (record default_config { max_evidence_buffer = 0 }))
      (codes "max_evidence_buffer")

abbrev validate_accepts_32_byte_hex_signing_key : Bool
validate_accepts_32_byte_hex_signing_key = is_ok (validate crates (keyed (replicate 64 b'0')))

abbrev validate_rejects_non_hex_signing_key : Bool
validate_rejects_non_hex_signing_key =
    err_with (validate crates (keyed (codes "<inject-at-deploy-time>"))) (codes "not valid hex")

abbrev validate_rejects_wrong_length_signing_key : Bool
validate_rejects_wrong_length_signing_key =
    err_with (validate crates (keyed (replicate 62 b'0'))) (codes "32 bytes")

unit_tests_pass :
    (defaults_max_evidence_buffer_to_1024 && reads_max_evidence_buffer_from_json
      && defaults_max_evidence_buffer_when_json_omits_it && validate_accepts_default_config
      && validate_rejects_zero_evidence_buffer && validate_accepts_32_byte_hex_signing_key
      && validate_rejects_non_hex_signing_key && validate_rejects_wrong_length_signing_key)
    ≡ true
unfolding config_from_value variant validate hex_decode decimal contains text_eq
unit_tests_pass = refl
