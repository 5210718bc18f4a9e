-- ===== src/McpHeaders/UnitTests.antt =====
-- crates/aep-core/src/mcp_headers.rs: its unit tests, each a Boolean by the name that it has there,
-- and that they pass.
use wasmagent_proxy.Base.{
  ◌≡◌, refl, Bool, true, ◌&&◌, Option, none, some, ◌++◌, Text, codes, replicate, text_eq,
  to_ascii_lowercase, contains_char, is_alphanumeric, is_ascii_alphanumeric, byte_len,
}
use wasmagent_proxy.Base.Asserts.{same_option}
use wasmagent_proxy.McpHeaders.{
  McpHeaderRisk, credential_leak, high_entropy_value, pii_leak, risk_str, classify_mcp_headers,
  header_risk, has_prefix_in, starts_with_ignore_case, alnum_run, name_risk,
}
use wasmagent_proxy.McpHeaders.Tests.{ascii}

-- `assert_eq!` of what the headers are classified as.
abbrev classified : Option Text → Option Text → Option McpHeaderRisk → Bool
classified mcp_method mcp_name expected =
    same_option (λ a b. text_eq (risk_str a) (risk_str b))
      (classify_mcp_headers ascii mcp_method mcp_name) expected

abbrev classify_mcp_headers_detects_credential_prefix : Bool
classify_mcp_headers_detects_credential_prefix =
    classified (some (codes "ghp_abc123")) none (some credential_leak)
    && classified (some (codes "sk-abcdefghij")) none (some credential_leak)
    && classified (some (codes "Bearer token_here")) none (some credential_leak)

abbrev classify_mcp_headers_detects_high_entropy : Bool
classify_mcp_headers_detects_high_entropy =
    classified none (some (replicate 40 b'a')) (some high_entropy_value)

abbrev classify_mcp_headers_detects_pii_in_name : Bool
classify_mcp_headers_detects_pii_in_name =
    classified none (some (codes "user@example.com")) (some pii_leak)

abbrev classify_mcp_headers_credential_prefix_case_insensitive : Bool
classify_mcp_headers_credential_prefix_case_insensitive =
    classified (some (codes "GHP_ABC123")) none (some credential_leak)
    && classified (some (codes "SK-abcdefghij")) none (some credential_leak)
    && classified (some (codes "TOKEN abc")) none (some credential_leak)

abbrev classify_mcp_headers_high_entropy_boundary_is_thirty_two_chars : Bool
classify_mcp_headers_high_entropy_boundary_is_thirty_two_chars =
    classified none (some (replicate 31 b'a')) none
    && classified none (some (replicate 32 b'a')) (some high_entropy_value)

abbrev classify_mcp_headers_credential_prefix_wins_over_other_risks : Bool
classify_mcp_headers_credential_prefix_wins_over_other_risks =
    classified none (some (codes "sk-" ++ replicate 40 b'a')) (some credential_leak)

abbrev classify_mcp_headers_clean_values_return_none : Bool
classify_mcp_headers_clean_values_return_none =
    classified (some (codes "tools/call")) (some (codes "my_tool")) none
    && classified none none none
    && classified (some (codes "tools/list")) none none

abbrev classify_mcp_headers_no_mcp_headers_returns_none : Bool
classify_mcp_headers_no_mcp_headers_returns_none = classified none none none

abbrev classify_mcp_headers_partial_mcp_headers_benign_returns_none : Bool
classify_mcp_headers_partial_mcp_headers_benign_returns_none =
    classified (some (codes "tools/call")) none none
    && classified (some (codes "resources/read")) none none
    && classified none (some (codes "my_tool")) none
    && classified none (some (codes "read_config")) none

abbrev classify_mcp_headers_partial_mcp_headers_leakage_detected : Bool
classify_mcp_headers_partial_mcp_headers_leakage_detected =
    classified (some (codes "ghp_abc123")) none (some credential_leak)
    && classified none (some (codes "user@example.com")) (some pii_leak)

abbrev classify_mcp_headers_complete_mcp_headers_benign_returns_none : Bool
classify_mcp_headers_complete_mcp_headers_benign_returns_none =
    classified (some (codes "tools/call")) (some (codes "read_file")) none
    && classified (some (codes "resources/read")) (some (codes "my_resource")) none

abbrev classify_mcp_headers_complete_mcp_headers_leakage_in_method_detected : Bool
classify_mcp_headers_complete_mcp_headers_leakage_in_method_detected =
    classified (some (codes "sk-secretkey")) (some (codes "read_file")) (some credential_leak)

abbrev classify_mcp_headers_complete_mcp_headers_leakage_in_name_detected : Bool
classify_mcp_headers_complete_mcp_headers_leakage_in_name_detected =
    classified (some (codes "tools/call")) (some (codes "admin@corp.io")) (some pii_leak)

unit_tests_pass :
    (classify_mcp_headers_detects_credential_prefix && classify_mcp_headers_detects_high_entropy
      && classify_mcp_headers_detects_pii_in_name
      && classify_mcp_headers_credential_prefix_case_insensitive
      && classify_mcp_headers_high_entropy_boundary_is_thirty_two_chars
      && classify_mcp_headers_credential_prefix_wins_over_other_risks
      && classify_mcp_headers_clean_values_return_none
      && classify_mcp_headers_no_mcp_headers_returns_none
      && classify_mcp_headers_partial_mcp_headers_benign_returns_none
      && classify_mcp_headers_partial_mcp_headers_leakage_detected
      && classify_mcp_headers_complete_mcp_headers_benign_returns_none
      && classify_mcp_headers_complete_mcp_headers_leakage_in_method_detected
      && classify_mcp_headers_complete_mcp_headers_leakage_in_name_detected)
    ≡ true
unfolding classify_mcp_headers header_risk has_prefix_in starts_with_ignore_case to_ascii_lowercase
    alnum_run name_risk contains_char is_alphanumeric is_ascii_alphanumeric text_eq byte_len
unit_tests_pass = refl
