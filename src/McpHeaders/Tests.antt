-- ===== src/McpHeaders/Tests.antt =====
-- crates/aep-core/src/mcp_headers.rs: runs on concrete headers.
use wasmagent_proxy.Base.{
  ◌≡◌, ◌↔◌, refl, false, none, some, [], ◌∷◌, Text, codes, replicate, Unicode, contains_char,
  is_alphanumeric, is_ascii_alphanumeric, to_ascii_lowercase,
}
use wasmagent_proxy.McpHeaders.{
  credential_leak, high_entropy_value, pii_leak, classify_mcp_headers, header_risk, has_prefix_in,
  starts_with_ignore_case, alnum_run, name_risk,
}
use wasmagent_proxy.McpHeaders.Classify.{Reports, IsAddress, classify_iff}
use wasmagent_proxy.McpHeaders.Matches.{IsCredential}
use wasmagent_proxy.McpHeaders.Runs.{HasRun}

-- Tables without letters beyond ASCII.
abbrev pub ascii : Unicode
ascii = record { is_alphanumeric_beyond = λ _. false; to_uppercase_beyond = λ c. c ∷ [] }

abbrev long_run : Text
long_run = replicate 32 b'a'

finds_bearer : classify_mcp_headers ascii none (some (codes "BEARER abc")) ≡ some credential_leak
unfolding classify_mcp_headers header_risk has_prefix_in starts_with_ignore_case to_ascii_lowercase
finds_bearer = refl

finds_address :
    classify_mcp_headers ascii (some (codes "tools/call")) (some (codes "a@b.c")) ≡ some pii_leak
unfolding classify_mcp_headers header_risk has_prefix_in starts_with_ignore_case to_ascii_lowercase
    alnum_run name_risk contains_char is_alphanumeric is_ascii_alphanumeric
finds_address = refl

-- A long run in the method hides a credential in the name.
run_hides_credential :
    classify_mcp_headers ascii (some long_run) (some (codes "ghp_token")) ≡ some high_entropy_value
unfolding classify_mcp_headers header_risk has_prefix_in starts_with_ignore_case to_ascii_lowercase
    alnum_run is_alphanumeric is_ascii_alphanumeric
run_hides_credential = refl

classify_iff_example :
    (classify_mcp_headers ascii (some long_run) (some (codes "ghp_token")) ≡ some credential_leak)
    ↔ Reports IsCredential
        (HasRun ascii 32)
        IsAddress
        (some long_run)
        (some (codes "ghp_token"))
        credential_leak
classify_iff_example = classify_iff ascii (some long_run) (some (codes "ghp_token")) credential_leak
