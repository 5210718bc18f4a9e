-- ===== src/McpHeaders.antt =====
-- crates/aep-core/src/mcp_headers.rs, with `McpHeaderRisk` of crates/aep-core/src/evidence.rs:
-- sensitive data in the MCP-Method and MCP-Name headers.
mod Matches
mod Runs
pub mod Classify
mod Tests
mod UnitTests
use wasmagent_proxy.Base.{
  ℕ, ◌+◌, Bool, true, false, ◌&&◌, ◌||◌, not, Option, none, some, List, [], ◌∷◌, Text, codes,
  Unicode, is_alphanumeric, to_ascii_lowercase, utf8_len, contains_char, ltb, leb, ◌==◌,
  if◌then◌else◌, arith,
}
use Prim.Native.Nat.{max}

pub data McpHeaderRisk : Type 0 where
  credential_leak high_entropy_value pii_leak : McpHeaderRisk

-- `McpHeaderRisk::as_str`
abbrev pub risk_str : McpHeaderRisk → Text
risk_str credential_leak = codes "credential_leak"
risk_str high_entropy_value = codes "high_entropy_value"
risk_str pii_leak = codes "pii_leak"

-- The prefix is ASCII in every call, so a byte that equals one of its bytes is a whole `char`.
unfoldable pub starts_with_ignore_case : Text → Text → Bool
starts_with_ignore_case value [] = true
starts_with_ignore_case [] (p ∷ prefix) = false
starts_with_ignore_case (c ∷ value) (p ∷ prefix) =
    to_ascii_lowercase c == to_ascii_lowercase p && starts_with_ignore_case value prefix

abbrev pub credential_prefixes : List Text
credential_prefixes =
    codes "ghp_" ∷ codes "ghb_" ∷ codes "sk-" ∷ codes "Bearer " ∷ codes "token " ∷ codes "api_" ∷ []

abbrev pub min_high_entropy_len : ℕ
min_high_entropy_len = 32

unfoldable pub has_prefix_in : List Text → Text → Bool
has_prefix_in [] val = false
has_prefix_in (prefix ∷ rest) val = starts_with_ignore_case val prefix || has_prefix_in rest val

module _ (u : Unicode) where
  -- `split(|c| !c.is_alphanumeric()).map(|s| s.len()).max()`: `run` is the length in bytes of the
  -- piece being read, `best` the greatest length of a finished piece.
  unfoldable pub alnum_run_from : ℕ → ℕ → Text → ℕ
  alnum_run_from best run [] = max best run
  alnum_run_from best run (c ∷ val) = elim (is_alphanumeric u c) [
    | true ↦ alnum_run_from best (run + utf8_len c) val
    | false ↦ alnum_run_from (max best run) 0 val
  ]

  unfoldable pub alnum_run : Text → ℕ
  unfolding alnum_run_from
  alnum_run = alnum_run_from 0 0

  -- The body of the loop over the two headers.
  unfoldable pub header_risk : Text → Option McpHeaderRisk
  header_risk val =
      if has_prefix_in credential_prefixes val
      then some credential_leak
      else if leb min_high_entropy_len (alnum_run val)
      then some high_entropy_value
      else none

  unfoldable pub headers_risk : List (Option Text) → Option McpHeaderRisk
  headers_risk [] = none
  headers_risk (none ∷ vals) = headers_risk vals
  headers_risk (some val ∷ vals) = elim (header_risk val) [
    | some risk ↦ some risk
    | none ↦ headers_risk vals
  ]

  -- The check of MCP-Name for an address.
  unfoldable pub name_risk : Option Text → Option McpHeaderRisk
  name_risk none = none
  name_risk (some name) =
      if contains_char name b'@' && contains_char name b'.' then some pii_leak else none

  unfoldable pub classify_mcp_headers : Option Text → Option Text → Option McpHeaderRisk
  unfolding headers_risk
  classify_mcp_headers mcp_method mcp_name = elim (headers_risk (mcp_method ∷ mcp_name ∷ [])) [
    | some risk ↦ some risk
    | none ↦ name_risk mcp_name
  ]
