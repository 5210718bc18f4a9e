-- ===== src/Recorder/Severity.antt =====
-- crates/proxy-wasm-evidence/src/recorder.rs: the side-effect class of a request.
pub mod Escalation
use wasmagent_proxy.Base.{
  ℕ, Bool, true, false, ◌||◌, Option, none, some, Text, codes, text_eq, contains, Unicode,
  to_uppercase, ltb, if◌then◌else◌,
}
use wasmagent_proxy.Recording.{
  SideEffectClass, read, mutate_local, mutate_external, network_egress, unknown,
}

unfoldable pub is_safe_method : Text → Bool
is_safe_method m =
    text_eq m (codes "GET") || text_eq m (codes "HEAD") || text_eq m (codes "OPTIONS")

unfoldable pub is_writing_method : Text → Bool
is_writing_method m =
    text_eq m (codes "POST")
    || text_eq m (codes "PUT")
    || text_eq m (codes "PATCH")
    || text_eq m (codes "DELETE")

unfoldable pub is_egress_path : Text → Bool
is_egress_path path = contains path (codes "/network/") || contains path (codes "/webhook")

-- Layer 1 of `infer_side_effect_class_with_mcp`, on the upper-case method.
unfoldable pub http_class : Text → Text → SideEffectClass
http_class m path =
    if is_safe_method m
    then read
    else if is_writing_method m
    then (if is_egress_path path then network_egress else mutate_external)
    else unknown

unfoldable pub is_reading_operation : Text → Bool
is_reading_operation op =
    text_eq op (codes "tools/list")
    || text_eq op (codes "resources/list")
    || text_eq op (codes "resources/read")
    || text_eq op (codes "prompts/list")
    || text_eq op (codes "prompts/get")
    || text_eq op (codes "completion/complete")

-- Layer 2: what the MCP operation says.
unfoldable pub mcp_class : Text → SideEffectClass
mcp_class op =
    if text_eq op (codes "tools/call")
    then mutate_external
    else if is_reading_operation op
    then read
    else unknown

abbrev pub severity_rank : SideEffectClass → ℕ
severity_rank read = 0
severity_rank unknown = 1
severity_rank mutate_local = 2
severity_rank mutate_external = 3
severity_rank network_egress = 4

unfoldable pub max_severity : SideEffectClass → SideEffectClass → SideEffectClass
max_severity a b = if ltb (severity_rank a) (severity_rank b) then b else a

module _ (u : Unicode) where
  unfoldable pub infer_side_effect_class_with_mcp : Text → Text → Option Text → SideEffectClass
  infer_side_effect_class_with_mcp method path none = http_class (to_uppercase u method) path
  infer_side_effect_class_with_mcp method path (some op) =
      max_severity (http_class (to_uppercase u method) path) (mcp_class op)

  unfoldable pub infer_side_effect_class : Text → Text → SideEffectClass
  unfolding infer_side_effect_class_with_mcp
  infer_side_effect_class method path = infer_side_effect_class_with_mcp method path none
