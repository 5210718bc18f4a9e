-- ===== src/Recorder/Severity/Escalation.antt =====
-- crates/proxy-wasm-evidence/src/recorder.rs: the class with an MCP operation and without.
use Prim.Native.Nat.{max}
use wasmagent_proxy.Base.{
  true, false, text_eq, refl, sym, subst, ◌≤◌, ◌≡◌, ◌↔◌, Option, none, some, List, [], ◌∷◌, Text,
  codes, text_eq_iff, In, Unicode, to_uppercase, arith,
}
use wasmagent_proxy.Recording.{SideEffectClass, read}
use wasmagent_proxy.Recorder.Severity.{
  is_safe_method, http_class, is_reading_operation, mcp_class, severity_rank, max_severity,
  infer_side_effect_class_with_mcp, infer_side_effect_class,
}

rank-max_severity :
    (a b : SideEffectClass)
    → severity_rank (max_severity a b) ≡ max (severity_rank a) (severity_rank b)
unfolding max_severity
rank-max_severity a b = ground arith

abbrev pub safe_methods : List Text
safe_methods = codes "GET" ∷ codes "HEAD" ∷ codes "OPTIONS" ∷ []

abbrev pub reading_operations : List Text
reading_operations =
    codes "tools/list"
    ∷ codes "resources/list"
    ∷ codes "resources/read"
    ∷ codes "prompts/list"
    ∷ codes "prompts/get"
    ∷ codes "completion/complete"
    ∷ []

safe_iff : (m : Text) → (is_safe_method m ≡ true) ↔ In m safe_methods
unfolding is_safe_method
safe_iff m = ground (
  arith,
  text_eq_iff m (codes "GET"),
  text_eq_iff m (codes "HEAD"),
  text_eq_iff m (codes "OPTIONS"),
)

reading_iff : (op : Text) → (is_reading_operation op ≡ true) ↔ In op reading_operations
unfolding is_reading_operation
reading_iff op = ground (
  arith,
  text_eq_iff op (codes "tools/list"),
  text_eq_iff op (codes "resources/list"),
  text_eq_iff op (codes "resources/read"),
  text_eq_iff op (codes "prompts/list"),
  text_eq_iff op (codes "prompts/get"),
  text_eq_iff op (codes "completion/complete"),
)

call_not_reading :
    (op : Text) → text_eq op (codes "tools/call") ≡ true → is_reading_operation op ≡ false
unfolding is_reading_operation text_eq
call_not_reading op h =
    subst (λ t. is_reading_operation t ≡ false) (sym ((text_eq_iff op (codes "tools/call")).0 h))
      refl

abbrev pub MayRead : Option Text → Type 0
MayRead none = Unit
MayRead (some op) = In op reading_operations

module _ (u : Unicode) where
  -- With any MCP operation, or none, the verdict ranks no lower than that of the method and path
  -- alone.
  pub infer_never_lowers :
      (method path : Text) (op : Option Text)
      → severity_rank (infer_side_effect_class u method path)
        ≤ severity_rank (infer_side_effect_class_with_mcp u method path op)
  unfolding infer_side_effect_class infer_side_effect_class_with_mcp
  infer_never_lowers method path none = omega arith
  infer_never_lowers method path (some op) =
      omega (arith, rank-max_severity (http_class (to_uppercase u method) path) (mcp_class op))

  -- The verdict is a read exactly when the upper-case method is GET, HEAD or OPTIONS and the MCP
  -- operation, if there is one, is a listed reading operation.
  pub infer-read_iff :
      (method path : Text) (op : Option Text)
      → (infer_side_effect_class_with_mcp u method path op ≡ read)
        ↔ (In (to_uppercase u method) safe_methods × MayRead op)
  unfolding infer_side_effect_class_with_mcp http_class mcp_class max_severity
  infer-read_iff method path none = ground (arith, safe_iff (to_uppercase u method))
  infer-read_iff method path (some op) =
      ground (arith, safe_iff (to_uppercase u method), reading_iff op, call_not_reading op)
