-- ===== src/Config/Deserialize.antt =====
-- crates/proxy-wasm-evidence/src/config.rs: the derived `Deserialize` of the configuration, whose
-- `serde(default)` takes a missing field from the default configuration. It is `none` where serde
-- fails; other keys are ignored.
use wasmagent_proxy.Base.{ℕ, zero, suc, ◌^◌, Option, none, some, codes, ltb, if◌then◌else◌}
use wasmagent_proxy.Json.{Value, array, object, Items, nil, cons, get, as_str}
use wasmagent_proxy.Evidence.Deserialize.{◌>>=◌, nullable, as_u64, mode_from_value}
use wasmagent_proxy.Config.{PluginConfig, default_config}

-- A field that may be missing.
abbrev pub defaulted {ℓ} : {A : Type ℓ} → (Value → Option A) → A → Option Value → Option A
defaulted f d none = some d
defaulted f d (some v) = f v

-- `usize`, of 32 bits on the plugin's target.
abbrev pub as_usize : Value → Option ℕ
as_usize v = as_u64 v >>= λ n. if ltb n (2 ^ 32) then some n else none

-- The element of an array, from the front.
abbrev pub item_at : Items → ℕ → Option Value
item_at nil i = none
item_at (cons v xs) zero = some v
item_at (cons v xs) (suc i) = item_at xs i

abbrev pub count : Items → ℕ
count nil = 0
count (cons v xs) = suc (count xs)

-- The fields, by what each of them is given as.
unfoldable pub config_from :
    Option Value
    → Option Value
    → Option Value
    → Option Value
    → Option Value
    → Option Value
    → Option PluginConfig
config_from mode key_id key_hex trace_id agent_id capacity = do
  mode ← defaulted mode_from_value default_config.default_mode mode
  key_id ← defaulted as_str default_config.key_id key_id
  key_hex ← defaulted (nullable as_str) default_config.signing_key_hex key_hex
  trace_id ← defaulted as_str default_config.trace_id_header trace_id
  agent_id ← defaulted as_str default_config.agent_id_header agent_id
  capacity ← defaulted as_usize default_config.max_evidence_buffer capacity
  some record {
    default_mode = mode;
    key_id = key_id;
    signing_key_hex = key_hex;
    trace_id_header = trace_id;
    agent_id_header = agent_id;
    max_evidence_buffer = capacity;
  }

-- An array gives the fields in their order, and no more than there are.
unfoldable pub config_from_value : Value → Option PluginConfig
unfolding get config_from
config_from_value (object m) =
    config_from (get m (codes "default_mode")) (get m (codes "key_id"))
      (get m (codes "signing_key_hex")) (get m (codes "trace_id_header"))
      (get m (codes "agent_id_header")) (get m (codes "max_evidence_buffer"))
config_from_value (array xs) =
    if ltb (count xs) 7
    then config_from (item_at xs 0) (item_at xs 1) (item_at xs 2) (item_at xs 3) (item_at xs 4)
        (item_at xs 5)
    else none
config_from_value _ = none
