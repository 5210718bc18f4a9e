-- ===== src/Config/Validate.antt =====
-- crates/proxy-wasm-evidence/src/config.rs: which configurations validate.
use wasmagent_proxy.Base.{
  ◌<◌, ◌≡◌, ◌↔◌, inl, inr, refl, Option, none, some, Text, Bytes, length, ok, Result-cases, arith,
}
use wasmagent_proxy.Json.{Crates}
use wasmagent_proxy.Config.{PluginConfig, validate_key, validate}

module _ (x : Crates) where
  -- The key decodes to the 32 bytes of an Ed25519 seed, if there is one.
  abbrev pub IsSeed : Option Text → Type 0
  IsSeed none = Unit
  IsSeed (some key_hex) = (seed : Bytes) × (x.hex_decode key_hex ≡ ok seed) × (length seed ≡ 32)

  validate_key_iff : (key : Option Text) → (validate_key x key ≡ ok tt) ↔ IsSeed key
  unfolding validate_key
  validate_key_iff none = (λ h. tt, λ h. refl)
  validate_key_iff (some key_hex) = elim (Result-cases (x.hex_decode key_hex)) [
    | inl (seed, e) ↦ (λ h. (seed, e, ground (arith, h)), λ (s, d, l). ground arith)
    | inr failed ↦ (λ h. ground arith, λ (s, d, l). ground arith)
  ]

  -- A configuration validates exactly when its buffer holds at least one record and its signing key,
  -- if it has one, is the hexadecimal form of 32 bytes.
  pub validate_iff :
      (config : PluginConfig)
      → (validate x config ≡ ok tt)
        ↔ ((0 < config.max_evidence_buffer) × IsSeed config.signing_key_hex)
  unfolding validate
  validate_iff config =
      let keyed = validate_key_iff config.signing_key_hex in (λ h. ground arith, λ h. ground arith)
