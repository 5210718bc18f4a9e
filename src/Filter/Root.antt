-- ===== src/Filter/Root.antt =====
-- crates/proxy-wasm-evidence/src/filter.rs: `on_configure`, and the contexts that a root creates.
use wasmagent_proxy.Base.{
  ℕ, ◌≡◌, ◌⊎◌, ◌<◌, inl, inr, refl, subst, some-injective, ◌≢◌, ◌↔◌, true, false, [], zero, suc,
  some, Option-cases, Bytes, ok, panic, codes, leb, ◌≤◌, Bool-cases, Result-cases, arith, ltb,
}
use wasmagent_proxy.Json.{Crates}
use wasmagent_proxy.Config.{PluginConfig, default_config, validate}
use wasmagent_proxy.Config.Validate.{validate_iff}
use wasmagent_proxy.Recorder.Buffer
use wasmagent_proxy.Filter.{
  Host, define, EvidenceRoot, default_root, load_config, on_configure, EvidenceFilter, new_filter,
  create_http_context,
}

module _ (x : Crates) where
  default_config-valid : validate x default_config ≡ ok tt
  unfolding validate
  default_config-valid = refl

  -- The host has a configuration, which parses and validates.
  abbrev pub Loads : Host → PluginConfig → Type 0
  Loads host config =
      (bytes : Bytes) × (host.get_plugin_configuration ≡ some bytes)
      × (host.parse_config bytes ≡ some config)
      × (validate x config ≡ ok tt)

  load_config_iff :
      (host : Host) (bytes : Bytes) (config : PluginConfig)
      → (load_config x host bytes ≡ some config)
        ↔ ((host.parse_config bytes ≡ some config) × (validate x config ≡ ok tt))
  unfolding load_config
  load_config_iff host bytes config = elim (Option-cases (host.parse_config bytes)) [
    | inr (c, e) ↦ elim (Result-cases (validate x c)) [
      | inl (_, v) ↦ (
        λ h.
            let same : some c ≡ some config = ground arith in
            (cc, subst (λ c. validate x c ≡ ok tt) (some-injective _ _ same) v),
        λ (p, w). ground arith,
      )
      | inr failed ↦ (λ h. ground arith, λ (h, w). ground arith)
    ]
    | inl failed ↦ (λ h. ground arith, λ (h, w). ground arith)
  ]

  configure_loaded :
      (host : Host) (root : EvidenceRoot) (size : ℕ) (config : PluginConfig)
      → size ≢ 0
      → Loads host config
      → on_configure x host root size
        ≡ (record { config = config; metrics = (define host).0 }, true, (define host).1)
  unfolding on_configure
  configure_loaded host root size config h (bytes, g, p, v) =
      let l = (load_config_iff host bytes config).1 (p, v) in ground (arith)

  configure_empty :
      (host : Host) (root : EvidenceRoot)
      → on_configure x host root 0
        ≡ (record { config = default_config; metrics = (define host).0 }, true, (define host).1)
  unfolding on_configure
  configure_empty host root = refl

  -- A configuration is refused when there is none, or it does not parse, or does not validate.
  configure_cases :
      (host : Host) (root : EvidenceRoot) (size : ℕ)
      → size ≢ 0
      → ((config : PluginConfig) × Loads host config)
        ⊎ (on_configure x host root size
            ≡ (record { config = root.config; metrics = (define host).0 }, false, (define host).1))
  unfolding on_configure
  configure_cases host root size h = elim (Option-cases host.get_plugin_configuration) [
    | inl e ↦ inr (ground arith)
    | inr (bytes, e) ↦ elim (Option-cases (load_config x host bytes)) [
      | inl failed ↦ inr (ground arith)
      | inr (config, l) ↦
          let (parsed, valid) = (load_config_iff host bytes config).0 l in
          inl (config, (bytes, e, parsed, valid))
    ]
  ]

  -- `on_configure` accepts exactly an empty configuration or one that the host has, that parses and
  -- that validates. The configuration then validates, whichever it is; otherwise it stays as it was.
  pub on_configure_iff :
      (host : Host) (root : EvidenceRoot) (size : ℕ)
      → (((on_configure x host root size).1 ≡ true)
          ↔ ((size ≡ 0) ⊎ (config : PluginConfig) × Loads host config))
        × (((on_configure x host root size).1 ≡ true)
              × (validate x (on_configure x host root size).0.config ≡ ok tt)
            ⊎ ((on_configure x host root size).1 ≡ false)
              × ((on_configure x host root size).0.config ≡ root.config))
  on_configure_iff host root zero =
      rw configure_empty ((λ h. inl refl, λ h. refl), inl (refl, default_config-valid))
  on_configure_iff host root (suc n) = elim (configure_cases host root (suc n) (λ e. cc)) [
    | inl (config, (bytes, there, parses, valid)) ↦
        let loads : Loads host config = (bytes, there, parses, valid) in
        rw (configure_loaded host root (suc n) config (λ e. cc) loads)
          ((λ h. inr (config, loads), λ h. refl), inl (refl, valid))
    | inr refused ↦ rw refused (
      (
        λ h. cc,
        λ h. elim h [
          | inl e ↦ cc
          | inr (config, loads) ↦
              cc (configure_loaded host root (suc n) config (λ e. cc) loads, refused)
        ],
      ),
      inr (refl, refl),
    )
  ]

-- The root contexts that a host can bring about.
pub data Configured (x : Crates) : EvidenceRoot → Type 0 where
  started : Configured x default_root
  configured :
      (host : Host) (root : EvidenceRoot) (size : ℕ)
      → Configured x root
      → Configured x (on_configure x host root size).0

module _ (x : Crates) where
  Configured-valid : (root : EvidenceRoot) → Configured x root → validate x root.config ≡ ok tt
  Configured-valid _ started = default_config-valid x
  Configured-valid _ (configured host root size c) = elim (on_configure_iff x host root size).1 [
    | inl (_, v) ↦ v
    | inr (_, same) ↦ rw same (Configured-valid root c)
  ]

  -- A configured root creates a filter or panics: whatever configurations a host sends, in whatever
  -- order, the root's buffer size is positive; if the target can allocate it, creation does not panic
  -- and the new filter has the root's configuration and an empty buffer of that capacity; and if the
  -- target cannot, creation panics, although the configuration was accepted.
  pub Configured-creates :
      (most : ℕ) (root : EvidenceRoot) (context_id : ℕ)
      → Configured x root
      → (0 < root.config.max_evidence_buffer)
        × ((root.config.max_evidence_buffer ≤ most)
              × ((f : EvidenceFilter) × (create_http_context most root context_id ≡ ok f)
                  × (f.config ≡ root.config)
                  × (f.evidence_buffer.entries ≡ [])
                  × (f.evidence_buffer.capacity ≡ root.config.max_evidence_buffer))
            ⊎ (most < root.config.max_evidence_buffer)
              × (create_http_context most root context_id ≡ panic (codes "capacity overflow")))
  unfolding create_http_context new_filter Buffer.new
  Configured-creates most root context_id c =
      let (positive, _) = (validate_iff x root.config).0 (Configured-valid root c) in
      let room : ltb 0 root.config.max_evidence_buffer ≡ true = ground arith in
      (
        positive,
        elim (Bool-cases (leb root.config.max_evidence_buffer most)) [
          | inl fits ↦ inl (ground arith, rw (room, fits) (_, refl, refl, refl, refl))
          | inr over ↦ inr (ground arith, rw (room, over) refl)
        ],
      )
