-- ===== src/McpHeaders/Classify.antt =====
-- crates/aep-core/src/mcp_headers.rs: what the classification reports.
use wasmagent_proxy.Base.{
  ℕ, ◌≤◌, ◌≡◌, ◌⊎◌, ◌↔◌, inl, inr, true, Option, none, some, [], ◌∷◌, Text, Unicode, contains_char,
  In, arith,
}
use wasmagent_proxy.McpHeaders.{
  McpHeaderRisk, credential_leak, high_entropy_value, pii_leak, credential_prefixes, has_prefix_in,
  alnum_run, header_risk, name_risk, classify_mcp_headers,
}
use wasmagent_proxy.McpHeaders.Matches.{IsCredential, IsCredential-iff}
use wasmagent_proxy.McpHeaders.Runs.{HasRun, alnum_run_iff}

-- A header that is present and satisfies the predicate.
abbrev pub Shows : (Text → Type 0) → Option Text → Type 0
Shows P none = ⊥
Shows P (some v) = P v

-- The character stands in the value.
contains_char_iff : (v : Text) (c : ℕ) → (contains_char v c ≡ true) ↔ In c v
unfolding contains_char
contains_char_iff [] c = ground arith
contains_char_iff (d ∷ v) c = ground (arith, contains_char_iff v c)

-- It looks like an address: it has an `@` and a dot.
abbrev pub IsAddress : Text → Type 0
IsAddress v = In b'@' v × In b'.' v

-- What a report of each risk means, for a credential and a long run in the method and in the name,
-- and an address in the name: a credential, unless the method before it has a long run; a long run,
-- unless a credential comes first; else an address.
abbrev pub Means : (cm lm cn ln a : Type 0) → McpHeaderRisk → Type 0
Means cm lm cn ln a credential_leak = cm ⊎ (¬ cm) × (¬ lm) × cn
Means cm lm cn ln a high_entropy_value = (¬ cm) × (lm ⊎ (¬ lm) × (¬ cn) × ln)
Means cm lm cn ln a pii_leak = (¬ cm) × (¬ lm) × (¬ cn) × (¬ ln) × a

abbrev pub Reports :
    (Credential LongRun Address : Text → Type 0)
    → Option Text
    → Option Text
    → McpHeaderRisk
    → Type 0
Reports C L A m n = Means (Shows C m) (Shows L m) (Shows C n) (Shows L n) (Shows A n)

Shows-iff :
    (P Q : Text → Type 0) (o : Option Text) → ((v : Text) → P v ↔ Q v) → Shows P o ↔ Shows Q o
Shows-iff P Q none e = (λ h. h, λ h. h)
Shows-iff P Q (some v) e = e v

Means-mono :
    {cm lm cn ln a cm' lm' cn' ln' a' : Type 0}
    → cm ↔ cm'
    → lm ↔ lm'
    → cn ↔ cn'
    → ln ↔ ln'
    → a ↔ a'
    → (r : McpHeaderRisk) → Means cm lm cn ln a r
    → Means cm' lm' cn' ln' a' r
Means-mono p q r s t credential_leak (inl h) = inl (p.0 h)
Means-mono p q r s t credential_leak (inr (x, y, z)) = inr (λ h. x (p.1 h), λ h. y (q.1 h), r.0 z)
Means-mono p q r s t high_entropy_value (x, inl h) = (λ h. x (p.1 h), inl (q.0 h))
Means-mono p q r s t high_entropy_value (x, inr (y, z, w)) =
    (λ h. x (p.1 h), inr (λ h. y (q.1 h), λ h. z (r.1 h), s.0 w))
Means-mono p q r s t pii_leak (x, y, z, w, v) =
    (λ h. x (p.1 h), λ h. y (q.1 h), λ h. z (r.1 h), λ h. w (s.1 h), t.0 v)

flip : {A B : Type 0} → A ↔ B → B ↔ A
flip (f, g) = (g, f)

module _ (u : Unicode) where
  abbrev CredentialTest : Text → Type 0
  CredentialTest v = has_prefix_in credential_prefixes v ≡ true

  abbrev RunTest : Text → Type 0
  RunTest v = 32 ≤ alnum_run u v

  abbrev AddressTest : Text → Type 0
  AddressTest v = (contains_char v b'@' ≡ true) × (contains_char v b'.' ≡ true)

  classify_tests :
      (m n : Option Text) (r : McpHeaderRisk)
      → (classify_mcp_headers u m n ≡ some r) ↔ Reports CredentialTest RunTest AddressTest m n r
  unfolding classify_mcp_headers header_risk name_risk
  classify_tests none none credential_leak = ground arith
  classify_tests m n credential_leak = ground arith
  classify_tests m n high_entropy_value = ground arith
  classify_tests m n pii_leak = ground arith

  IsAddress-iff : (v : Text) → AddressTest v ↔ IsAddress v
  IsAddress-iff v =
      let at = contains_char_iff v b'@' in
      let dot = contains_char_iff v b'.' in
      (λ (a, d). (at.0 a, dot.0 d), λ (a, d). (at.1 a, dot.1 d))

  -- A credential is reported exactly when the method begins with a listed prefix, or when it does not
  -- and has no run of 32 bytes of alphanumeric characters, and the name begins with a listed prefix.
  -- A high-entropy value is reported exactly when the method begins with no listed prefix and has
  -- such a run, or when it has neither, and the name begins with no listed prefix and has such a run.
  -- An address is reported exactly when neither header has a listed prefix or such a run, and the
  -- name has an `@` and a dot.
  pub classify_iff :
      (m n : Option Text) (r : McpHeaderRisk)
      → (classify_mcp_headers u m n ≡ some r) ↔ Reports IsCredential (HasRun u 32) IsAddress m n r
  classify_iff m n r =
      let cm = Shows-iff CredentialTest IsCredential m IsCredential-iff in
      let cn = Shows-iff CredentialTest IsCredential n IsCredential-iff in
      let run = λ (v : Text). alnum_run_iff u 32 v (omega arith) in
      let lm = Shows-iff RunTest (HasRun u 32) m run in
      let ln = Shows-iff RunTest (HasRun u 32) n run in
      let a = Shows-iff AddressTest IsAddress n IsAddress-iff in
      let (sound, complete) = classify_tests m n r in
      (
        λ h. Means-mono cm lm cn ln a r (sound h),
        λ h. complete (Means-mono (flip cm) (flip lm) (flip cn) (flip ln) (flip a) r h),
      )
