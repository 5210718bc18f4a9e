-- ===== src/McpHeaders/Matches.antt =====
-- crates/aep-core/src/mcp_headers.rs: the header values that begin with a prefix.
use wasmagent_proxy.Base.{
  ◌≡◌, ◌↔◌, inl, inr, refl, true, List, [], ◌∷◌, ◌++◌, map, Text, to_ascii_lowercase, In, arith,
  Bool-cases,
}
use wasmagent_proxy.McpHeaders.{starts_with_ignore_case, credential_prefixes, has_prefix_in}

-- The value begins with the prefix, up to the case of ASCII letters.
pub record Begins (value prefix : Text) : Type 0 where
  pub head : Text
  pub rest : Text
  pub spelled : value ≡ head ++ rest
  pub same : map to_ascii_lowercase head ≡ map to_ascii_lowercase prefix

starts-Begins :
    (value prefix : Text) → starts_with_ignore_case value prefix ≡ true → Begins value prefix
unfolding starts_with_ignore_case
starts-Begins value [] h = record { head = []; rest = value; spelled = refl; same = refl }
starts-Begins [] (p ∷ prefix) h = cc
starts-Begins (c ∷ value) (p ∷ prefix) h =
    let ih = starts-Begins value prefix (ground arith) in
    let e : to_ascii_lowercase c ≡ to_ascii_lowercase p = ground arith in
    record { head = c ∷ ih.head; rest = ih.rest; spelled = cc ih.spelled; same = cc (e, ih.same) }

Begins-starts :
    (head rest prefix : Text)
    → map to_ascii_lowercase head ≡ map to_ascii_lowercase prefix
    → starts_with_ignore_case (head ++ rest) prefix ≡ true
unfolding starts_with_ignore_case
Begins-starts [] rest [] h = refl
Begins-starts (c ∷ head) rest [] h = cc
Begins-starts [] rest (p ∷ prefix) h = cc
Begins-starts (c ∷ head) rest (p ∷ prefix) h =
    let e : to_ascii_lowercase c ≡ to_ascii_lowercase p = cc in
    ground (arith, e, Begins-starts head rest prefix (cc))

-- One of the known prefixes of credentials begins the value.
pub record IsCredential (value : Text) : Type 0 where
  pub prefix : Text
  pub listed : In prefix credential_prefixes
  pub begins : Begins value prefix

has_prefix_sound :
    (prefixes : List Text) (value : Text)
    → has_prefix_in prefixes value ≡ true
    → (p : Text) × In p prefixes × Begins value p
unfolding has_prefix_in
has_prefix_sound [] value h = cc
has_prefix_sound (p ∷ ps) value h = elim (Bool-cases (starts_with_ignore_case value p)) [
  | inl starts ↦ (p, inl refl, starts-Begins value p starts)
  | inr other ↦ let (q, m, b) = has_prefix_sound ps value (ground arith) in (q, inr m, b)
]

has_prefix_complete :
    (prefixes : List Text) (value p : Text)
    → In p prefixes
    → Begins value p
    → has_prefix_in prefixes value ≡ true
unfolding has_prefix_in
has_prefix_complete [] value p m b = elim m [ ]
has_prefix_complete (q ∷ qs) value p (inl e) b =
    let starts : starts_with_ignore_case value p ≡ true =
      rw b.spelled (Begins-starts b.head b.rest p b.same) in
    ground (arith, starts, e)
has_prefix_complete (q ∷ qs) value p (inr m) b = ground (arith, has_prefix_complete qs value p m b)

pub IsCredential-iff :
    (value : Text) → (has_prefix_in credential_prefixes value ≡ true) ↔ IsCredential value
IsCredential-iff value = (
  λ h.
      let (p, m, b) = has_prefix_sound credential_prefixes value h in
      record { prefix = p; listed = m; begins = b },
  λ c. has_prefix_complete credential_prefixes value c.prefix c.listed c.begins,
)
