-- ===== src/Dsse/Canonical/Scalars.antt =====
-- crates/aep-core/src/dsse.rs: how the canonical JSON of a scalar, an array and an object begins.
use wasmagent_proxy.Base.{
  ℕ, ◌≡◌, ◌≢◌, ◌⊎◌, inl, inr, refl, sym, ap, ◌∙◌, [], ◌∷◌, ◌++◌, append-nil, Text, codes, arith,
}
use wasmagent_proxy.Json.{Value, null, boolean, number, string, array, object, Items, Map, Crates}
use wasmagent_proxy.Json.Members.{Entry}
use wasmagent_proxy.Dsse.Canonical.Joined.{IsDelimiter, Begun}
use wasmagent_proxy.Dsse.Canonical.Texts.{
  IsScalar, can, pair_text, object_text, array_text, scalar_text,
}

-- The text of a scalar begins neither like an end nor like an array or an object.
pub record IsPlain (s : Text) : Type 0 where
  pub begun : Begun s
  pub no_object : begun.start ≢ b'{'
  pub no_array : begun.start ≢ b'['

-- What is printed with a first character that the other lacks differs.
start_differs : {c : ℕ} (r q s t : Text) (b : Begun q) → b.start ≢ c → ¬ ((c ∷ r) ++ s ≡ q ++ t)
start_differs r q s t b other e =
    let e' : _ ∷ (r ++ s) ≡ b.start ∷ (b.rest ++ t) = e ∙ ap (λ q. q ++ t) b.spelled in
    other (sym (cc e'))

module _ (x : Crates) (plain : (v : Value) → IsScalar v → IsPlain (x.to_string v)) where
  abbrev text : Value → Text
  text = can x

  abbrev pair : Entry → Text
  pair = pair_text x

  pub scalar-IsPlain : (v : Value) → IsScalar v → IsPlain (text v)
  scalar-IsPlain v h = rw (scalar_text x v h) (plain v h)

  abbrev pub Kind : Value → Type 0
  Kind v = IsScalar v ⊎ ((xs : Items) × (v ≡ array xs)) ⊎ ((m : Map) × (v ≡ object m))

  pub kind : (v : Value) → Kind v
  kind null = inl tt
  kind (boolean b) = inl tt
  kind (number n) = inl tt
  kind (string s) = inl tt
  kind (array xs) = inr (inl (xs, refl))
  kind (object m) = inr (inr (m, refl))

  opening-Begun : (c : ℕ) (r q : Text) → q ≡ c ∷ r → ¬ IsDelimiter c → Begun q
  opening-Begun c r q e other = record { start = c; rest = r; spelled = e; other = other }

  pub can-Begun : (v : Value) → Begun (text v)
  can-Begun v = elim (kind v) [
    | inl scalar ↦ (scalar-IsPlain v scalar).begun
    | inr (inl (xs, e)) ↦ rw e (
        opening-Begun b'[' _ (text (array xs)) (sym (append-nil _) ∙ array_text x xs [])
          (λ d. ground arith))
    | inr (inr (m, e)) ↦ rw e (
        opening-Begun b'{' _ (text (object m)) (sym (append-nil _) ∙ object_text x m [])
          (λ d. ground arith))
  ]

  pub pair_text-Begun : (e : Entry) → Begun (pair e)
  pair_text-Begun (k, v) =
      let b = (plain (string k) tt).begun in
      record {
        start = b.start;
        rest = b.rest ++ (codes ":" ++ text v);
        spelled = ap (λ q. q ++ (codes ":" ++ text v)) b.spelled;
        other = b.other;
      }

  pub object_not_scalar :
      (m : Map) (w : Value) (s t : Text) → IsScalar w → ¬ (text (object m) ++ s ≡ text w ++ t)
  object_not_scalar m w s t scalar e =
      let p = scalar-IsPlain w scalar in
      start_differs _ (text w) [] t p.begun p.no_object
        (append-nil _ ∙ (sym (object_text x m s) ∙ e))

  pub array_not_scalar :
      (xs : Items) (w : Value) (s t : Text) → IsScalar w → ¬ (text (array xs) ++ s ≡ text w ++ t)
  array_not_scalar xs w s t scalar e =
      let p = scalar-IsPlain w scalar in
      start_differs _ (text w) [] t p.begun p.no_array
        (append-nil _ ∙ (sym (array_text x xs s) ∙ e))

  pub object_not_array :
      (m : Map) (xs : Items) (s t : Text) → ¬ (text (object m) ++ s ≡ text (array xs) ++ t)
  object_not_array m xs s t e =
      absurd (ground (arith, sym (object_text x m s) ∙ (e ∙ array_text x xs t)))
