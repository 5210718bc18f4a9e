-- ===== src/Dsse/Canonical/Joined.antt =====
-- crates/aep-core/src/dsse.rs: reading the parts of an array or object back from their joined text.
use wasmagent_proxy.Base.{
  ℕ, ◌≡◌, ◌≢◌, ◌⊎◌, inl, refl, sym, ap, subst, ◌∙◌, List, [], ◌∷◌, ◌++◌, append_assoc, map, Text,
  All,
}
use wasmagent_proxy.Dsse.Canonical.{join}

-- A character that can follow a value: a comma, a colon, or a closing bracket or brace.
abbrev pub IsDelimiter : ℕ → Type 0
IsDelimiter c = (c ≡ b',') ⊎ (c ≡ b':') ⊎ (c ≡ b']') ⊎ (c ≡ b'}')

-- What follows a value.
abbrev pub Ends : Text → Type 0
Ends [] = Unit
Ends (c ∷ s) = IsDelimiter c

-- The text of a value begins with a character that follows none.
pub record Begun (s : Text) : Type 0 where
  pub start : ℕ
  pub rest : Text
  pub spelled : s ≡ start ∷ rest
  pub other : ¬ IsDelimiter start

-- `p a`, followed by an end, is read back as `a`.
abbrev pub Unique : {A : Type 0} → (A → Text) → (A → Type 0) → A → Type 0
Unique p Good a =
    (b : _) (s t : Text) → Good b → Ends s → Ends t → p a ++ s ≡ p b ++ t → (a ≡ b) × (s ≡ t)

module _ {A : Type 0} (p : A → Text) (Good : A → Type 0) (close : ℕ) (closes : IsDelimiter close)
    (open_comma : close ≢ b',') where
  abbrev tail : List A → Text → Text
  tail [] s = close ∷ s
  tail (a ∷ xs) s = b',' ∷ (p a ++ tail xs s)

  join-tail :
      (a : A) (xs : List A) (s : Text) → join (map p (a ∷ xs)) ++ (close ∷ s) ≡ p a ++ tail xs s
  unfolding join
  join-tail a [] s = refl
  join-tail a (b ∷ xs) s =
      append_assoc (p a) (b',' ∷ join (map p (b ∷ xs))) (close ∷ s)
      ∙ ap (λ r. p a ++ (b',' ∷ r)) (join-tail b xs s)

  tail-Ends : (xs : List A) (s : Text) → Ends (tail xs s)
  tail-Ends [] s = closes
  tail-Ends (a ∷ xs) s = inl refl

  tails_agree :
      (xs bs : List A) (s t : Text)
      → All (Unique p Good) xs
      → All Good bs
      → tail xs s ≡ tail bs t
      → (xs ≡ bs) × (s ≡ t)
  tails_agree [] [] s t u g e = (refl, cc e)
  tails_agree [] (b ∷ bs) s t u g e = absurd (open_comma (cc e))
  tails_agree (a ∷ xs) [] s t u g e = absurd (open_comma (cc e))
  tails_agree (a ∷ xs) (b ∷ bs) s t (u, us) (g, gs) e =
      let (same, rest) = u b (tail xs s) (tail bs t) g (tail-Ends xs s) (tail-Ends bs t) (cc e) in
      let (sames, ends) = tails_agree xs bs s t us gs rest in (cc (same, sames), ends)

  Begun-not_closed : (q r s : Text) → Begun q → ¬ (q ++ r ≡ close ∷ s)
  Begun-not_closed q r s b e =
      let e' : b.start ∷ (b.rest ++ r) ≡ close ∷ s = ap (λ q. q ++ r) (sym b.spelled) ∙ e in
      b.other (subst IsDelimiter (sym (cc e')) closes)

  pub joined_agree :
      (xs bs : List A) (s t : Text)
      → All (Unique p Good) xs
      → All Good bs
      → All (λ a. Begun (p a)) xs
      → All (λ b. Begun (p b)) bs
      → join (map p xs) ++ (close ∷ s) ≡ join (map p bs) ++ (close ∷ t)
      → (xs ≡ bs) × (s ≡ t)
  unfolding join
  joined_agree [] [] s t u g x y e = (refl, cc e)
  joined_agree [] (b ∷ bs) s t u g x (y, ys) e =
      absurd (Begun-not_closed (p b) (tail bs t) s y (sym (e ∙ join-tail b bs t)))
  joined_agree (a ∷ xs) [] s t u g (x, rest_begun) y e =
      absurd (Begun-not_closed (p a) (tail xs s) t x (sym (join-tail a xs s) ∙ e))
  joined_agree (a ∷ xs) (b ∷ bs) s t (u, us) (g, gs) x y e =
      let both = sym (join-tail a xs s) ∙ (e ∙ join-tail b bs t) in
      let (same, rest) = u b (tail xs s) (tail bs t) g (tail-Ends xs s) (tail-Ends bs t) both in
      let (sames, ends) = tails_agree xs bs s t us gs rest in (cc (same, sames), ends)
