-- ===== src/Dsse/Canonical/Injective.antt =====
-- crates/aep-core/src/dsse.rs: reading a value back from its canonical JSON.
use wasmagent_proxy.Base.{
  ◌≡◌, inl, inr, refl, sym, ap, ◌∙◌, List, [], ◌∷◌, ◌++◌, append_assoc, append-nil, Text, All,
  arith,
}
use wasmagent_proxy.Json.{
  Value, null, boolean, number, string, array, object, Items, nil, cons, end, field, Map, Crates,
}
use wasmagent_proxy.Json.Order.{IsWellFormed, AreItems, AreFields, AreFields-Ordered}
use wasmagent_proxy.Json.Members.{Entry, entries, members_agree}
use wasmagent_proxy.Dsse.Canonical.{canonical_json_value}
use wasmagent_proxy.Dsse.Canonical.Joined.{Ends, Begun, Unique, joined_agree}
use wasmagent_proxy.Dsse.Canonical.Entries.{All-sort_entries, sorted-Within}
use wasmagent_proxy.Dsse.Canonical.Texts.{
  IsScalar, listed, listed-injective, can, pair_text, IsKept, sorted, object_text, array_text,
  scalar_text,
}
use wasmagent_proxy.Dsse.Canonical.Scalars.{
  IsPlain, can-Begun, pair_text-Begun, object_not_scalar, array_not_scalar, object_not_array, kind,
}

module _ (x : Crates) (plain : (v : Value) → IsScalar v → IsPlain (x.to_string v))
    (delimits : (u v : Value) (s t : Text)
      → IsScalar u
      → IsScalar v
      → Ends s
      → Ends t
      → x.to_string u ++ s ≡ x.to_string v ++ t
      → (u ≡ v) × (s ≡ t)) where
  abbrev text : Value → Text
  text = can x

  abbrev pair : Entry → Text
  pair = pair_text x

  entry-Unique : (e : Entry) → Unique text IsWellFormed e.1 → Unique pair IsKept e
  entry-Unique (k, v) unique (j, u) s t kept ends other_ends e =
      let left = append_assoc (x.to_string (string k)) (b':' ∷ text v) s in
      let right = append_assoc (x.to_string (string j)) (b':' ∷ text u) t in
      let (keys, rest) =
        delimits (string k) (string j) (b':' ∷ (text v ++ s)) (b':' ∷ (text u ++ t)) tt tt
          (inr (inl refl)) (inr (inl refl)) (sym left ∙ (e ∙ right)) in
      let (values, tails) = unique u s t kept ends other_ends (cc rest) in
      let same_key : k ≡ j = cc keys in (ap (λ k. (k, v)) same_key ∙ ap (λ v. (j, v)) values, tails)

  scalar-Unique : (v : Value) → IsScalar v → Unique text IsWellFormed v
  scalar-Unique v scalar w s t good ends other_ends e = elim (kind x plain w) [
    | inl other ↦ delimits v w s t scalar other ends other_ends (
        ap (λ q. q ++ s) (sym (scalar_text x v scalar))
        ∙ (e ∙ ap (λ q. q ++ t) (scalar_text x w other)))
    | inr (inl (ys, is_array)) ↦
        absurd (array_not_scalar x plain ys v t s scalar (sym (e ∙ ap (λ w. text w ++ t) is_array)))
    | inr (inr (n, is_object)) ↦
        absurd
          (object_not_scalar x plain n v t s scalar (sym (e ∙ ap (λ w. text w ++ t) is_object)))
  ]

  kept : (m : Map) → AreFields m → All IsKept (entries m)
  unfolding AreFields
  kept end f = tt
  kept (field k v m) (b, w, f) = (w, kept m f)

  well_formed : (xs : Items) → AreItems xs → All IsWellFormed (listed xs)
  unfolding AreItems
  well_formed nil h = tt
  well_formed (cons v xs) (w, h) = (w, well_formed xs h)

  All-Begun :
      {A : Type 0} (p : A → Text) (vs : List A)
      → ((a : A) → Begun (p a))
      → All (λ a. Begun (p a)) vs
  All-Begun p [] f = tt
  All-Begun p (a ∷ vs) f = (f a, All-Begun p vs f)

  objects_agree :
      (m n : Map) (s t : Text)
      → AreFields m
      → AreFields n
      → All (Unique pair IsKept) (entries m)
      → text (object m) ++ s ≡ text (object n) ++ t
      → (m ≡ n) × (s ≡ t)
  objects_agree m n s t f g unique e =
      let inner = sym (object_text x m s) ∙ (e ∙ object_text x n t) in
      let (same, rest) =
        joined_agree pair IsKept b'}' (inr (inr (inr refl))) (λ h. ground arith) (sorted x m)
          (sorted x n) s t (All-sort_entries _ (entries m) unique)
          (All-sort_entries IsKept (entries n) (kept n g))
          (All-Begun pair _ (pair_text-Begun x plain)) (All-Begun pair _ (pair_text-Begun x plain))
          (cc inner) in
      (
        members_agree m n (AreFields-Ordered m f) (AreFields-Ordered n g) (sorted-Within m n same)
            (sorted-Within n m (sym same)),
        rest,
      )

  arrays_agree :
      (xs ys : Items) (s t : Text)
      → AreItems ys
      → All (Unique text IsWellFormed) (listed xs)
      → text (array xs) ++ s ≡ text (array ys) ++ t
      → (xs ≡ ys) × (s ≡ t)
  arrays_agree xs ys s t g unique e =
      let inner = sym (array_text x xs s) ∙ (e ∙ array_text x ys t) in
      let (same, rest) =
        joined_agree text IsWellFormed b']' (inr (inr (inl refl))) (λ h. ground arith) (listed xs)
          (listed ys) s t unique (well_formed ys g) (All-Begun text _ (can-Begun x plain))
          (All-Begun text _ (can-Begun x plain)) (cc inner) in
      (listed-injective xs ys same, rest)

  object-Unique :
      (m : Map)
      → AreFields m
      → All (Unique pair IsKept) (entries m)
      → Unique text IsWellFormed (object m)
  unfolding AreFields
  object-Unique m f unique null s t good ends other_ends e = absurd good
  object-Unique m f unique (array ys) s t good ends other_ends e =
      absurd (object_not_array x plain m ys s t e)
  object-Unique m f unique (object n) s t good ends other_ends e =
      let (same, rest) = objects_agree m n s t f good unique e in (ap object same, rest)
  object-Unique m f unique (boolean b) s t good ends other_ends e =
      absurd (object_not_scalar x plain m (boolean b) s t tt e)
  object-Unique m f unique (number b) s t good ends other_ends e =
      absurd (object_not_scalar x plain m (number b) s t tt e)
  object-Unique m f unique (string b) s t good ends other_ends e =
      absurd (object_not_scalar x plain m (string b) s t tt e)

  array-Unique :
      (xs : Items)
      → All (Unique text IsWellFormed) (listed xs)
      → Unique text IsWellFormed (array xs)
  unfolding AreItems
  array-Unique xs unique null s t good ends other_ends e = absurd good
  array-Unique xs unique (array ys) s t good ends other_ends e =
      let (same, rest) = arrays_agree xs ys s t good unique e in (ap array same, rest)
  array-Unique xs unique (object n) s t good ends other_ends e =
      absurd (object_not_array x plain n xs t s (sym e))
  array-Unique xs unique (boolean b) s t good ends other_ends e =
      absurd (array_not_scalar x plain xs (boolean b) s t tt e)
  array-Unique xs unique (number b) s t good ends other_ends e =
      absurd (array_not_scalar x plain xs (number b) s t tt e)
  array-Unique xs unique (string b) s t good ends other_ends e =
      absurd (array_not_scalar x plain xs (string b) s t tt e)

  mutual
    unfolding IsWellFormed

    value-Unique : (v : Value) → IsWellFormed v → Unique text IsWellFormed v
    value-Unique null w = absurd w
    value-Unique (boolean b) w = scalar-Unique (boolean b) tt
    value-Unique (number n) w = scalar-Unique (number n) tt
    value-Unique (string s) w = scalar-Unique (string s) tt
    value-Unique (array xs) w = array-Unique xs (items-Unique xs w)
    value-Unique (object m) w = object-Unique m w (fields-Unique m w)

    items-Unique : (xs : Items) → AreItems xs → All (Unique text IsWellFormed) (listed xs)
    items-Unique nil h = tt
    items-Unique (cons v xs) (w, h) = (value-Unique v w, items-Unique xs h)

    fields-Unique : (m : Map) → AreFields m → All (Unique pair IsKept) (entries m)
    fields-Unique end f = tt
    fields-Unique (field k v m) (b, w, f) =
        (entry-Unique (k, v) (value-Unique v w), fields-Unique m f)

  -- Two well-formed values with the same canonical JSON are equal, if the text of a scalar begins
  -- like no array, no object and nothing that follows a value, and if two texts of scalars, each
  -- followed by a comma, a colon, a closing bracket or brace or nothing, are equal only for equal
  -- scalars with equal continuations.
  pub canonical_json-injective :
      (v w : Value)
      → IsWellFormed v
      → IsWellFormed w
      → canonical_json_value x v ≡ canonical_json_value x w
      → v ≡ w
  canonical_json-injective v w good other e =
      (value-Unique v good w [] [] other tt tt
        (append-nil (text v) ∙ (e ∙ sym (append-nil (text w))))).0
