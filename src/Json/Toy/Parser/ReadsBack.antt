-- ===== src/Json/Toy/Parser/ReadsBack.antt =====
-- The parser of Json/Toy/Parser.antt reads each JSON text of a value as that value.
use wasmagent_proxy.Base.{
  ℕ, zero, suc, ◌+◌, ◌*◌, ◌≤◌, ◌≡◌, ◌≢◌, inl, inr, refl, sym, ap, ◌∙◌, Bool, true, false, some,
  List, [], ◌∷◌, ◌++◌, append_assoc, Text, codes, length, length-append, ◌==◌, ==_iff, Bool-cases,
  Option-cases, In, All, All-In, All-of, text_eq, text_eq_iff, subst, arith,
}
use wasmagent_proxy.Json.{Value, string, Items, nil, cons, Map, end, field, get}
use wasmagent_proxy.Json.Members.{Entry, entries}
use wasmagent_proxy.Json.Order.{
  IsWellFormed, AreItems, AreFields, AreFields-Ordered, Ordered, insert-Ordered,
}
use wasmagent_proxy.Json.Lookup.{get-insert, In-get, get-In, maps_agree}
use wasmagent_proxy.Json.Toy.{to_string}
use wasmagent_proxy.Json.Toy.Printing.{to_string-IsPlain}
use wasmagent_proxy.Json.Toy.Parser.{
  scalar, build, parse_value, parse_items, parse_members, parsing,
}
use wasmagent_proxy.Json.Toy.Parser.Scanned.{scalar-to_string}
use wasmagent_proxy.Json.Toy.Parser.Steps.{
  Starts, length-Starts, item-step, member-step, body, join-body,
}
use wasmagent_proxy.Dsse.Canonical.{join}
use wasmagent_proxy.Dsse.Canonical.Texts.{IsScalar, listed}
use wasmagent_proxy.Dsse.Canonical.Renders.{
  Listing, Renders, EachRenders, MembersRender, array_of, object_of, no_items, item, no_members,
  member,
}

differs : (c d : ℕ) → (c ≢ d) → (c == d) ≡ false
differs c d h = elim (Bool-cases (c == d)) [
  | inl same ↦ absurd (h ((==_iff c d).0 same))
  | inr other ↦ other
]

scalar-Starts : (v : Value) → IsScalar v → Starts (to_string v)
scalar-Starts v h =
    let p = to_string-IsPlain v h in
    record {
      start = p.begun.start;
      rest = p.begun.rest;
      spelled = p.begun.spelled;
      no_bracket = differs _ _ (λ e. p.begun.other (inr (inr (inl e))));
      no_brace = differs _ _ (λ e. p.begun.other (inr (inr (inr e))));
    }

Renders-Starts : {v : Value} {t : Text} → Renders parsing v t → Starts t
Renders-Starts (Renders.scalar v h) = scalar-Starts v h
Renders-Starts (array_of xs ts each) = record {
  start = b'[';
  rest = _;
  spelled = refl;
  no_bracket = refl;
  no_brace = refl;
}
Renders-Starts (object_of m es ts all parts) = record {
  start = b'{';
  rest = _;
  spelled = refl;
  no_bracket = refl;
  no_brace = refl;
}

scalar-read :
    (f : ℕ) (v : Value) (s : Text)
    → IsScalar v
    → parse_value (suc f) (to_string v ++ s) ≡ some (v, s)
unfolding parse_value
scalar-read f v s h =
    let p = to_string-IsPlain v h in
    let spelled = p.begun.spelled in
    let read : scalar (p.begun.start ∷ (p.begun.rest ++ s)) ≡ some (v, s) =
      ap (λ t. scalar (t ++ s)) (sym spelled) ∙ scalar-to_string v s h in
    subst (λ t. parse_value (suc f) (t ++ s) ≡ some (v, s)) (sym spelled)
      (rw (parse_value, differs _ _ p.no_array) (rw (differs _ _ p.no_object) read))

-- What a map that is built of entries holds, if the entries are what `m` holds.
build-get :
    (m : Map) (es : List Entry) (k : Text)
    → All (λ e. get m e.0 ≡ some e.1) es
    → ((v : Value) → get m k ≡ some v → In {A = Entry} (k, v) es)
    → get (build es) k ≡ get m k
unfolding build get
build-get m [] k h there = elim (Option-cases (get m k)) [
  | inl absent ↦ sym absent
  | inr (v, e) ↦ absurd (there v e)
]
build-get m ((j, w) ∷ es) k (h, hs) there =
    get-insert j k w (build es) ∙ elim (Bool-cases (text_eq j k)) [
      | inl same ↦ rw same (sym h ∙ ap (get m) ((text_eq_iff j k).0 same))
      | inr other ↦ rw other (
          build-get m es k hs (λ v e. elim (there v e) [
            | inl here ↦ cc (other, (text_eq_iff j k).1 (ap (λ (e : Entry). e.0) (sym here)))
            | inr later ↦ later
          ]))
    ]

build-Ordered : (es : List Entry) → Ordered (build es)
unfolding build
build-Ordered [] = tt
build-Ordered ((k, v) ∷ es) = insert-Ordered k v (build es) (build-Ordered es)

build-Listing : (m : Map) (es : List Entry) → Ordered m → Listing es m → build es ≡ m
build-Listing m es o all = maps_agree (build es) m (build-Ordered es) o (λ k.
    build-get m es k (All-of _ es (λ (j, v) h. In-get m j v o ((all.same (j, v)).0 h)))
      (λ v e. (all.same (k, v)).1 (get-In m k v e)))

entries-AreWellFormed : (m : Map) → AreFields m → All (λ e. IsWellFormed e.1) (entries m)
unfolding AreFields
entries-AreWellFormed end f = tt
entries-AreWellFormed (field k v m) (b, w, f) = (w, entries-AreWellFormed m f)

abbrev to_items : List Value → Items
to_items [] = nil
to_items (v ∷ vs) = cons v (to_items vs)

to_items-listed : (xs : Items) → to_items (listed xs) ≡ xs
to_items-listed nil = refl
to_items-listed (cons v xs) = ap (cons v) (to_items-listed xs)

listed-AreWellFormed : (xs : Items) → AreItems xs → All IsWellFormed (listed xs)
unfolding AreItems
listed-AreWellFormed nil h = tt
listed-AreWellFormed (cons v xs) (w, h) = (w, listed-AreWellFormed xs h)

-- The characters of the joined texts with what closes them.
abbrev weight : List Text → ℕ
weight [] = 1
weight (t ∷ ts) = length t + weight ts

weight-joined : (close : ℕ) (ts : List Text) → weight ts ≤ length (join ts ++ (close ∷ []))
weight-joined close [] = omega (arith, ap length (join-body close [] []))
weight-joined close (t ∷ ts) = omega (
  arith,
  ap length (join-body close (t ∷ ts) []),
  length-append {0} t (body close false ts []),
  weight-rest close ts,
)
  where
    weight-rest : (close : ℕ) (ts : List Text) → weight ts ≤ length (body close false ts [])
    weight-rest close [] = omega arith
    weight-rest close (t ∷ ts) =
        omega (arith, weight-rest close ts, length-append {0} t (body close false ts []))

weight_pos : (ts : List Text) → 1 ≤ weight ts
weight_pos [] = omega arith
weight_pos (t ∷ ts) = omega (arith, weight_pos ts)

Starts-pos : (t : Text) → Starts t → 1 ≤ length t
Starts-pos t s = let (n, e) = length-Starts t s in omega (arith, e)

mutual
  unfolding parse_value IsWellFormed

  pub value-reads :
      {v : Value} {t : Text} (d : Renders parsing v t) (f : ℕ) (s : Text)
      → IsWellFormed v
      → 2 * length t ≤ f
      → parse_value (suc f) (t ++ s) ≡ some (v, s)
  value-reads (Renders.scalar v h) f s w enough = scalar-read f v s h
  value-reads (array_of xs ts each) f s w enough =
      let le = weight-joined b']' ts in
      let read = items-read each f true s (listed-AreWellFormed xs w) (omega (arith, le)) in
      let text = append_assoc (join ts) (codes "]") s ∙ join-body b']' ts s in
      rw (text, read, to_items-listed xs) refl
  value-reads (object_of m es ts all parts) f s w enough =
      let le = weight-joined b'}' ts in
      let kept =
        All-of _ es
          (λ e h. All-In _ (entries m) e (entries-AreWellFormed m w) ((all.same e).0 h)) in
      let read = members-read parts f true s kept (omega (arith, le)) in
      let text = append_assoc (join ts) (codes "}") s ∙ join-body b'}' ts s in
      rw (text, read, build-Listing m es (AreFields-Ordered m w) all) refl

  items-read :
      {vs : List Value} {ts : List Text} (d : EachRenders parsing vs ts) (f : ℕ) (first : Bool)
      (s : Text)
      → All IsWellFormed vs
      → 2 * weight ts ≤ f
      → parse_items f first (body b']' first ts s) ≡ some (to_items vs, s)
  items-read no_items zero first s w enough = absurd (omega arith)
  items-read no_items (suc f) first s w enough = refl
  items-read (item v t vs ts d each) zero first s w enough = absurd (omega (arith, weight_pos ts))
  items-read (item v t vs ts d each) (suc zero) first s w enough =
      absurd (omega (arith, weight_pos ts))
  items-read (item v t vs ts d each) (suc (suc f)) first s (w, ws) enough =
      let pos = Starts-pos t (Renders-Starts d) in
      item-step (suc f) first t (body b']' false ts s) s v (to_items vs) (Renders-Starts d)
        (value-reads d f (body b']' false ts s) w (omega (arith, weight_pos ts)))
        (items-read each (suc f) false s ws (omega (arith, pos)))

  members-read :
      {es : List Entry} {ts : List Text} (d : MembersRender parsing es ts) (f : ℕ) (first : Bool)
      (s : Text)
      → All (λ e. IsWellFormed e.1) es
      → 2 * weight ts ≤ f
      → parse_members f first (body b'}' first ts s) ≡ some (es, s)
  members-read no_members zero first s w enough = absurd (omega arith)
  members-read no_members (suc f) first s w enough = refl
  members-read (member k v t es ts d parts) zero first s w enough =
      absurd (omega (arith, weight_pos ts))
  members-read (member k v t es ts d parts) (suc zero) first s w enough =
      absurd (omega (arith, weight_pos ts))
  members-read (member k v t es ts d parts) (suc (suc f)) first s (w, ws) enough =
      let size = length-append {0} (to_string (string k)) (codes ":" ++ t) in
      member-step (suc f) first k t (body b'}' false ts s) s v es (scalar-Starts (string k) tt)
        (value-reads d f (body b'}' false ts s) w (omega (arith, size, weight_pos ts)))
        (members-read parts (suc f) false s ws (omega (arith, size)))
