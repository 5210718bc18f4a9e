-- ===== src/Json/Toy/Parser/Steps.antt =====
-- The steps of the parser of Json/Toy/Parser.antt on the text of an array or an object.
use wasmagent_proxy.Base.{
  ℕ, suc, ◌≡◌, refl, sym, ap, ◌∙◌, Bool, true, false, none, some, List, [], ◌∷◌, ◌++◌, append_assoc,
  Text, codes, length, ◌==◌, subst,
}
use wasmagent_proxy.Json.{Value, string, Items, cons}
use wasmagent_proxy.Json.Members.{Entry}
use wasmagent_proxy.Json.Toy.{to_string}
use wasmagent_proxy.Json.Toy.Parser.{after, parse_value, parse_items, parse_members}
use wasmagent_proxy.Json.Toy.Parser.Scanned.{scalar-to_string}
use wasmagent_proxy.Dsse.Canonical.{join}

-- The text begins with a character other than `]` and `}`.
pub record Starts (t : Text) : Type 0 where
  pub start : ℕ
  pub rest : Text
  pub spelled : t ≡ start ∷ rest
  pub no_bracket : (start == b']') ≡ false
  pub no_brace : (start == b'}') ≡ false

pub length-Starts : (t : Text) → Starts t → (n : ℕ) × (length t ≡ suc n)
length-Starts t s = (length s.rest, ap length s.spelled)

after-bracket : (t u : Text) → Starts t → after b']' (t ++ u) ≡ none
after-bracket t u s = rw s.spelled (rw (s.no_bracket, after) refl)

after-brace : (t u : Text) → Starts t → after b'}' (t ++ u) ≡ none
after-brace t u s = rw s.spelled (rw (s.no_brace, after) refl)

abbrev pub sep : Bool → Text → Text
sep true t = t
sep false t = b',' ∷ t

pub item-step :
    (f : ℕ) (first : Bool) (t u s : Text) (v : Value) (xs : Items)
    → Starts t
    → parse_value f (t ++ u) ≡ some (v, u)
    → parse_items f false u ≡ some (xs, s)
    → parse_items (suc f) first (sep first (t ++ u)) ≡ some (cons v xs, s)
unfolding parse_items
item-step f true t u s v xs st read more =
    rw (parse_items, after-bracket t u st) (rw (read, more) refl)
item-step f false t u s v xs st read more = rw (parse_items, read) (rw more refl)

-- A member: a key, a colon and the text of a value.
abbrev pub member_text : Text → Text → Text
member_text k t = to_string (string k) ++ (codes ":" ++ t)

pub member-step :
    (f : ℕ) (first : Bool) (k t u s : Text) (v : Value) (es : List Entry)
    → Starts (to_string (string k))
    → parse_value f (t ++ u) ≡ some (v, u)
    → parse_members f false u ≡ some (es, s)
    → parse_members (suc f) first (sep first (member_text k t ++ u)) ≡ some ((k, v) ∷ es, s)
unfolding parse_members
member-step f true k t u s v es st read more =
    let e = append_assoc (to_string (string k)) (b':' ∷ t) u in
    let key = scalar-to_string (string k) (b':' ∷ (t ++ u)) tt in
    subst (λ text. parse_members (suc f) true text ≡ some ((k, v) ∷ es, s)) (sym e)
      (rw (parse_members, after-brace (to_string (string k)) (b':' ∷ (t ++ u)) st, key)
        (rw (read, more) refl))
member-step f false k t u s v es st read more =
    let e = append_assoc (to_string (string k)) (b':' ∷ t) u in
    let key = scalar-to_string (string k) (b':' ∷ (t ++ u)) tt in
    subst (λ text. parse_members (suc f) false (b',' ∷ text) ≡ some ((k, v) ∷ es, s)) (sym e)
      (rw (parse_members, key) (rw (read, more) refl))

-- The joined texts with what closes them and what follows.
abbrev pub body : ℕ → Bool → List Text → Text → Text
body close first [] s = close ∷ s
body close first (t ∷ ts) s = sep first (t ++ body close false ts s)

join-rest :
    (close : ℕ) (t : Text) (ts : List Text) (s : Text)
    → join (t ∷ ts) ++ (close ∷ s) ≡ t ++ body close false ts s
unfolding join
join-rest close t [] s = refl
join-rest close t (u ∷ ts) s =
    append_assoc t (b',' ∷ join (u ∷ ts)) (close ∷ s)
    ∙ ap (λ r. t ++ (b',' ∷ r)) (join-rest close u ts s)

pub join-body :
    (close : ℕ) (ts : List Text) (s : Text) → join ts ++ (close ∷ s) ≡ body close true ts s
unfolding join
join-body close [] s = refl
join-body close (t ∷ ts) s = join-rest close t ts s
