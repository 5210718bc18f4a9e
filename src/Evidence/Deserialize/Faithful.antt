-- ===== src/Evidence/Deserialize/Faithful.antt =====
-- crates/aep-core/src/evidence.rs: what the fields of a record say of the document that it was read
-- from.
use mathlib.Core.Option
use wasmagent_proxy.Base.{
  ◌≡◌, refl, sym, ap, ◌∙◌, Option, none, some, some-injective, List, Text, true, codes, text_eq_iff,
  Bool-cases, inl, inr, arith, text_eq,
}
use wasmagent_proxy.Json.{
  Value, null, boolean, number, string, pos_int, neg_int, float, array, object, Items, nil, cons,
  Map, end, field, get, as_str,
}
use wasmagent_proxy.Json.Order.{IsWellFormed, AreItems, AreFields}
use wasmagent_proxy.Recording.{RecordingMode, validation, delta, full, mode_str}
use wasmagent_proxy.Evidence.Serialize.{items, u64_value}
use wasmagent_proxy.Evidence.Rendered.{AllSome}
use wasmagent_proxy.Evidence.Deserialize.{
  ◌>>=◌, optional, required, nullable, as_u64, as_bool, as_list, each, variant, mode_from_value,
}

pub bind-eq_some {ℓ κ} :
    {A : Type ℓ} {B : Type κ} (o : Option A) (next : A → Option B) {b : B}
    → (o >>= next) ≡ some b
    → (a : A) × (o ≡ some a) × (next a ≡ some b)
bind-eq_some none next h = absurd (ground arith)
bind-eq_some (some a) next h = (a, refl, h)

-- Only the written form of a value is read found that value.
abbrev pub Faithful : {A : Type 0} → (Value → Option A) → (A → Value) → Type 0
Faithful {A} read write = (v : Value) (a : A) → IsWellFormed v → read v ≡ some a → v ≡ write a

pub text-Faithful : Faithful as_str string
text-Faithful (string s) t w h = ap string (some-injective _ _ h)
text-Faithful null t w h = absurd (ground arith)
text-Faithful (boolean b) t w h = absurd (ground arith)
text-Faithful (number n) t w h = absurd (ground arith)
text-Faithful (array xs) t w h = absurd (ground arith)
text-Faithful (object m) t w h = absurd (ground arith)

pub flag-Faithful : Faithful as_bool boolean
flag-Faithful (boolean b) t w h = ap boolean (some-injective _ _ h)
flag-Faithful null t w h = absurd (ground arith)
flag-Faithful (string s) t w h = absurd (ground arith)
flag-Faithful (number n) t w h = absurd (ground arith)
flag-Faithful (array xs) t w h = absurd (ground arith)
flag-Faithful (object m) t w h = absurd (ground arith)

pub u64-Faithful : Faithful as_u64 u64_value
u64-Faithful (number (pos_int n)) t w h = ap u64_value (some-injective _ _ h)
u64-Faithful (number (neg_int n)) t w h = absurd (ground arith)
u64-Faithful (number (float n)) t w h = absurd (ground arith)
u64-Faithful null t w h = absurd (ground arith)
u64-Faithful (string s) t w h = absurd (ground arith)
u64-Faithful (boolean n) t w h = absurd (ground arith)
u64-Faithful (array xs) t w h = absurd (ground arith)
u64-Faithful (object m) t w h = absurd (ground arith)

spelled :
    {name : Text} {mode found : RecordingMode}
    → text_eq name (mode_str found) ≡ true
    → found ≡ mode
    → name ≡ mode_str mode
spelled e same = (text_eq_iff _ _).0 e ∙ ap mode_str same

variant-eq : (name : Text) (mode : RecordingMode) → variant name ≡ some mode → name ≡ mode_str mode
unfolding variant
variant-eq name mode h = elim (Bool-cases (text_eq name (codes "validation"))) [
  | inl e ↦ spelled {found = validation} e (sym (some-injective _ _ (sym h ∙ rw e refl)))
  | inr n ↦ elim (Bool-cases (text_eq name (codes "delta"))) [
    | inl e ↦ spelled {found = delta} e (sym (some-injective _ _ (sym h ∙ rw (n, e) refl)))
    | inr n' ↦ elim (Bool-cases (text_eq name (codes "full"))) [
      | inl e ↦ spelled {found = full} e (sym (some-injective _ _ (sym h ∙ rw (n, n', e) refl)))
      | inr n'' ↦ absurd (ground arith)
    ]
  ]
]

pub mode-Faithful : Faithful mode_from_value (λ mode. string (mode_str mode))
unfolding IsWellFormed
mode-Faithful (string s) t w h = ap string (variant-eq s t h)
mode-Faithful null t w h = absurd (ground arith)
mode-Faithful (boolean n) t w h = absurd (ground arith)
mode-Faithful (number n) t w h = absurd (ground arith)
mode-Faithful (array xs) t w h = absurd (ground arith)
mode-Faithful (object end) t w h = absurd (ground arith)
mode-Faithful (object (field k null end)) t (b, x, f) h = absurd x
mode-Faithful (object (field k null (field j u m))) t (b, x, f) h = absurd x
mode-Faithful (object (field k (boolean n) m)) t w h = absurd (ground arith)
mode-Faithful (object (field k (number n) m)) t w h = absurd (ground arith)
mode-Faithful (object (field k (string n) m)) t w h = absurd (ground arith)
mode-Faithful (object (field k (array n) m)) t w h = absurd (ground arith)
mode-Faithful (object (field k (object n) m)) t w h = absurd (ground arith)

-- What an ordered map without `Null` holds for a key.
pub get-IsWellFormed : (m : Map) (k : Text) → AreFields m → AllSome IsWellFormed (get m k)
unfolding get AreFields
get-IsWellFormed end k f = tt
get-IsWellFormed (field j v m) k (b, w, f) = elim (Bool-cases (text_eq j k)) [
  | inl same ↦ rw same w
  | inr other ↦ rw other (get-IsWellFormed m k f)
]

module _ {A : Type 0} {read : Value → Option A} {write : A → Value}
    (faithful : Faithful read write) where
  pub required-Faithful :
      (o : Option Value) (a : A)
      → AllSome IsWellFormed o
      → required read o ≡ some a
      → o ≡ some (write a)
  required-Faithful none a w h = absurd (ground arith)
  required-Faithful (some v) a w h = ap some (faithful v a w h)

  nullable-some : (v : Value) → IsWellFormed v → nullable read v ≡ Option.map some (read v)
  unfolding IsWellFormed
  nullable-some null w = absurd w
  nullable-some (boolean b) w = refl
  nullable-some (number b) w = refl
  nullable-some (string b) w = refl
  nullable-some (array b) w = refl
  nullable-some (object b) w = refl

  map-some :
      (v : Value) (r : Option A) (o : Option A)
      → ((a : A) → r ≡ some a → v ≡ write a)
      → Option.map some r ≡ some o
      → some v ≡ Option.map write o
  map-some v none o f h = absurd (ground arith)
  map-some v (some a) none f h = absurd (ground arith)
  map-some v (some a) (some c) f h = ap some (f c (some-injective _ _ h))

  pub optional-Faithful :
      (o : Option Value) (a : Option A)
      → AllSome IsWellFormed o
      → optional read o ≡ some a
      → o ≡ Option.map write a
  optional-Faithful none none w h = refl
  optional-Faithful none (some a) w h = absurd (ground arith)
  optional-Faithful (some v) a w h =
      map-some v (read v) a (λ c e. faithful v c w e) (sym (nullable-some v w) ∙ h)

  each-Faithful :
      (xs : Items) (found : List A)
      → AreItems xs
      → each read xs ≡ some found
      → xs ≡ items write found
  unfolding each items AreItems
  each-Faithful nil found w h = rw (← some-injective _ _ h) refl
  each-Faithful (cons v xs) found (w, ws) h =
      let (a, e, h) = bind-eq_some _ _ h in
      let (rest, e', h) = bind-eq_some _ _ h in
      rw (← some-injective _ _ h, ← faithful v a w e, ← each-Faithful xs rest ws e') refl

  pub list-Faithful : Faithful (as_list read) (λ found. array (items write found))
  unfolding IsWellFormed
  list-Faithful (array xs) found w h = ap array (each-Faithful xs found w h)
  list-Faithful null found w h = absurd (ground arith)
  list-Faithful (boolean b) found w h = absurd (ground arith)
  list-Faithful (number b) found w h = absurd (ground arith)
  list-Faithful (string b) found w h = absurd (ground arith)
  list-Faithful (object b) found w h = absurd (ground arith)
