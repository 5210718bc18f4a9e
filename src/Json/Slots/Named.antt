-- ===== src/Json/Slots/Named.antt =====
-- Objects that are written as a list of fields, whose names differ from each other and from those of
-- the other entries.
use wasmagent_proxy.Base.{
  ◌≡◌, refl, ◌∙◌, Bool, true, false, not, ◌&&◌, Option, none, List, [], ◌∷◌, Text, text_eq,
  text_eq_iff, text_eq_refl, Bool-cases, inl, inr, All, arith,
}
use wasmagent_proxy.Json.{Value, Fields, Map, get}
use wasmagent_proxy.Json.Order.{Ordered}
use wasmagent_proxy.Json.Lookup.{first_some-none, is_listed}
use wasmagent_proxy.Json.Slots.{
  Slot, names, seen, seen-unlisted, struct, get-struct_field, Agree, Apart,
}

-- The names differ.
unfoldable pub distinct : List Text → Bool
unfolding is_listed
distinct [] = true
distinct (k ∷ ks) = not (is_listed ks k) && distinct ks

pub Agree-of :
    (look seek : Text → Option Value) (slots : List Slot)
    → ((k : Text) → is_listed (names slots) k ≡ true → seek k ≡ look k)
    → Agree look slots
    → Agree seek slots
unfolding is_listed
Agree-of look seek [] same h = tt
Agree-of look seek ((j, o) ∷ slots) same (h, hs) = (
  same j (rw (text_eq_refl j) refl) ∙ h,
  Agree-of look seek slots (λ k l. same k (ground (arith, l))) hs,
)

listed-apart :
    (ks : List Text) (j k : Text)
    → is_listed ks j ≡ false
    → is_listed ks k ≡ true
    → text_eq j k ≡ false
listed-apart ks j k h l = elim (Bool-cases (text_eq j k)) [
  | inl same ↦ cc (h, l, (text_eq_iff j k).0 same)
  | inr other ↦ other
]

-- What is not among all names is not among some of them.
pub unlisted-part :
    (part ks : List Text) (k : Text)
    → All (λ name. is_listed ks name ≡ true) part
    → is_listed ks k ≡ false
    → is_listed part k ≡ false
unfolding is_listed
unlisted-part [] ks k h l = refl
unlisted-part (j ∷ part) ks k (h, hs) l = elim (Bool-cases (text_eq j k)) [
  | inl same ↦ cc (h, l, (text_eq_iff j k).0 same)
  | inr other ↦ rw other (unlisted-part part ks k hs l)
]

seen-Agree :
    (slots : List Slot) → distinct (names slots) ≡ true → Agree (λ k. seen slots k none) slots
unfolding seen distinct
seen-Agree [] d = tt
seen-Agree ((j, o) ∷ slots) d =
    let fresh : is_listed (names slots) j ≡ false = ground arith in
    (
      rw (text_eq_refl j) (seen-unlisted slots j _ fresh ∙ first_some-none o),
      Agree-of (λ k. seen slots k none) _ slots
          (λ k l. rw (listed-apart (names slots) j k fresh l) refl)
          (seen-Agree slots (ground arith)),
    )

-- A struct holds its fields.
pub struct-Agree :
    (slots : List Slot) (extra : Map)
    → distinct (names slots) ≡ true
    → Ordered extra
    → Apart (names slots) extra
    → Agree (get (struct slots extra)) slots
struct-Agree slots extra d h apart =
    Agree-of (λ k. seen slots k none) (get (struct slots extra)) slots
      (λ k l. get-struct_field slots extra k h apart l) (seen-Agree slots d)

pub Apart-end : (names : List Text) → Apart names Fields.end
unfolding get
Apart-end [] = tt
Apart-end (k ∷ names) = (refl, Apart-end names)

pub Apart-field :
    (names : List Text) (j : Text) (v : Value) (m : Map)
    → is_listed names j ≡ false
    → Apart names m
    → Apart names (Fields.field j v m)
unfolding get is_listed
Apart-field [] j v m l h = tt
Apart-field (k ∷ names) j v m l (h, hs) = elim (Bool-cases (text_eq j k)) [
  | inl same ↦ absurd (ground (arith, text_eq_iff j k, text_eq_refl k))
  | inr other ↦ (rw other h, Apart-field names j v m (ground arith) hs)
]
