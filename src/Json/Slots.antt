-- ===== src/Json/Slots.antt =====
-- Objects that are written as a list of fields, some of them absent, and other entries after them:
-- what each key of such an object holds.
pub mod Named
use wasmagent_proxy.Base.{
  ◌≡◌, refl, sym, ap, ◌∙◌, Bool, true, false, not, ◌&&◌, Option, none, some, List, [], ◌∷◌, Text,
  text_eq, text_eq_iff, text_eq_refl, Bool-cases, inl, inr, All, if◌then◌else◌, arith,
}
use wasmagent_proxy.Json.{Value, Fields, Map, insert, insert_all, get}
use wasmagent_proxy.Json.Order.{Ordered, insert-Ordered, insert_all-Ordered}
use wasmagent_proxy.Json.Lookup.{
  first_some, first_some-none, get-insert, get-insert_all, is_listed, without, get-without,
  without-Ordered, maps_agree,
}

-- A field's name, and its value if it is there.
abbrev pub Slot : Type 0
Slot = Text × Option Value

unfoldable pub put : Text → Option Value → Map → Map
unfolding insert
put k none m = m
put k (some v) m = insert k v m

unfoldable pub put_all : List Slot → Map → Map
unfolding put
put_all [] m = m
put_all ((k, o) ∷ slots) m = put_all slots (put k o m)

abbrev pub names : List Slot → List Text
names [] = []
names ((k, o) ∷ slots) = k ∷ names slots

-- What a key holds after the slots are put, where it held `d` before.
unfoldable pub seen : List Slot → Text → Option Value → Option Value
unfolding text_eq
seen [] k d = d
seen ((j, o) ∷ slots) k d = seen slots k (if text_eq j k then first_some o d else d)

get-put :
    (j k : Text) (o : Option Value) (m : Map)
    → get (put j o m) k ≡ (if text_eq j k then first_some o (get m k) else get m k)
unfolding put
get-put j k none m = ground arith
get-put j k (some v) m = get-insert j k v m

get-put_all :
    (slots : List Slot) (m : Map) (k : Text) → get (put_all slots m) k ≡ seen slots k (get m k)
unfolding put_all seen
get-put_all [] m k = refl
get-put_all ((j, o) ∷ slots) m k = get-put_all slots (put j o m) k ∙ rw (get-put j k o m) refl

put-Ordered : (k : Text) (o : Option Value) (m : Map) → Ordered m → Ordered (put k o m)
unfolding put
put-Ordered k none m h = h
put-Ordered k (some v) m h = insert-Ordered k v m h

put_all-Ordered : (slots : List Slot) (m : Map) → Ordered m → Ordered (put_all slots m)
unfolding put_all
put_all-Ordered [] m h = h
put_all-Ordered ((k, o) ∷ slots) m h = put_all-Ordered slots (put k o m) (put-Ordered k o m h)

pub seen-unlisted :
    (slots : List Slot) (k : Text) (d : Option Value)
    → is_listed (names slots) k ≡ false
    → seen slots k d ≡ d
unfolding seen is_listed
seen-unlisted [] k d h = refl
seen-unlisted ((j, o) ∷ slots) k d h = ground (arith, seen-unlisted slots k d)

-- One agreement after another.
infixr 2 ◌&◌
abbrev pub ◌&◌ : {P Q : Type 0} → P → Q → P × Q
p & q = (p, q)

-- The slots hold what the lookup gives for their names.
abbrev pub Agree : (Text → Option Value) → List Slot → Type 0
Agree look [] = Unit
Agree look ((k, o) ∷ slots) = (look k ≡ o) × Agree look slots

first_some-agree :
    (o d look : Option Value) → look ≡ o → (o ≡ none → d ≡ look) → first_some o d ≡ look
first_some-agree none d look h e = e refl
first_some-agree (some v) d look h e = sym h

module _ (look : Text → Option Value) where
  slot-same :
      (j k : Text) (o d : Option Value)
      → look j ≡ o
      → d ≡ look k
      → (if text_eq j k then first_some o d else d) ≡ look k
  slot-same j k o d h e = elim (Bool-cases (text_eq j k)) [
    | inl same ↦
        rw same
          (first_some-agree o d (look k) (ap look (sym ((text_eq_iff j k).0 same)) ∙ h) (λ _. e))
    | inr other ↦ rw other e
  ]

  seen-same :
      (slots : List Slot) (k : Text) (d : Option Value)
      → Agree look slots
      → d ≡ look k
      → seen slots k d ≡ look k
  unfolding seen
  seen-same [] k d h e = e
  seen-same ((j, o) ∷ slots) k d (h, hs) e = seen-same slots k _ hs (slot-same j k o d h e)

  seen-listed :
      (slots : List Slot) (k : Text)
      → Agree look slots
      → is_listed (names slots) k ≡ true
      → seen slots k none ≡ look k
  unfolding seen is_listed
  seen-listed [] k h l = absurd (ground arith)
  seen-listed ((j, o) ∷ slots) k (h, hs) l = elim (Bool-cases (text_eq j k)) [
    | inl same ↦
        rw same (
          seen-same slots k _ hs (first_some-none o ∙ (sym h ∙ ap look ((text_eq_iff j k).0 same))))
    | inr other ↦ rw other (seen-listed slots k hs (ground arith))
  ]

-- The object of a struct: its fields, and then its other entries.
abbrev pub struct : List Slot → Map → Map
struct slots extra = insert_all extra (put_all slots Fields.end)

pub get-struct :
    (slots : List Slot) (extra : Map) (k : Text)
    → Ordered extra
    → get (struct slots extra) k ≡ first_some (get extra k) (seen slots k none)
unfolding get
get-struct slots extra k h =
    get-insert_all extra (put_all slots Fields.end) k h
    ∙ ap (first_some (get extra k)) (get-put_all slots Fields.end k)

-- No other entry has the name of a field.
abbrev pub Apart : List Text → Map → Type 0
Apart names extra = All (λ k. get extra k ≡ none) names

Apart-listed :
    (names : List Text) (extra : Map) (k : Text)
    → Apart names extra
    → is_listed names k ≡ true
    → get extra k ≡ none
unfolding is_listed
Apart-listed [] extra k h l = absurd (ground arith)
Apart-listed (j ∷ names) extra k (h, hs) l = elim (Bool-cases (text_eq j k)) [
  | inl same ↦ ap (get extra) (sym ((text_eq_iff j k).0 same)) ∙ h
  | inr other ↦ Apart-listed names extra k hs (ground arith)
]

-- A field of a struct.
pub get-struct_field :
    (slots : List Slot) (extra : Map) (k : Text)
    → Ordered extra
    → Apart (names slots) extra
    → is_listed (names slots) k ≡ true
    → get (struct slots extra) k ≡ seen slots k none
get-struct_field slots extra k h apart l =
    get-struct slots extra k h
    ∙ ap (λ o. first_some o (seen slots k none)) (Apart-listed (names slots) extra k apart l)

-- Without its fields a struct is its other entries.
pub without-struct :
    (slots : List Slot) (extra : Map)
    → Ordered extra
    → Apart (names slots) extra
    → without (names slots) (struct slots extra) ≡ extra
without-struct slots extra h apart =
    maps_agree _ extra
      (without-Ordered (names slots) _
        (insert_all-Ordered extra _ (put_all-Ordered slots Fields.end tt)))
      h
      (λ k.
        get-without (names slots) (struct slots extra) k
        ∙ elim (Bool-cases (is_listed (names slots) k)) [
          | inl l ↦ rw l (sym (Apart-listed (names slots) extra k apart l))
          | inr l ↦
              rw (l, get-struct slots extra k h, seen-unlisted slots k none l)
                (first_some-none (get extra k))
        ])

-- A map is the struct of the fields that it has, and of the rest.
pub struct-without :
    (slots : List Slot) (m : Map)
    → Ordered m
    → Agree (get m) slots
    → struct slots (without (names slots) m) ≡ m
struct-without slots m h agree =
    let rest = without-Ordered (names slots) m h in
    maps_agree _ m (insert_all-Ordered _ _ (put_all-Ordered slots Fields.end tt)) h (λ k.
      get-struct slots (without (names slots) m) k rest
      ∙ rw (get-without (names slots) m k) (elim (Bool-cases (is_listed (names slots) k)) [
        | inl l ↦ rw l (seen-listed (get m) slots k agree l)
        | inr l ↦ rw (l, seen-unlisted slots k none l) (first_some-none (get m k))
      ]))
