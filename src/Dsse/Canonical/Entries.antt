-- ===== src/Dsse/Canonical/Entries.antt =====
-- crates/aep-core/src/dsse.rs: the sort of an object's keys, with their values carried along.
use Prim.Native.Nat.{Ordering}
use wasmagent_proxy.Base.{
  suc, length, arith, ◌≡◌, ◌↔◌, ◌⊎◌, inl, inr, refl, sym, ap, ◌∙◌, List, [], ◌∷◌, map, In, All,
  All-In, All-of,
}
use wasmagent_proxy.Json.{Map}
use wasmagent_proxy.Json.Members.{Entry, entries, Within}
use wasmagent_proxy.Dsse.Canonical.{Pair, compare_utf16, insert_pair, sort_pairs}

unfoldable pub insert_entry : Entry → List Entry → List Entry
insert_entry e [] = e ∷ []
insert_entry e (f ∷ fs) = elim (compare_utf16 e.0 f.0) [
  | Ordering.gt ↦ f ∷ insert_entry e fs
  | Ordering.eq ↦ e ∷ f ∷ fs
  | Ordering.lt ↦ e ∷ f ∷ fs
]

unfoldable pub sort_entries : List Entry → List Entry
unfolding insert_entry
sort_entries [] = []
sort_entries (e ∷ es) = insert_entry e (sort_entries es)

pub Ordering-cases : (o : Ordering) → (o ≡ Ordering.lt) ⊎ (o ≡ Ordering.eq) ⊎ (o ≡ Ordering.gt)
Ordering-cases Ordering.lt = inl refl
Ordering-cases Ordering.eq = inr (inl refl)
Ordering-cases Ordering.gt = inr (inr refl)

pub In-insert_entry :
    (e f : Entry) (fs : List Entry) → In e (insert_entry f fs) ↔ ((e ≡ f) ⊎ In e fs)
unfolding insert_entry
In-insert_entry e f [] = (λ h. h, λ h. h)
In-insert_entry e f (g ∷ gs) =
    let (out, into) = In-insert_entry e f gs in
    elim (Ordering-cases (compare_utf16 f.0 g.0)) [
      | inl before ↦ rw (before, insert_entry) (λ h. h, λ h. h)
      | inr (inl same) ↦ rw (same, insert_entry) (λ h. h, λ h. h)
      | inr (inr after) ↦
          rw (after, insert_entry)
            (
              λ h. elim h [
                | inl here ↦ inr (inl here)
                | inr later ↦ elim (out later) [ inl this ↦ inl this | inr rest ↦ inr (inr rest) ]
              ],
              λ h. elim h [
                | inl this ↦ inr (into (inl this))
                | inr (inl here) ↦ inl here
                | inr (inr rest) ↦ inr (into (inr rest))
              ],
            )
    ]

pub In-sort_entries : (e : Entry) (es : List Entry) → In e (sort_entries es) ↔ In e es
unfolding sort_entries
In-sort_entries e [] = (λ h. h, λ h. h)
In-sort_entries e (f ∷ es) =
    let (out, into) = In-insert_entry e f (sort_entries es) in
    let (back, forth) = In-sort_entries e es in
    (
      λ h. elim (out h) [ inl this ↦ inl this | inr rest ↦ inr (back rest) ],
      λ h. into (elim h [ inl this ↦ inl this | inr rest ↦ inr (forth rest) ]),
    )

length-insert_entry : (e : Entry) (fs : List Entry) → length (insert_entry e fs) ≡ suc (length fs)
unfolding insert_entry
length-insert_entry e [] = refl
length-insert_entry e (f ∷ fs) = ground (arith, length-insert_entry e fs)

pub length-sort_entries : (es : List Entry) → length (sort_entries es) ≡ length es
unfolding sort_entries
length-sort_entries [] = refl
length-sort_entries (e ∷ es) =
    length-insert_entry e (sort_entries es) ∙ ap suc (length-sort_entries es)

pub All-sort_entries : (P : Entry → Type 0) (es : List Entry) → All P es → All P (sort_entries es)
All-sort_entries P es h =
    All-of P (sort_entries es) (λ e m. All-In P es e h ((In-sort_entries e es).0 m))

pub sorted-Within : (m n : Map) → sort_entries (entries m) ≡ sort_entries (entries n) → Within m n
sorted-Within m n same e h =
    (In-sort_entries e (entries n)).0 (rw (sym same) ((In-sort_entries e (entries m)).1 h))

module _ (render : Entry → Pair) (keyed : (e : Entry) → (render e).0 ≡ e.0) where
  insert_pair-map :
      (e : Entry) (fs : List Entry)
      → insert_pair (render e) (map render fs) ≡ map render (insert_entry e fs)
  unfolding insert_pair insert_entry
  insert_pair-map e [] = refl
  insert_pair-map e (f ∷ fs) =
      let ih = insert_pair-map e fs in
      elim (Ordering-cases (compare_utf16 e.0 f.0)) [
        | inl before ↦ rw (keyed e, keyed f, before, insert_pair, insert_entry) refl
        | inr (inl same) ↦ rw (keyed e, keyed f, same, insert_pair, insert_entry) refl
        | inr (inr after) ↦
            rw (keyed e, keyed f, after, insert_pair, insert_entry) (ap (λ ps. render f ∷ ps) ih)
      ]

  pub sort_pairs-map : (es : List Entry) → sort_pairs (map render es) ≡ map render (sort_entries es)
  unfolding sort_pairs sort_entries
  sort_pairs-map [] = refl
  sort_pairs-map (e ∷ es) =
      ap (insert_pair (render e)) (sort_pairs-map es) ∙ insert_pair-map e (sort_entries es)
