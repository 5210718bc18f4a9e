-- ===== src/Dsse/Canonical/Ascending.antt =====
-- crates/aep-core/src/dsse.rs: the order in which `canonical_json` writes the members of an object.
use Prim.Native.Nat.{Ordering}
use wasmagent_proxy.Base.{
  ◌≡◌, ◌≢◌, inl, inr, refl, sym, ◌∙◌, subst, List, [], ◌∷◌, ◌++◌, map, append-nil, codes, All,
  All-In, All-of,
}
use wasmagent_proxy.Json.{Map, end, field, string, object, compare_units, Crates}
use wasmagent_proxy.Json.Order.{Ordered}
use wasmagent_proxy.Json.Members.{Entry, entries, Before-All, compare_units_irrefl}
use wasmagent_proxy.Dsse.Canonical.{Pair, compare_utf16, join, canonical_json}
use wasmagent_proxy.Dsse.Canonical.Sorted.{NotAfter, Sorted, sort_pairs-Sorted}
use wasmagent_proxy.Dsse.Canonical.Entries.{
  insert_entry, sort_entries, sort_pairs-map, In-insert_entry, All-sort_entries, Ordering-cases,
}
use wasmagent_proxy.Dsse.Canonical.Texts.{can, object_text}
use wasmagent_proxy.Dsse.Canonical.Renders.{Listing, sorted-Listing}
use wasmagent_proxy.Dsse.Canonical.Utf16.{IsScalarValue, Utf16Before, compare_utf16-NotLater}

-- The keys have each other key at most once.
abbrev Distinct : List Entry → Type 0
Distinct [] = Unit
Distinct (e ∷ es) = All (λ f. e.0 ≢ f.0) es × Distinct es

-- Each key is before those that follow it, as UTF-16 orders them.
abbrev pub Ascending : List Entry → Type 0
Ascending [] = Unit
Ascending (e ∷ es) = All (λ f. Utf16Before e.0 f.0) es × Ascending es

All-insert_entry :
    (P : Entry → Type 0) (e : Entry) (es : List Entry) → P e → All P es → All P (insert_entry e es)
All-insert_entry P e es p ps = All-of P (insert_entry e es) (λ f m.
    elim ((In-insert_entry f e es).0 m) [
      | inl same ↦ subst P (sym same) p
      | inr there ↦ All-In P es f ps there
    ])

insert_entry-Distinct :
    (e : Entry) (es : List Entry)
    → All (λ f. e.0 ≢ f.0) es
    → Distinct es
    → Distinct (insert_entry e es)
unfolding insert_entry
insert_entry-Distinct e [] h d = (tt, tt)
insert_entry-Distinct e (f ∷ es) (h, hs) (a, d) = elim (Ordering-cases (compare_utf16 e.0 f.0)) [
  | inl before ↦ rw (before, insert_entry) ((h, hs), (a, d))
  | inr (inl same) ↦ rw (same, insert_entry) ((h, hs), (a, d))
  | inr (inr after) ↦
      rw (after, insert_entry)
        (All-insert_entry (λ g. f.0 ≢ g.0) e es (λ x. h (sym x)) a, insert_entry-Distinct e es hs d)
]

sort_entries-Distinct : (es : List Entry) → Distinct es → Distinct (sort_entries es)
unfolding sort_entries
sort_entries-Distinct [] d = tt
sort_entries-Distinct (e ∷ es) (a, d) =
    insert_entry-Distinct e (sort_entries es) (All-sort_entries (λ f. e.0 ≢ f.0) es a)
      (sort_entries-Distinct es d)

entries-Distinct : (m : Map) → Ordered m → Distinct (entries m)
entries-Distinct end o = tt
entries-Distinct (field k v m) (b, o) = (
  All-of _ (entries m) (λ f i e. compare_units_irrefl k (
      subst (λ j. compare_units k j ≡ Ordering.lt) (sym e)
        (All-In (λ f. compare_units k f.0 ≡ Ordering.lt) (entries m) f (Before-All k m b o) i))),
  entries-Distinct m o,
)

-- The key of an entry, for the sort of the keys alone.
abbrev keyed : Entry → Pair
keyed e = (e.0, [])

abbrev HasScalarKey : Entry → Type 0
HasScalarKey e = All IsScalarValue e.0

NotAfter-Utf16Before :
    (e : Entry) (es : List Entry)
    → HasScalarKey e
    → All HasScalarKey es
    → All (λ f. e.0 ≢ f.0) es
    → All (NotAfter (keyed e)) (map keyed es)
    → All (λ f. Utf16Before e.0 f.0) es
NotAfter-Utf16Before e [] v vs d n = tt
NotAfter-Utf16Before e (f ∷ es) v (w, vs) (d, ds) (n, ns) = (
  elim (compare_utf16-NotLater e.0 f.0 v w n) [ inl same ↦ absurd (d same) | inr before ↦ before ],
  NotAfter-Utf16Before e es v vs ds ns,
)

Sorted-Ascending :
    (es : List Entry) → All HasScalarKey es → Distinct es → Sorted (map keyed es) → Ascending es
Sorted-Ascending [] v d s = tt
Sorted-Ascending (e ∷ es) (v, vs) (a, d) (n, s) =
    (NotAfter-Utf16Before e es v vs a n, Sorted-Ascending es vs d s)

sort_entries-Ascending :
    (m : Map) → Ordered m → All HasScalarKey (entries m) → Ascending (sort_entries (entries m))
sort_entries-Ascending m o v =
    Sorted-Ascending (sort_entries (entries m)) (All-sort_entries HasScalarKey (entries m) v)
      (sort_entries-Distinct (entries m) (entries-Distinct m o))
      (subst Sorted (sort_pairs-map keyed (λ e. refl) (entries m))
        (sort_pairs-Sorted (map keyed (entries m))))

-- The canonical JSON of an object is its members between braces, with a comma between two, each of
-- them once, and each before those whose keys come later in the order of UTF-16: where two keys first
-- differ, the lesser scalar value, except that a value beyond the basic plane is before one that is in
-- it but above the surrogates. A member is its key, as serde_json prints it, a colon, and the
-- canonical JSON of its value, so that this holds at every depth. The keys are Unicode strings.
pub canonical_json-Ascending :
    (x : Crates) (m : Map)
    → Ordered m
    → All (λ e. All IsScalarValue e.0) (entries m)
    → (es : List Entry) × Listing es m
      × Ascending es
      × (canonical_json x (object m)
          ≡ codes "{"
            ++ (join (map (λ e. x.to_string (string e.0) ++ (codes ":" ++ canonical_json x e.1)) es)
                ++ codes "}"))
canonical_json-Ascending x m o v = (
  sort_entries (entries m),
  sorted-Listing x m,
  sort_entries-Ascending m o v,
  sym (append-nil (can x (object m))) ∙ object_text x m [],
)
