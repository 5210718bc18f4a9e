-- ===== src/Dsse/Verify/Missing.antt =====
-- crates/aep-core/src/dsse.rs: the panics of the tests of a statement, at a digest without `sha256`.
use wasmagent_proxy.Base.{
  ◌≡◌, ◌⊎◌, inl, inr, refl, Option, none, some, Text, codes, ◌++◌, Result, ok, err, panic, ◌>>=◌,
  ◌>>◌, ok_or, Option-cases, Result-cases, arith,
}
use wasmagent_proxy.Json.{Value, Items, nil, cons, Map, get, index, as_str, as_array, as_object}
use wasmagent_proxy.Dsse.Verify.{
  first_subject, expect_text, check_types, check_subject, check_first, check_digest,
}
use wasmagent_proxy.Dsse.Verify.Binding.{expect_text_iff}

-- The message of the panic of an index that a map does not have.
abbrev pub no_entry : Text
no_entry = codes "no entry found for key"

-- The value has the name, and for a digest an object without a "sha256" entry.
pub record IsUndigested (name : Text) (subject : Value) : Type 0 where
  pub named : as_str (index subject (codes "name")) ≡ some name
  pub digests : Map
  pub there : as_object (index subject (codes "digest")) ≡ some digests
  pub missing : get digests (codes "sha256") ≡ none

expect_text-ne-panic :
    (found : Option Text) (missing expected : Text) (mismatch : Text → Text) (e : Text)
    → ¬ (expect_text found missing expected mismatch ≡ panic e)
unfolding expect_text
expect_text-ne-panic none missing expected mismatch e h = cc
expect_text-ne-panic (some t) missing expected mismatch e h = ground arith

-- A sequence panics when one of its steps does.
seq-panic :
    (m k : Result (Unit {0})) (e : Text)
    → (m >> k) ≡ panic e
    → (m ≡ panic e) ⊎ ((m ≡ ok tt) × (k ≡ panic e))
seq-panic (ok a) k e h = inr (refl, h)
seq-panic (err f) k e h = cc
seq-panic (panic f) k e h = inl h

pub check_types-ne-panic : (statement : Value) (e : Text) → ¬ (check_types statement ≡ panic e)
unfolding check_types expect_text
check_types-ne-panic statement e h = ground arith

digest-panic :
    (o : Option Map) (missing digest e : Text)
    → (ok_or o missing >>= λ m. check_digest m digest) ≡ panic e
    → (e ≡ no_entry) × (digests : Map) × (o ≡ some digests) × (get digests (codes "sha256") ≡ none)
unfolding check_digest
digest-panic none missing digest e h = cc
digest-panic (some m) missing digest e h = elim (Option-cases (get m (codes "sha256"))) [
  | inl absent ↦ (ground arith, m, refl, absent)
  | inr (entry, there) ↦ absurd (expect_text-ne-panic (as_str entry) _ digest _ e (rw there at h))
]

abbrev no_name : Text
no_name = codes "subject[0].name missing or not a string"

abbrev other_name : Text → Text → Text
other_name name actual =
    codes "subject name mismatch: expected " ++ (name ++ (codes ", got " ++ actual))

first-panic :
    (subject : Value) (name digest e : Text)
    → check_first subject name digest ≡ panic e
    → (e ≡ no_entry) × IsUndigested name subject
unfolding check_first
first-panic subject name digest e h =
    let name_is = as_str (index subject (codes "name")) in
    elim (Result-cases (expect_text name_is no_name name (other_name name))) [
      | inl (_, found) ↦
          let (said, digests, there, missing) =
            digest-panic (as_object (index subject (codes "digest"))) _ digest e (rw found at h) in
          (
            said,
            record {
              named = (expect_text_iff name_is no_name name (other_name name)).0 found;
              digests = digests;
              there = there;
              missing = missing;
            },
          )
      | inr (inl (m, failed)) ↦ ground arith
      | inr (inr (m, failed)) ↦ absurd (expect_text-ne-panic name_is no_name name _ m failed)
    ]

subject-panic :
    (o : Option Items) (missing name digest e : Text)
    → (ok_or o missing >>= λ vs. first_subject vs >>= λ v. check_first v name digest) ≡ panic e
    → (e ≡ no_entry)
      × (subject : Value) × (subjects : Items) × (o ≡ some (cons subject subjects))
      × IsUndigested name subject
subject-panic none missing name digest e h = cc
subject-panic (some nil) missing name digest e h = cc
subject-panic (some (cons v vs)) missing name digest e h =
    let (said, undigested) = first-panic v name digest e h in (said, v, vs, refl, undigested)

pub check_subject-panic :
    (statement : Value) (name digest e : Text)
    → check_subject statement name digest ≡ panic e
    → (e ≡ no_entry)
      × (subject : Value) × (subjects : Items) × (as_array (index statement (codes "subject"))
          ≡ some (cons subject subjects))
      × IsUndigested name subject
unfolding check_subject
check_subject-panic statement name digest e h =
    subject-panic (as_array (index statement (codes "subject"))) _ name digest e h

pub undigested-panics :
    (statement subject : Value) (subjects : Items) (name digest : Text)
    → as_array (index statement (codes "subject")) ≡ some (cons subject subjects)
    → IsUndigested name subject
    → check_subject statement name digest ≡ panic no_entry
unfolding check_subject check_first check_digest
undigested-panics statement subject subjects name digest listed u =
    let named =
      (expect_text_iff (as_str (index subject (codes "name"))) no_name name (other_name name)).1
        u.named in
    rw (listed, named, u.there, u.missing) refl
