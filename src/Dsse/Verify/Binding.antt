-- ===== src/Dsse/Verify/Binding.antt =====
-- crates/aep-core/src/dsse.rs: what the tests of a statement's type and subject accept.
use wasmagent_proxy.Base.{
  ◌≡◌, ◌↔◌, sym, ◌∙◌, Option, none, some, Text, codes, text_eq_iff, Result, ok, ◌>>=◌, ◌>>◌, ok_or,
  seq_iff, some-injective, arith,
}
use wasmagent_proxy.Json.{Value, Items, nil, cons, Map, get, index, as_str, as_array, as_object}
use wasmagent_proxy.Dsse.Sign.{in_toto_statement_type, aep_predicate_type}
use wasmagent_proxy.Dsse.Verify.{
  entry_or_panic, first_subject, expect_text, check_types, check_digest, check_first, check_subject,
}

pub expect_text_iff :
    (found : Option Text) (missing expected : Text) (mismatch : Text → Text)
    → (expect_text found missing expected mismatch ≡ ok tt) ↔ (found ≡ some expected)
unfolding expect_text
expect_text_iff none missing expected mismatch = (λ h. cc, λ h. cc)
expect_text_iff (some t) missing expected mismatch = ground (arith, text_eq_iff t expected)

pub both_iff :
    (m k : Result (Unit {0})) (P Q : Type 0)
    → ((m ≡ ok tt) ↔ P)
    → ((k ≡ ok tt) ↔ Q)
    → ((m >> k) ≡ ok tt) ↔ (P × Q)
both_iff m k P Q p q =
    let s = seq_iff m k in (λ h. (p.0 (s.0 h).0, q.0 (s.0 h).1), λ (a, b). s.1 (p.1 a, q.1 b))

-- The statement names the in-toto type and the AEP predicate type.
abbrev pub IsTyped : Value → Type 0
IsTyped statement =
    (as_str (index statement (codes "_type")) ≡ some in_toto_statement_type)
    × (as_str (index statement (codes "predicateType")) ≡ some aep_predicate_type)

pub types_iff : (statement : Value) → (check_types statement ≡ ok tt) ↔ IsTyped statement
unfolding check_types
types_iff statement =
    both_iff _ _ _ _
      (expect_text_iff (as_str (index statement (codes "_type"))) _ in_toto_statement_type _)
      (expect_text_iff (as_str (index statement (codes "predicateType"))) _ aep_predicate_type _)

-- What stands at a path of the statement, if anything does.
abbrev pub str_of : Option Value → Option Text
str_of none = none
str_of (some v) = as_str v

abbrev pub digest_of : Option Map → Option Text
digest_of none = none
digest_of (some m) = str_of (get m (codes "sha256"))

abbrev pub first_of_items : Option Items → Option Value
first_of_items none = none
first_of_items (some nil) = none
first_of_items (some (cons v vs)) = some v

-- The value has the name and the SHA-256 digest of a subject.
abbrev pub IsSubject : Text → Text → Option Value → Type 0
IsSubject name digest none = ⊥
IsSubject name digest (some v) =
    (as_str (index v (codes "name")) ≡ some name)
    × (digest_of (as_object (index v (codes "digest"))) ≡ some digest)

-- The first subject of the statement has the name and the digest.
abbrev pub Binds : Value → Text → Text → Type 0
Binds statement name digest =
    IsSubject name digest (first_of_items (as_array (index statement (codes "subject"))))

entry_iff :
    (o : Option Value) (missing d : Text) (mismatch : Text → Text)
    → ((entry_or_panic o >>= λ entry. expect_text (as_str entry) missing d mismatch) ≡ ok tt)
      ↔ (str_of o ≡ some d)
entry_iff none missing d mismatch = (λ h. cc, λ h. cc)
entry_iff (some v) missing d mismatch = expect_text_iff (as_str v) missing d mismatch

digest_iff : (m : Map) (d : Text) → (check_digest m d ≡ ok tt) ↔ (digest_of (some m) ≡ some d)
unfolding check_digest
digest_iff m d = entry_iff (get m (codes "sha256")) _ d _

digest_map_iff :
    (o : Option Map) (missing d : Text)
    → ((ok_or o missing >>= λ m. check_digest m d) ≡ ok tt) ↔ (digest_of o ≡ some d)
digest_map_iff none missing d = (λ h. cc, λ h. cc)
digest_map_iff (some m) missing d = digest_iff m d

first_iff :
    (v : Value) (name digest : Text)
    → (check_first v name digest ≡ ok tt) ↔ IsSubject name digest (some v)
unfolding check_first
first_iff v name digest =
    both_iff _ _ _ _ (expect_text_iff (as_str (index v (codes "name"))) _ name _)
      (digest_map_iff (as_object (index v (codes "digest"))) _ digest)

items_iff :
    (o : Option Items) (missing name digest : Text)
    → ((ok_or o missing >>= λ vs. first_subject vs >>= λ v. check_first v name digest) ≡ ok tt)
      ↔ IsSubject name digest (first_of_items o)
items_iff none missing name digest = (λ h. cc, λ h. absurd h)
items_iff (some nil) missing name digest = (λ h. cc, λ h. absurd h)
items_iff (some (cons v vs)) missing name digest = first_iff v name digest

pub subject_iff :
    (statement : Value) (name digest : Text)
    → (check_subject statement name digest ≡ ok tt) ↔ Binds statement name digest
unfolding check_subject
subject_iff statement name digest =
    items_iff (as_array (index statement (codes "subject"))) _ name digest

pub subject_unique :
    (o : Option Value) (name digest other other_digest : Text)
    → IsSubject name digest o
    → IsSubject other other_digest o
    → (name ≡ other) × (digest ≡ other_digest)
subject_unique none _ _ _ _ a b = absurd a
subject_unique (some v) _ _ _ _ (n, d) (m, e) =
    (some-injective _ _ (sym n ∙ m), some-injective _ _ (sym d ∙ e))
