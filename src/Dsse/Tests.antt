-- ===== src/Dsse/Tests.antt =====
-- crates/aep-core/src/dsse.rs: runs on a graded record.
use wasmagent_proxy.Base.{
  ◌≡◌, ◌↔◌, ◌⊎◌, refl, none, some, List, [], ◌∷◌, Text, Bytes, codes, ok, err, panic, text_eq,
  text_eq_refl, as_bytes, decimal, byte_len, arith, replicate,
}
use wasmagent_proxy.Json.{
  Value, null, string, object, array, cons, nil, end, field, Crates, index, get,
}
use wasmagent_proxy.Json.Toy.{toy, base64_encode, sign}
use wasmagent_proxy.Json.Toy.Laws.{
  encoded-IsStandard, byte_len-base64_encode, decode-base64_encode, length-sign, verify-sign,
  decode_from-ne-panic, verify-ne-panic, from_slice-ne-panic,
}
use wasmagent_proxy.Evidence.{AepRecord, default_record, DsseEnvelope, aep_schema_version}
use wasmagent_proxy.Dsse.Pae.{pae_encode, in_toto_payload_type}
use wasmagent_proxy.Dsse.Pae.Injective.{pae_injective}
use wasmagent_proxy.Dsse.Canonical.{canonical_json_value, sort_pairs, Pair}
use wasmagent_proxy.Dsse.Sign.{
  subject_name, in_toto_statement_type, aep_predicate_type, statement, statement_bytes,
  payload_digest, sha256_hex, wrap_in_toto_statement, grade_rank, sign_envelope, sign_record_dsse,
}
use wasmagent_proxy.Dsse.Sign.Floor.{IsGraded, sign_iff_IsGraded}
use wasmagent_proxy.Dsse.Verify.{normalize, padding, open_envelope, verify_record_dsse}
use wasmagent_proxy.Dsse.Verify.Accepted.{IsAccepted, verify_iff, envelope_binds_record}
use wasmagent_proxy.Json.Order.{IsWellFormed}
use wasmagent_proxy.Json.Toy.Printing.{to_string-IsPlain, to_string-delimits}
use wasmagent_proxy.Evidence.Serialize.{record_to_value}
use wasmagent_proxy.Dsse.Canonical.Injective.{canonical_json-injective}
use wasmagent_proxy.Dsse.Verify.Content.{envelope_binds_content}
use wasmagent_proxy.Dsse.Sign.{strip, check_grading}
use wasmagent_proxy.Base.{min_by_key}
use wasmagent_proxy.Json.{compare_units}
use wasmagent_proxy.Dsse.Verify.Missing.{no_entry}
use wasmagent_proxy.Dsse.Verify.Panics.{IsUnbound, verify-panic_iff}
use wasmagent_proxy.Dsse.Verify.Opens.{open_iff}
use wasmagent_proxy.Dsse.Verify.RoundTrip.{normalize_id, signed_verifies}

abbrev key : Bytes
key = replicate 32 7

-- A record whose floor is weaker than what was observed.
abbrev graded : AepRecord
graded = record default_record {
  schema_version = aep_schema_version;
  run_id = codes "run-1";
  run_attribution_backing_floor = some (codes "operator_asserted");
  run_attribution_backing_observed =
      some (codes "organization_attested" ∷ codes "principal_key_signed" ∷ []);
  created_at_ms = 1_700_000_000_000;
}

abbrev blank : Crates
blank = toy [] null

abbrev crates : Crates
crates = toy (statement_bytes blank graded) (statement blank graded)

same_bytes : statement_bytes crates graded ≡ statement_bytes blank graded
unfolding statement_bytes statement payload_digest sha256_hex canonical_json_value
    wrap_in_toto_statement
same_bytes = refl

same_statement : statement crates graded ≡ statement blank graded
unfolding statement payload_digest sha256_hex canonical_json_value wrap_in_toto_statement
same_statement = refl

parses : crates.from_slice (statement_bytes crates graded) ≡ ok (statement crates graded)
parses = rw (same_bytes, same_statement, text_eq_refl (statement_bytes blank graded)) refl

floor_holds : IsGraded graded.run_attribution_backing_floor graded.run_attribution_backing_observed
unfolding grade_rank text_eq
floor_holds = (omega arith, (omega arith, tt))

abbrev signed : AepRecord
signed = (sign_record_dsse crates graded key (codes "key-1")).0

signs : (sign_record_dsse crates graded key (codes "key-1")).1 ≡ ok tt
signs = (sign_iff_IsGraded crates graded key (codes "key-1")).0.1 floor_holds

graded_verifies : verify_record_dsse crates signed key ≡ ok tt
graded_verifies =
    signed_verifies crates graded key key (codes "key-1") decode-base64_encode encoded-IsStandard
      byte_len-base64_encode (length-sign key) (verify-sign key) parses signs

verify_iff_example : (verify_record_dsse crates signed key ≡ ok tt) ↔ IsAccepted crates signed key
verify_iff_example = verify_iff crates signed key

sign_iff_IsGraded_example :
    ((sign_record_dsse crates graded key (codes "key-1")).1 ≡ ok tt
      ↔ IsGraded graded.run_attribution_backing_floor graded.run_attribution_backing_observed)
    × ((sign_record_dsse crates graded key (codes "key-1") ≡ (
      record graded {
        signature = none;
        dsse_envelope = some (sign_envelope crates graded key (codes "key-1"));
      },
      ok tt,
    ))
        ⊎ (e : Text) × (sign_record_dsse crates graded key (codes "key-1") ≡ (graded, err e)))
sign_iff_IsGraded_example = sign_iff_IsGraded crates graded key (codes "key-1")

-- The signed record, with a legacy signature that nothing covers.
abbrev relabelled : AepRecord
relabelled = record signed { signature = some (record { alg = codes "x"; key_id = []; sig = [] }) }

relabelled_verifies : verify_record_dsse crates relabelled key ≡ ok tt
unfolding payload_digest
relabelled_verifies =
    let a = verify_iff_example.0 graded_verifies in
    (verify_iff crates relabelled key).1 (record {
      envelope = a.envelope;
      attached = a.attached;
      statement = a.statement;
      opens = a.opens;
      typed = a.typed;
      binds = a.binds;
    })

envelope_binds_record_example :
    (signed.run_id ≡ relabelled.run_id)
    × (payload_digest crates signed ≡ payload_digest crates relabelled)
envelope_binds_record_example =
    envelope_binds_record crates signed relabelled key key graded_verifies relabelled_verifies refl

pae_injective_example :
    (as_bytes in_toto_payload_type ≡ as_bytes in_toto_payload_type)
    × (◌≡◌ {A = Bytes} (1 ∷ 2 ∷ []) (1 ∷ 2 ∷ []))
pae_injective_example =
    pae_injective in_toto_payload_type in_toto_payload_type (1 ∷ 2 ∷ []) (1 ∷ 2 ∷ []) refl

-- The DSSE specification's encoding.
pae_example :
    pae_encode (codes "http://example.com/HelloWorld") (as_bytes (codes "hello world"))
    ≡ as_bytes (codes "DSSEv1 29 http://example.com/HelloWorld 11 hello world")
unfolding pae_encode as_bytes decimal byte_len
pae_example = refl

-- A key beyond the basic plane sorts before one at its end, as UTF-16 has it.
abbrev pairs : List Pair
pairs = (0xff41 ∷ [], codes "2") ∷ (0x1f600 ∷ [], codes "1") ∷ (codes "a", codes "0") ∷ []

sort_pairs_run :
    sort_pairs pairs
    ≡ (codes "a", codes "0") ∷ (0x1f600 ∷ [], codes "1") ∷ (0xff41 ∷ [], codes "2") ∷ []
unfolding sort_pairs
sort_pairs_run = refl

-- base64url input.
normalize_run : normalize (codes "-_-_ab") ≡ codes "+/+/ab=="
unfolding normalize padding byte_len
normalize_run = refl

-- A statement for the run, whose subject has the digest of another algorithm.
abbrev odd_subject : Value
odd_subject = object (
    field (codes "digest") (object (field (codes "sha512") (string []) end))
      (field (codes "name") (string (subject_name (codes "run-1"))) end))

abbrev odd_statement : Value
odd_statement = object (
    field (codes "_type") (string in_toto_statement_type) (
      field (codes "predicateType") (string aep_predicate_type)
        (field (codes "subject") (array (cons odd_subject nil)) end)))

abbrev document : Bytes
document = codes "{}"

abbrev odd_crates : Crates
odd_crates = toy document odd_statement

abbrev odd_sig : Bytes
odd_sig = sign key (pae_encode in_toto_payload_type document)

abbrev odd_envelope : DsseEnvelope
odd_envelope = record {
  payload_type = in_toto_payload_type;
  payload = base64_encode document;
  signatures = record { keyid = []; sig = base64_encode odd_sig } ∷ [];
}

odd_opens : open_envelope odd_crates odd_envelope key ≡ ok odd_statement
odd_opens = (open_iff odd_crates odd_envelope key odd_statement).1 (record {
  typed = refl;
  signature = record { keyid = []; sig = base64_encode odd_sig };
  only = refl;
  bytes = document;
  payload = decode-base64_encode document;
  sig = odd_sig;
  decoded =
      rw
        (normalize_id (base64_encode odd_sig) (encoded-IsStandard odd_sig)
          (byte_len-base64_encode odd_sig))
        (decode-base64_encode odd_sig);
  size = length-sign key _;
  signed = verify-sign key _;
  parsed = rw (text_eq_refl document) refl;
})

verify-panic_iff_example :
    (verify_record_dsse odd_crates (record graded { dsse_envelope = some odd_envelope }) key
      ≡ panic no_entry)
    ↔ ((no_entry ≡ no_entry)
        × IsUnbound odd_crates (record graded { dsse_envelope = some odd_envelope }) key)
verify-panic_iff_example =
    verify-panic_iff odd_crates (decode_from-ne-panic 0) verify-ne-panic
      (from_slice-ne-panic document odd_statement)
      (record graded { dsse_envelope = some odd_envelope }) key no_entry

odd_panics :
    verify_record_dsse odd_crates (record graded { dsse_envelope = some odd_envelope }) key
    ≡ panic no_entry
unfolding index get text_eq
odd_panics = verify-panic_iff_example.1 (
  refl,
  record {
    envelope = odd_envelope;
    attached = refl;
    statement = odd_statement;
    opens = odd_opens;
    typed = (refl, refl);
    subject = odd_subject;
    subjects = nil;
    listed = refl;
    undigested = record {
      named = refl;
      digests = field (codes "sha512") (string []) end;
      there = refl;
      missing = refl;
    };
  },
)

-- A well-formed object.
abbrev small : Value
small = object (field (codes "a") (string (codes "x")) (field (codes "b") (array nil) end))

canonical_json-injective_example : small ≡ small
unfolding IsWellFormed compare_units
canonical_json-injective_example =
    canonical_json-injective crates to_string-IsPlain to_string-delimits small small
      (refl, tt, (tt, tt, tt)) (refl, tt, (tt, tt, tt)) refl

envelope_binds_content_example : record_to_value (strip signed) ≡ record_to_value (strip relabelled)
unfolding IsWellFormed sign_record_dsse check_grading min_by_key grade_rank text_eq
envelope_binds_content_example =
    envelope_binds_content crates signed relabelled key key to_string-IsPlain to_string-delimits
      (λ _. refl) tt tt tt tt graded_verifies relabelled_verifies refl
