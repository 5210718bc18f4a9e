-- ===== src/Dsse/UnitTests.antt =====
-- crates/aep-core/src/dsse.rs: its unit tests, each a Boolean by the name that it has there, and that
-- they pass; those that sign and verify are in Dsse/UnitTests/Signed, those that parse in
-- Dsse/UnitTests/Reparsed.
mod Signed
mod Reparsed
use wasmagent_proxy.Base.{
  ◌≡◌, refl, Bool, true, ◌&&◌, none, some, [], ◌∷◌, ◌++◌, codes, replicate, text_eq, as_bytes,
  byte_len, decimal, min_by_key,
}
use wasmagent_proxy.Base.Asserts.{is_err}
use wasmagent_proxy.Json.{string, array, object, nil, cons, field, end, insert}
use wasmagent_proxy.Recording.{full}
use wasmagent_proxy.Evidence.{AepRecord, default_record, default_action, aep_schema_version}
use wasmagent_proxy.Dsse.Pae.{pae_encode}
use wasmagent_proxy.Dsse.Canonical.{canonical_json, canonical_json_value, sort_pairs, join}
use wasmagent_proxy.Dsse.Canonical.Tests.{plain, num}
use wasmagent_proxy.Dsse.Sign.{sign_record_dsse, check_grading, grade_rank}
use wasmagent_proxy.Dsse.Verify.{verify_record_dsse}

abbrev pub sample_record : AepRecord
sample_record = record default_record {
  schema_version = aep_schema_version;
  run_id = codes "run-dsse-rs-001";
  trace_id = some (codes "trace-dsse");
  user_id = some (codes "user-dana@acme.example");
  authority_origin = some (codes "subject_consented");
  attribution_backing = some (codes "principal_key_signed");
  run_side_effect_class_max = some (codes "network-egress");
  recording_mode = some (codes "full");
  actions =
      record default_action {
        action_id = codes "act-1";
        tool_name = codes "POST /mcp";
        state_changing = true;
        result_digest = some (codes "sha256:post");
        timestamp_ms = 1_700_000_000_000;
        recording_mode = full;
        side_effect_class = some (codes "network-egress");
      }
      ∷ [];
  created_at_ms = 1_700_000_000_000;
}

abbrev pae_matches_dsse_spec_layout : Bool
pae_matches_dsse_spec_layout =
    text_eq (pae_encode (codes "application/vnd.in-toto+json") (as_bytes (codes "hello")))
      (as_bytes (codes "DSSEv1 28 application/vnd.in-toto+json 5 hello"))

-- The key that is a surrogate pair comes before U+FF21, although the map has it last.
abbrev canonical_json_orders_keys_by_utf16_code_units_matching_js : Bool
canonical_json_orders_keys_by_utf16_code_units_matching_js =
    let map = insert (0x10000 ∷ []) (num 1) end in
    let map = insert (0xff21 ∷ []) (num 2) map in
    let map = insert (codes "a") (num 3) map in
    text_eq (canonical_json plain (object map))
      (codes "{\"a\":3,\"" ++ (0x10000 ∷ (codes "\":1,\"" ++ (0xff21 ∷ codes "\":2}"))))

abbrev canonical_json_integer_keys_sort_as_strings : Bool
canonical_json_integer_keys_sort_as_strings =
    let map = insert (codes "2") (string (codes "two")) end in
    let map = insert (codes "10") (string (codes "ten")) map in
    text_eq (canonical_json plain (object map)) (codes "{\"10\":\"ten\",\"2\":\"two\"}")

abbrev canonical_json_keeps_proto_key : Bool
canonical_json_keeps_proto_key =
    let map = insert (codes "__proto__") (object (field (codes "x") (num 1) end)) end in
    let map = insert (codes "run_id") (string (codes "r1")) map in
    text_eq (canonical_json plain (object map))
      (codes "{\"__proto__\":{\"x\":1},\"run_id\":\"r1\"}")

abbrev missing_envelope_fails_verify : Bool
missing_envelope_fails_verify = is_err (verify_record_dsse plain sample_record (replicate 32 7))

-- Signing a record with these grades fails.
abbrev grades_rejected : AepRecord → Bool
grades_rejected r = is_err (sign_record_dsse plain r (replicate 32 7) (codes "k")).1

abbrev floor_stronger_than_weakest_observed_is_rejected : Bool
floor_stronger_than_weakest_observed_is_rejected = grades_rejected (record sample_record {
  run_attribution_backing_floor = some (codes "subject_consented");
  run_attribution_backing_observed = some (codes "operator_asserted" ∷ []);
})

abbrev floor_without_observed_is_rejected : Bool
floor_without_observed_is_rejected = grades_rejected (record sample_record {
  run_attribution_backing_floor = some (codes "principal_key_signed");
  run_attribution_backing_observed = none;
})

abbrev observed_without_floor_is_rejected : Bool
observed_without_floor_is_rejected = grades_rejected (record sample_record {
  run_attribution_backing_floor = none;
  run_attribution_backing_observed = some (codes "principal_key_signed" ∷ []);
})

abbrev empty_observed_with_floor_is_rejected : Bool
empty_observed_with_floor_is_rejected = grades_rejected (record sample_record {
  run_attribution_backing_floor = some (codes "principal_key_signed");
  run_attribution_backing_observed = some [];
})

-- `json!` inserts the members in the order in which they are written.
abbrev non_ascii_key_encoding_is_stable : Bool
non_ascii_key_encoding_is_stable =
    let v1 =
      insert (0xf1 ∷ []) (num 3) (insert (codes "a") (num 2) (insert (codes "b") (num 1) end)) in
    let v2 =
      insert (codes "b") (num 1) (insert (codes "a") (num 2) (insert (0xf1 ∷ []) (num 3) end)) in
    text_eq (canonical_json plain (object v1)) (canonical_json plain (object v2))
    && text_eq (canonical_json plain (object v1))
        (codes "{\"a\":2,\"b\":1,\"" ++ (0xf1 ∷ codes "\":3}"))

abbrev nested_objects_are_recursively_sorted : Bool
nested_objects_are_recursively_sorted =
    let z = insert (codes "a") (num 2) (insert (codes "b") (num 1) end) in
    let a = array (cons (num 3) (cons (num 2) (cons (num 1) nil))) in
    text_eq
      (canonical_json plain (object (insert (codes "a") a (insert (codes "z") (object z) end))))
      (codes "{\"a\":[3,2,1],\"z\":{\"a\":2,\"b\":1}}")

abbrev empty_object_and_array_round_trip : Bool
empty_object_and_array_round_trip =
    let both = insert (codes "b") (object end) (insert (codes "a") (array nil) end) in
    text_eq (canonical_json plain (object end)) (codes "{}")
    && text_eq (canonical_json plain (array nil)) (codes "[]")
    && text_eq (canonical_json plain (object both)) (codes "{\"a\":[],\"b\":{}}")

canonical_tests_pass :
    (canonical_json_orders_keys_by_utf16_code_units_matching_js
      && canonical_json_integer_keys_sort_as_strings && canonical_json_keeps_proto_key
      && non_ascii_key_encoding_is_stable && nested_objects_are_recursively_sorted
      && empty_object_and_array_round_trip)
    ≡ true
unfolding canonical_json_value sort_pairs join decimal insert text_eq
canonical_tests_pass = refl

envelope_tests_pass :
    (pae_matches_dsse_spec_layout && missing_envelope_fails_verify
      && floor_stronger_than_weakest_observed_is_rejected && floor_without_observed_is_rejected
      && observed_without_floor_is_rejected && empty_observed_with_floor_is_rejected)
    ≡ true
unfolding pae_encode as_bytes byte_len decimal text_eq verify_record_dsse sign_record_dsse
    check_grading min_by_key grade_rank
envelope_tests_pass = refl
