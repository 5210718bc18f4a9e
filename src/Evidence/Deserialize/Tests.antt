-- ===== src/Evidence/Deserialize/Tests.antt =====
-- crates/aep-core/src/evidence.rs: documents and records that are written and read.
use mathlib.Core.Option
use wasmagent_proxy.Base.{◌≡◌, refl, some, [], ◌∷◌, codes}
use wasmagent_proxy.Json.{
  null, number, pos_int, string, array, object, nil, cons, field, end, Map, compare_units,
}
use wasmagent_proxy.Json.Order.{IsWellFormed}
use wasmagent_proxy.Json.Lookup.{without, is_listed}
use wasmagent_proxy.Json.Slots.Named.{Apart-end, Apart-field}
use wasmagent_proxy.Evidence.{AepRecord, default_record, default_capability}
use wasmagent_proxy.Evidence.Serialize.{record_to_value}
use wasmagent_proxy.Evidence.Deserialize.{
  record_names, action_names, capability_names, record_from_map, record_from_value,
}
use wasmagent_proxy.Evidence.Deserialize.RoundTrip.{record-read_back}
use wasmagent_proxy.Evidence.Deserialize.Foreign.{signing_names, record_read-keeps}
use wasmagent_proxy.Dsse.Sign.{strip}
use wasmagent_proxy.Evidence.UnitTests.{graded_record, leaking_action}

-- A record with an entry that no field names, on it and on a decision.
abbrev extended_record : AepRecord
extended_record = record graded_record {
  extra = field (codes "issuer") (string (codes "acme")) end;
  actions =
      record leaking_action {
        capability_decision = some (record default_capability {
          capability = codes "net.call";
          extra = field (codes "scope") null end;
        });
      }
      ∷ [];
}

record-read_back_example :
    record_from_value (record_to_value extended_record) ≡ some extended_record
unfolding is_listed
record-read_back_example =
    record-read_back extended_record (tt, tt)
      (Apart-field record_names (codes "issuer") _ end refl (Apart-end record_names))
      (
        (
          tt,
          Apart-end action_names,
          (
            (tt, tt),
            Apart-field capability_names (codes "scope") null end refl (Apart-end capability_names),
          ),
        ),
        tt,
      )

-- A document with an unknown entry and a signature that is written as an array.
abbrev document : Map
document = field (codes "actions") (array nil) (
    field (codes "created_at_ms") (number (pos_int 7)) (
      field (codes "issuer") (string (codes "acme")) (
        field (codes "run_id") (string (codes "run-3")) (
          field (codes "schema_version") (string (codes "aep/v0.4")) (
            field (codes "signature")
              (array (
                cons (string (codes "ed25519"))
                  (cons (string (codes "k")) (cons (string (codes "AA==")) nil))))
              end)))))

abbrev document_record : AepRecord
document_record = record default_record {
  schema_version = codes "aep/v0.4";
  run_id = codes "run-3";
  created_at_ms = 7;
  signature = some record { alg = codes "ed25519"; key_id = codes "k"; sig = codes "AA==" };
  extra = field (codes "issuer") (string (codes "acme")) end;
}

document-IsWellFormed : IsWellFormed (object document)
unfolding IsWellFormed compare_units
document-IsWellFormed =
    (refl, tt, (refl, tt, (refl, tt, (refl, tt, (refl, tt, (tt, (tt, (tt, (tt, tt))), tt))))))

document_read : record_from_value (object document) ≡ some document_record
unfolding record_from_map
document_read = refl

record_read-keeps_example :
    record_to_value (strip document_record) ≡ object (without signing_names document)
record_read-keeps_example =
    record_read-keeps document document_record document-IsWellFormed document_read

-- A `Null` for an optional field is not kept, so that the record is not the document any more.
abbrev document_with_null : Map
document_with_null = field (codes "actions") (array nil) (
    field (codes "created_at_ms") (number (pos_int 7)) (
      field (codes "run_id") (string (codes "run-3")) (
        field (codes "schema_version") (string (codes "aep/v0.4"))
          (field (codes "user_id") null end))))

null_dropped :
    Option.map record_to_value (record_from_value (object document_with_null))
    ≡ some (object (without (codes "user_id" ∷ []) document_with_null))
unfolding record_from_map record_to_value
null_dropped = refl
