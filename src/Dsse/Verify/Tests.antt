-- ===== src/Dsse/Verify/Tests.antt =====
-- crates/aep-core/src/dsse.rs: a record that is signed, written and read, and one that carries its
-- envelope.
use wasmagent_proxy.Base.{◌≡◌, ◌↔◌, refl, some, [], ◌∷◌, Bytes, codes, ok, replicate}
use wasmagent_proxy.Json.Readable.{is_readable}
use wasmagent_proxy.Json.Order.{AreFields}
use wasmagent_proxy.Json.Toy.Parser.{parsing}
use wasmagent_proxy.Json.Toy.Parser.Documented.{parsing-Documented}
use wasmagent_proxy.Evidence.{AepRecord, default_record, default_action, aep_schema_version}
use wasmagent_proxy.Evidence.Serialize.{record_to_value}
use wasmagent_proxy.Dsse.Canonical.{canonical_json}
use wasmagent_proxy.Dsse.Sign.{strip, sign_record_dsse, check_grading}
use wasmagent_proxy.Dsse.Sign.Statement.{IsParsed}
use wasmagent_proxy.Dsse.Verify.{verify_record_dsse}
use wasmagent_proxy.Dsse.Verify.Signed.{signed_record_verifies}
use wasmagent_proxy.Dsse.Verify.Tampered.{Returns, carried_verifies_iff}

abbrev key : Bytes
key = replicate 32 7

abbrev sample : AepRecord
sample = record default_record {
  schema_version = aep_schema_version;
  run_id = codes "run-1";
  actions = record default_action { action_id = codes "act-1"; tool_name = codes "POST /mcp" } ∷ [];
  created_at_ms = 1_700_000_000_000;
}

sample-IsParsed : IsParsed sample
unfolding is_readable AreFields record_to_value
sample-IsParsed = record { extra = tt; actions = ((tt, tt), tt); readable = refl }

abbrev signed : AepRecord
signed = (sign_record_dsse parsing sample key (codes "key-1")).0

signs : (sign_record_dsse parsing sample key (codes "key-1")).1 ≡ ok tt
unfolding sign_record_dsse check_grading
signs = refl

signed_record_verifies_example : verify_record_dsse parsing signed key ≡ ok tt
signed_record_verifies_example =
    signed_record_verifies parsing sample key key (codes "key-1") (parsing-Documented key)
      sample-IsParsed signs

-- The signed record, with a legacy signature that nothing covers.
abbrev relabelled : AepRecord
relabelled = record signed { signature = some (record { alg = codes "x"; key_id = []; sig = [] }) }

same_content :
    canonical_json parsing (record_to_value (strip relabelled))
    ≡ canonical_json parsing (record_to_value (strip sample))
unfolding sign_record_dsse check_grading
same_content = refl

carried_verifies_iff_example :
    ((verify_record_dsse parsing relabelled key ≡ ok tt) ↔ (
      (relabelled.run_id ≡ sample.run_id)
      × (canonical_json parsing (record_to_value (strip relabelled))
          ≡ canonical_json parsing (record_to_value (strip sample)))))
    × Returns (verify_record_dsse parsing relabelled key)
carried_verifies_iff_example =
    carried_verifies_iff parsing sample relabelled key key (codes "key-1") (parsing-Documented key)
      sample-IsParsed signs refl (λ _. same_content)
