-- ===== src/Pipeline/Tests.antt =====
-- crates/proxy-wasm-evidence/src: two exchanges of a context whose buffer holds one entry, emitted.
use wasmagent_proxy.Base.{
  ◌≡◌, ◌-◌, refl, false, some, Text, Bytes, codes, as_bytes, ok, length, drop, replicate, is_blank,
  is_whitespace, arith,
}
use wasmagent_proxy.Json.Toy.Parser.{parsing}
use wasmagent_proxy.Json.Toy.Parser.Documented.{parsing-Documented}
use wasmagent_proxy.Evidence.{AepRecord}
use wasmagent_proxy.Evidence.Serialize.{record_to_value}
use wasmagent_proxy.Evidence.Deserialize.{record_from_value}
use wasmagent_proxy.Dsse.Canonical.{canonical_json}
use wasmagent_proxy.Dsse.Canonical.Renders.{canonical_json-Renders}
use wasmagent_proxy.Dsse.Verify.{verify_record_dsse}
use wasmagent_proxy.Filter.{default_metrics}
use wasmagent_proxy.Filter.Exchange.{entries}
use wasmagent_proxy.Filter.Tests.{ascii, strict, fresh, opened, hosts}
use wasmagent_proxy.Emitter.{EmitterIdentity, assemble_and_sign}
use wasmagent_proxy.Emitter.Delivery.{delivered}
use wasmagent_proxy.Pipeline.{captured, sent, captured_delivers}

abbrev key : Bytes
key = replicate 32 7

abbrev identity : EmitterIdentity
identity = record {
  trace_id = codes "trace-abc";
  agent_id = codes "gateway-eu-1";
  key_id = codes "gw-key-1";
}

abbrev result : AepRecord
result = sent ascii parsing hosts fresh identity 5 key

-- The record as canonical JSON.
abbrev written : Text
written = canonical_json parsing (record_to_value result)

named : is_blank identity.trace_id ≡ false
unfolding is_blank is_whitespace
named = refl

captured_delivers_example :
    (assemble_and_sign parsing (captured ascii hosts fresh) identity 5 key ≡ ok result)
    × (result.actions
        ≡ drop (length hosts - strict.max_evidence_buffer) (entries ascii hosts fresh))
    × (verify_record_dsse parsing result key ≡ ok tt)
    × (parsing.from_slice (as_bytes written) ≡ ok (record_to_value result))
    × (record_from_value (record_to_value result) ≡ some (delivered result identity))
    × (verify_record_dsse parsing (delivered result identity) key ≡ ok tt)
captured_delivers_example =
    captured_delivers ascii parsing hosts 10 7 strict default_metrics fresh identity 5 key key
      written (parsing-Documented key) opened (omega arith) named (omega arith)
      (canonical_json-Renders parsing (record_to_value result))
