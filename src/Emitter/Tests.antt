-- ===== src/Emitter/Tests.antt =====
-- parsing/proxy-wasm-evidence/src/emitter.rs: runs of the assembly.
use wasmagent_proxy.Base.{
  ◌≡◌, ◌≢◌, ◌⊎◌, ◌↔◌, refl, false, none, some, List, [], ◌∷◌, ◌++◌, Text, Bytes, codes, is_blank,
  as_bytes, is_whitespace, ok, err, replicate,
}
use wasmagent_proxy.Json.{string, get}
use wasmagent_proxy.Json.Readable.{is_readable}
use wasmagent_proxy.Json.Order.{AreFields}
use wasmagent_proxy.Json.Toy.Parser.{parsing}
use wasmagent_proxy.Json.Toy.Parser.Documented.{parsing-Documented}
use wasmagent_proxy.Evidence.{ActionEvidence, AepRecord, default_action}
use wasmagent_proxy.Dsse.Verify.{verify_record_dsse}
use wasmagent_proxy.Emitter.{EmitterIdentity, assemble_and_sign}
use wasmagent_proxy.Json.Slots.Named.{Apart-end}
use wasmagent_proxy.Evidence.Serialize.{record_to_value, action_to_value, items}
use wasmagent_proxy.Dsse.Canonical.{canonical_json}
use wasmagent_proxy.Dsse.Canonical.Renders.{canonical_json-Renders}
use wasmagent_proxy.Evidence.Deserialize.{action_names, record_from_value}
use wasmagent_proxy.Emitter.Delivery.{IsSendable, delivered, delivered_verifies}
use wasmagent_proxy.Emitter.Binding.{emitted, emits_iff, emitted_binds}

abbrev key : Bytes
key = replicate 32 7

abbrev identity : EmitterIdentity
identity = record {
  trace_id = codes "trace-abc";
  agent_id = codes "gateway-eu-1";
  key_id = codes "gw-key-1";
}

abbrev evidence : List ActionEvidence
evidence = record default_action { action_id = codes "gw-act-1" } ∷ []

abbrev result : AepRecord
result = emitted parsing evidence identity 5 key

emits : assemble_and_sign parsing evidence identity 5 key ≡ ok result
unfolding is_blank is_whitespace
emits = (emits_iff parsing evidence identity 5 key).0.1 (λ e. cc, refl)

-- A blank trace identifier.
refuses_blank :
    assemble_and_sign parsing evidence (record identity { trace_id = codes "  " }) 5 key
    ≡ err (codes "trace_id is empty — cannot bind evidence to a run")
unfolding assemble_and_sign is_blank is_whitespace
refuses_blank = refl

emits_iff_example :
    ((assemble_and_sign parsing evidence identity 5 key ≡ ok result)
      ↔ ((evidence ≢ []) × (is_blank identity.trace_id ≡ false)))
    × ((assemble_and_sign parsing evidence identity 5 key ≡ ok result)
        ⊎ (e : Text) × (assemble_and_sign parsing evidence identity 5 key ≡ err e))
emits_iff_example = emits_iff parsing evidence identity 5 key

emitted_binds_example :
    (result.run_id ≡ codes "gw-" ++ identity.trace_id)
    × (result.trace_id ≡ some identity.trace_id)
    × (result.actions ≡ evidence)
    × (result.created_at_ms ≡ 5)
    × (get result.extra (codes "claimed_agent_id") ≡ some (string identity.agent_id))
    × (get result.extra (codes "identity_source") ≡ some (string (codes "self_asserted")))
    × (result.user_id ≡ none)
emitted_binds_example = emitted_binds parsing evidence identity 5 key result emits

sendable : IsSendable evidence 5
unfolding is_readable items AreFields action_to_value
sendable = record {
  plain = ((tt, tt), tt);
  foreign = ((tt, Apart-end action_names, tt), tt);
  actions = refl;
  clock = refl;
}

-- The record as canonical JSON.
abbrev written : Text
written = canonical_json parsing (record_to_value result)

delivered_verifies_example :
    (verify_record_dsse parsing result key ≡ ok tt)
    × (parsing.from_slice (as_bytes written) ≡ ok (record_to_value result))
    × (record_from_value (record_to_value result) ≡ some (delivered result identity))
    × (verify_record_dsse parsing (delivered result identity) key ≡ ok tt)
delivered_verifies_example =
    delivered_verifies parsing evidence identity 5 key key result written (parsing-Documented key)
      sendable emits (canonical_json-Renders parsing (record_to_value result))
