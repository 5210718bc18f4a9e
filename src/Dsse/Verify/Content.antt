-- ===== src/Dsse/Verify/Content.antt =====
-- crates/aep-core/src/dsse.rs: what an envelope that verifies says of the whole record.
use wasmagent_proxy.Base.{◌≡◌, ok, All, Text, Bytes, ◌++◌}
use wasmagent_proxy.Json.{Value, Crates}
use wasmagent_proxy.Json.Order.{AreFields}
use wasmagent_proxy.Evidence.{AepRecord}
use wasmagent_proxy.Evidence.Serialize.{record_to_value}
use wasmagent_proxy.Evidence.Rendered.{IsPlain, record-IsWellFormed}
use wasmagent_proxy.Dsse.Canonical.{canonical_json}
use wasmagent_proxy.Dsse.Canonical.Joined.{Ends}
use wasmagent_proxy.Dsse.Canonical.Texts.{IsScalar}
use wasmagent_proxy.Dsse.Canonical.Scalars
use wasmagent_proxy.Dsse.Canonical.Injective.{canonical_json-injective}
use wasmagent_proxy.Dsse.Sign.{strip, payload_digest}
use wasmagent_proxy.Dsse.Verify.{verify_record_dsse}
use wasmagent_proxy.Dsse.Verify.Accepted.{envelope_binds_record}

-- Two records accepted with the same envelope have the same content: the JSON values of what is
-- signed of them are equal. That is if the extra fields of both are well formed; if the two canonical
-- forms have different digests unless they are equal; if the text of a scalar begins like no array,
-- no object and nothing that follows a value; and if two texts of scalars, each followed by a comma,
-- a colon, a closing bracket or brace or nothing, are equal only for equal scalars with equal
-- continuations.
pub envelope_binds_content :
    (x : Crates) (r s : AepRecord) (key other : Bytes)
    → ((v : Value) → IsScalar v → Scalars.IsPlain (x.to_string v))
    → ((u v : Value) (t t' : Text)
        → IsScalar u
        → IsScalar v
        → Ends t
        → Ends t'
        → x.to_string u ++ t ≡ x.to_string v ++ t'
        → (u ≡ v) × (t ≡ t'))
    → (payload_digest x r ≡ payload_digest x s
        → canonical_json x (record_to_value (strip r))
          ≡ canonical_json x (record_to_value (strip s)))
    → AreFields r.extra
    → All IsPlain r.actions
    → AreFields s.extra
    → All IsPlain s.actions
    → verify_record_dsse x r key ≡ ok tt
    → verify_record_dsse x s other ≡ ok tt
    → r.dsse_envelope ≡ s.dsse_envelope
    → record_to_value (strip r) ≡ record_to_value (strip s)
envelope_binds_content x r s key other plain delimits collides extra actions extra' actions' h k
      same =
    let (_, digests) = envelope_binds_record x r s key other h k same in
    canonical_json-injective x plain delimits (record_to_value (strip r))
      (record_to_value (strip s)) (record-IsWellFormed (strip r) extra actions)
      (record-IsWellFormed (strip s) extra' actions') (collides digests)
