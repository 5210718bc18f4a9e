-- ===== src/Dsse/Sign/Statement.antt =====
-- crates/aep-core/src/dsse.rs: the statement that is signed is read back from its bytes.
use wasmagent_proxy.Base.{true, refl, ◌≡◌, Text, as_bytes, All, ok}
use wasmagent_proxy.Json.{Value, nil, cons, insert, compare_units, Crates}
use wasmagent_proxy.Json.Readable.{is_readable}
use wasmagent_proxy.Json.Order.{IsWellFormed, AreItems, AreFields, insert-AreFields}
use wasmagent_proxy.Evidence.{AepRecord}
use wasmagent_proxy.Evidence.Serialize.{record_to_value}
use wasmagent_proxy.Evidence.Rendered.{
  IsPlain, record-IsWellFormed, object-IsWellFormed, array-IsWellFormed, end-AreFields,
  text-AreFields,
}
use wasmagent_proxy.Dsse.Canonical.{canonical_json}
use wasmagent_proxy.Dsse.Canonical.Renders.{Renders, canonical_json-Renders}
use wasmagent_proxy.Dsse.Sign.{
  strip, wrap_in_toto_statement, payload_digest, statement, statement_bytes,
}

one-AreItems : (v : Value) → IsWellFormed v → AreItems (cons v nil)
unfolding IsWellFormed
one-AreItems v h = (h, tt)

ruleset wrapping = (
  object-IsWellFormed, array-IsWellFormed, end-AreFields, text-AreFields, insert-AreFields,
  one-AreItems,
)

wrapped-IsWellFormed :
    (predicate : Value) (run_id digest : Text)
    → IsWellFormed predicate
    → IsWellFormed (wrap_in_toto_statement predicate run_id digest)
unfolding wrap_in_toto_statement
wrapped-IsWellFormed predicate run_id digest h = search wrapping depth 30

wrapped_readable :
    (predicate : Value) (run_id digest : Text)
    → is_readable 126 predicate ≡ true
    → is_readable 127 (wrap_in_toto_statement predicate run_id digest) ≡ true
unfolding is_readable wrap_in_toto_statement insert compare_units
wrapped_readable predicate run_id digest h = rw h refl

-- `serde_json::from_slice` reads each JSON text of a value, without `Null` and with the members of
-- its objects in any order, as that value, if the value is within its limits.
abbrev pub Parses : Crates → Type 0
Parses x =
    (v : Value) (t : Text)
    → IsWellFormed v
    → is_readable 127 v ≡ true
    → Renders x v t
    → x.from_slice (as_bytes t) ≡ ok v

-- The extra fields at each depth are in order, and the record is within the limits as the predicate
-- of a statement.
pub record IsParsed (r : AepRecord) : Type 0 where
  pub extra : AreFields r.extra
  pub actions : All IsPlain r.actions
  pub readable : is_readable 126 (record_to_value (strip r)) ≡ true

pub from_slice-statement :
    (x : Crates) (r : AepRecord)
    → Parses x
    → IsParsed r
    → x.from_slice (statement_bytes x r) ≡ ok (statement x r)
unfolding statement_bytes statement
from_slice-statement x r parses p =
    parses (statement x r) (canonical_json x (statement x r))
      (wrapped-IsWellFormed _ r.run_id (payload_digest x r)
        (record-IsWellFormed (strip r) p.extra p.actions))
      (wrapped_readable _ r.run_id (payload_digest x r) p.readable)
      (canonical_json-Renders x (statement x r))
