-- ===== src/Evidence/Rendered.antt =====
-- crates/aep-core/src/evidence.rs: the JSON values of records.
use wasmagent_proxy.Base.{ℕ, Option, none, some, List, [], ◌∷◌, Text, Bool, All}
use wasmagent_proxy.Json.{Value, string, boolean, array, object, Items, Fields, Map, insert}
use wasmagent_proxy.Json.Order.{
  IsWellFormed, AreItems, AreFields, insert-AreFields, insert_all-AreFields,
}
use wasmagent_proxy.Evidence.{
  CapabilityDecision, ActionEvidence, AepSignature, DsseSignature, DsseEnvelope, AepRecord,
}
use wasmagent_proxy.Evidence.Serialize.{
  insert_some, items, u64_value, capability_to_value, action_to_value, signature_to_value,
  dsse_signature_to_value, envelope_to_value, record_to_value,
}

-- What an option holds satisfies the predicate.
abbrev pub AllSome : {A : Type 0} → (A → Type 0) → Option A → Type 0
AllSome P none = Unit
AllSome P (some a) = P a

AllSome-of : {A : Type 0} (P : A → Type 0) (o : Option A) → ((a : A) → P a) → AllSome P o
AllSome-of P none f = tt
AllSome-of P (some a) f = f a

insert_some-AreFields :
    {A : Type 0} (k : Text) (f : A → Value) (o : Option A) (m : Map)
    → AllSome (λ a. IsWellFormed (f a)) o
    → AreFields m
    → AreFields (insert_some k f o m)
unfolding insert_some
insert_some-AreFields k f none m w h = h
insert_some-AreFields k f (some a) m w h = insert-AreFields k (f a) m w h

pub items-AreItems :
    {A : Type 0} (f : A → Value) (xs : List A)
    → All (λ a. IsWellFormed (f a)) xs
    → AreItems (items f xs)
unfolding items IsWellFormed
items-AreItems f [] h = tt
items-AreItems f (x ∷ xs) (w, h) = (w, items-AreItems f xs h)

All-each : {A : Type 0} (P : A → Type 0) (xs : List A) → ((a : A) → P a) → All P xs
All-each P [] f = tt
All-each P (x ∷ xs) f = (f x, All-each P xs f)

-- Fields of text, which cannot break a map.
pub text-AreFields : (k t : Text) (m : Map) → AreFields m → AreFields (insert k (string t) m)
unfolding IsWellFormed
text-AreFields k t m h = insert-AreFields k (string t) m tt h

some_text-AreFields :
    (k : Text) (o : Option Text) (m : Map) → AreFields m → AreFields (insert_some k string o m)
unfolding IsWellFormed
some_text-AreFields k o m h =
    insert_some-AreFields k string o m (AllSome-of (λ t. IsWellFormed (string t)) o (λ _. tt)) h

pub object-IsWellFormed : (m : Map) → AreFields m → IsWellFormed (object m)
unfolding IsWellFormed
object-IsWellFormed m h = h

pub array-IsWellFormed : (xs : Items) → AreItems xs → IsWellFormed (array xs)
unfolding IsWellFormed
array-IsWellFormed xs h = h

pub text-IsWellFormed : (t : Text) → IsWellFormed (string t)
unfolding IsWellFormed
text-IsWellFormed t = tt

pub end-AreFields : AreFields Fields.end
unfolding IsWellFormed
end-AreFields = tt

u64-IsWellFormed : (n : ℕ) → IsWellFormed (u64_value n)
unfolding IsWellFormed
u64-IsWellFormed n = tt

flag-IsWellFormed : (b : Bool) → IsWellFormed (boolean b)
unfolding IsWellFormed
flag-IsWellFormed b = tt

ruleset rendering = (
  object-IsWellFormed, array-IsWellFormed, text-IsWellFormed, end-AreFields, u64-IsWellFormed,
  flag-IsWellFormed, text-AreFields, some_text-AreFields, insert-AreFields, insert_some-AreFields,
  insert_all-AreFields, items-AreItems,
)

capability-IsWellFormed :
    (c : CapabilityDecision) → AreFields c.extra → IsWellFormed (capability_to_value c)
unfolding capability_to_value
capability-IsWellFormed c extra = search rendering depth 30

-- The extra fields of an action, and of its decision, are well formed.
abbrev pub IsPlain : ActionEvidence → Type 0
IsPlain a = AreFields a.extra × AllSome (λ c. AreFields c.extra) a.capability_decision

decision-IsWellFormed :
    (o : Option CapabilityDecision)
    → AllSome (λ c. AreFields c.extra) o
    → AllSome (λ c. IsWellFormed (capability_to_value c)) o
decision-IsWellFormed none h = tt
decision-IsWellFormed (some c) h = capability-IsWellFormed c h

action-IsWellFormed : (a : ActionEvidence) → IsPlain a → IsWellFormed (action_to_value a)
unfolding action_to_value
action-IsWellFormed a (extra, decision) =
    let decided = decision-IsWellFormed a.capability_decision decision in search rendering depth 30

signature-IsWellFormed : (s : AepSignature) → IsWellFormed (signature_to_value s)
unfolding signature_to_value
signature-IsWellFormed s = search rendering depth 30

dsse_signature-IsWellFormed : (s : DsseSignature) → IsWellFormed (dsse_signature_to_value s)
unfolding dsse_signature_to_value
dsse_signature-IsWellFormed s = search rendering depth 30

envelope-IsWellFormed : (e : DsseEnvelope) → IsWellFormed (envelope_to_value e)
unfolding envelope_to_value
envelope-IsWellFormed e =
    let signatures =
      items-AreItems dsse_signature_to_value e.signatures
        (All-each _ e.signatures dsse_signature-IsWellFormed) in
    search rendering depth 30

texts-IsWellFormed : (ts : List Text) → IsWellFormed (array (items string ts))
texts-IsWellFormed ts =
    array-IsWellFormed (items string ts)
      (items-AreItems string ts (All-each _ ts text-IsWellFormed))

actions-AreItems :
    (actions : List ActionEvidence) → All IsPlain actions → AreItems (items action_to_value actions)
unfolding items IsWellFormed
actions-AreItems [] h = tt
actions-AreItems (a ∷ actions) (p, h) = (action-IsWellFormed a p, actions-AreItems actions h)

-- The JSON value of a record has no `Null` at any depth, and each of its objects has each key once,
-- in the order of the keys, if that holds of the extra fields of the record, of its actions and of
-- their decisions.
pub record-IsWellFormed :
    (r : AepRecord) → AreFields r.extra → All IsPlain r.actions → IsWellFormed (record_to_value r)
unfolding record_to_value
record-IsWellFormed r extra plain =
    let actions = actions-AreItems r.actions plain in
    let envelope =
      AllSome-of (λ e. IsWellFormed (envelope_to_value e)) r.dsse_envelope envelope-IsWellFormed in
    let signature =
      AllSome-of (λ s. IsWellFormed (signature_to_value s)) r.signature signature-IsWellFormed in
    let observed =
      AllSome-of (λ ts. IsWellFormed (array (items string ts))) r.run_attribution_backing_observed
        texts-IsWellFormed in
    let count =
      AllSome-of (λ n. IsWellFormed (u64_value n)) r.authorization_evidence_count
        u64-IsWellFormed in
    search rendering depth 60
