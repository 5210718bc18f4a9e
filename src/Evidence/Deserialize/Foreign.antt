-- ===== src/Evidence/Deserialize/Foreign.antt =====
-- crates/aep-core/src/evidence.rs: a document that is read as a record is written again as it was.
use mathlib.Core.Option
use wasmagent_proxy.Base.{
  ◌≡◌, refl, sym, ap, ◌∙◌, subst, Option, none, some, some-injective, List, [], ◌∷◌, Text, false,
  codes, if◌then◌else◌, Bool-cases, inl, inr, arith,
}
use wasmagent_proxy.Json.{Value, null, boolean, number, string, array, object, Map, get, as_str}
use wasmagent_proxy.Json.Order.{IsWellFormed, AreFields, AreFields-Ordered}
use wasmagent_proxy.Json.Lookup.{is_listed, without, get-without, without-Ordered, maps_agree}
use wasmagent_proxy.Json.Slots.{◌&◌, Agree, struct, struct-without}
use wasmagent_proxy.Json.Slots.Named.{Agree-of, unlisted-part}
use wasmagent_proxy.Evidence.{CapabilityDecision, ActionEvidence, AepRecord}
use wasmagent_proxy.Dsse.Sign.{strip}
use wasmagent_proxy.Evidence.Serialize.{capability_to_value, action_to_value, record_to_value}
use wasmagent_proxy.Evidence.Deserialize.{
  required, optional, capability_from_map, capability_names, capability_from_value, action_from_map,
  action_names, action_from_value, envelope_from_value, signature_from_value, record_from_map,
  record_names, record_from_value,
}
use wasmagent_proxy.Evidence.Deserialize.Fields.{
  capability_slots, capability-struct, action_slots, action-struct, record_slots, record-struct,
}
use wasmagent_proxy.Evidence.Deserialize.Faithful.{
  bind-eq_some, Faithful, text-Faithful, flag-Faithful, u64-Faithful, mode-Faithful, list-Faithful,
  get-IsWellFormed, required-Faithful, optional-Faithful,
}

-- A field of text.
module _ (m : Map) (w : AreFields m) where
  field_text :
      (k : Text) {t : Text} → required as_str (get m k) ≡ some t → get m k ≡ some (string t)
  field_text k h = required-Faithful text-Faithful (get m k) _ (get-IsWellFormed m k w) h

  optional_text :
      (k : Text) {o : Option Text}
      → optional as_str (get m k) ≡ some o
      → get m k ≡ Option.map string o
  optional_text k h = optional-Faithful text-Faithful (get m k) _ (get-IsWellFormed m k w) h

capability-Agree :
    (m : Map) (c : CapabilityDecision)
    → AreFields m
    → capability_from_map m ≡ some c
    → Agree (get m) (capability_slots c) × (without capability_names m ≡ c.extra)
unfolding capability_from_map
capability-Agree m c w h =
    let (c₀, e₀, h) = bind-eq_some _ _ h in
    let (c₁, e₁, h) = bind-eq_some _ _ h in
    let (c₂, e₂, h) = bind-eq_some _ _ h in
    let (c₃, e₃, h) = bind-eq_some _ _ h in
    let (c₄, e₄, h) = bind-eq_some _ _ h in
    let (c₅, e₅, h) = bind-eq_some _ _ h in
    subst (λ c. Agree (get m) (capability_slots c) × (without capability_names m ≡ c.extra))
      (some-injective _ _ h)
      (
        field_text m w _ e₀
            & field_text m w _ e₁
            & field_text m w _ e₂
            & field_text m w _ e₃
            & optional_text m w _ e₄
            & optional_text m w _ e₅
            & tt,
        refl,
      )

capability-Faithful : Faithful capability_from_value capability_to_value
unfolding IsWellFormed
capability-Faithful (object m) c w h =
    let (agree, extra) = capability-Agree m c w h in
    sym (
      capability-struct c
      ∙ ap object (
          ap (struct (capability_slots c)) (sym extra)
          ∙ struct-without (capability_slots c) m (AreFields-Ordered m w) agree))
capability-Faithful null found w h = absurd (ground arith)
capability-Faithful (boolean b) found w h = absurd (ground arith)
capability-Faithful (number b) found w h = absurd (ground arith)
capability-Faithful (string b) found w h = absurd (ground arith)
capability-Faithful (array b) found w h = absurd (ground arith)

action-Agree :
    (m : Map) (a : ActionEvidence)
    → AreFields m
    → action_from_map m ≡ some a
    → Agree (get m) (action_slots a) × (without action_names m ≡ a.extra)
unfolding action_from_map
action-Agree m a w h =
    let (a₀, e₀, h) = bind-eq_some _ _ h in
    let (a₁, e₁, h) = bind-eq_some _ _ h in
    let (a₂, e₂, h) = bind-eq_some _ _ h in
    let (a₃, e₃, h) = bind-eq_some _ _ h in
    let (a₄, e₄, h) = bind-eq_some _ _ h in
    let (a₅, e₅, h) = bind-eq_some _ _ h in
    let (a₆, e₆, h) = bind-eq_some _ _ h in
    let (a₇, e₇, h) = bind-eq_some _ _ h in
    let (a₈, e₈, h) = bind-eq_some _ _ h in
    let (a₉, e₉, h) = bind-eq_some _ _ h in
    let (a₁₀, e₁₀, h) = bind-eq_some _ _ h in
    let (a₁₁, e₁₁, h) = bind-eq_some _ _ h in
    subst (λ a. Agree (get m) (action_slots a) × (without action_names m ≡ a.extra))
      (some-injective _ _ h)
      (
        field_text m w _ e₀
            & field_text m w _ e₁
            & required-Faithful flag-Faithful _ a₂ (get-IsWellFormed m _ w) e₂
            & optional_text m w _ e₃
            & optional_text m w _ e₄
            & required-Faithful u64-Faithful _ a₅ (get-IsWellFormed m _ w) e₅
            & optional_text m w _ e₆
            & optional_text m w _ e₇
            & required-Faithful mode-Faithful _ a₈ (get-IsWellFormed m _ w) e₈
            & optional-Faithful capability-Faithful _ a₉ (get-IsWellFormed m _ w) e₉
            & optional_text m w _ e₁₀
            & optional_text m w _ e₁₁
            & tt,
        refl,
      )

action-Faithful : Faithful action_from_value action_to_value
unfolding IsWellFormed
action-Faithful (object m) a w h =
    let (agree, extra) = action-Agree m a w h in
    sym (
      action-struct a
      ∙ ap object (
          ap (struct (action_slots a)) (sym extra)
          ∙ struct-without (action_slots a) m (AreFields-Ordered m w) agree))
action-Faithful null found w h = absurd (ground arith)
action-Faithful (boolean b) found w h = absurd (ground arith)
action-Faithful (number b) found w h = absurd (ground arith)
action-Faithful (string b) found w h = absurd (ground arith)
action-Faithful (array b) found w h = absurd (ground arith)

-- The fields that are not signed.
abbrev pub signing_names : List Text
signing_names = codes "dsse_envelope" ∷ codes "signature" ∷ []

abbrev signed_part : Map → Text → Option Value
signed_part m k = if is_listed signing_names k then none else get m k

record-Agree :
    (m : Map) (r : AepRecord)
    → AreFields m
    → record_from_map m ≡ some r
    → Agree (signed_part m) (record_slots (strip r)) × (without record_names m ≡ r.extra)
unfolding record_from_map is_listed
record-Agree m r w h =
    let (r₀, e₀, h) = bind-eq_some _ _ h in
    let (r₁, e₁, h) = bind-eq_some _ _ h in
    let (r₂, e₂, h) = bind-eq_some _ _ h in
    let (r₃, e₃, h) = bind-eq_some _ _ h in
    let (r₄, e₄, h) =
      bind-eq_some (optional envelope_from_value (get m (codes "dsse_envelope"))) _ h in
    let (r₅, e₅, h) = bind-eq_some _ _ h in
    let (r₆, e₆, h) = bind-eq_some _ _ h in
    let (r₇, e₇, h) = bind-eq_some _ _ h in
    let (r₈, e₈, h) = bind-eq_some _ _ h in
    let (r₉, e₉, h) = bind-eq_some _ _ h in
    let (r₁₀, e₁₀, h) = bind-eq_some _ _ h in
    let (r₁₁, e₁₁, h) = bind-eq_some _ _ h in
    let (r₁₂, e₁₂, h) = bind-eq_some _ _ h in
    let (r₁₃, e₁₃, h) = bind-eq_some _ _ h in
    let (r₁₄, e₁₄, h) = bind-eq_some _ _ h in
    let (r₁₅, e₁₅, h) = bind-eq_some _ _ h in
    let (r₁₆, e₁₆, h) = bind-eq_some _ _ h in
    let (r₁₇, e₁₇, h) =
      bind-eq_some (optional signature_from_value (get m (codes "signature"))) _ h in
    subst (λ r. Agree (signed_part m) (record_slots (strip r)) × (without record_names m ≡ r.extra))
      (some-injective _ _ h)
      (
        field_text m w _ e₀
            & field_text m w _ e₁
            & optional_text m w _ e₂
            & optional_text m w _ e₃
            & refl
            & optional_text m w _ e₅
            & optional_text m w _ e₆
            & optional_text m w _ e₇
            & optional_text m w _ e₈
            & optional_text m w _ e₉
            & optional_text m w _ e₁₀
            & optional-Faithful (list-Faithful text-Faithful) _ r₁₁ (get-IsWellFormed m _ w) e₁₁
            & optional-Faithful u64-Faithful _ r₁₂ (get-IsWellFormed m _ w) e₁₂
            & optional_text m w _ e₁₃
            & optional_text m w _ e₁₄
            & required-Faithful (list-Faithful action-Faithful) _ r₁₅ (get-IsWellFormed m _ w) e₁₅
            & required-Faithful u64-Faithful _ r₁₆ (get-IsWellFormed m _ w) e₁₆
            & refl
            & tt,
        refl,
      )

-- The signing fields are among the fields of a record.
unsigned_listed : (k : Text) → is_listed record_names k ≡ false → is_listed signing_names k ≡ false
unfolding is_listed
unsigned_listed k h = unlisted-part signing_names record_names k (refl, (refl, tt)) h

without-signing :
    (m : Map)
    → AreFields m
    → without record_names (without signing_names m) ≡ without record_names m
without-signing m w =
    let o = AreFields-Ordered m w in
    maps_agree _ _ (without-Ordered record_names _ (without-Ordered signing_names m o))
      (without-Ordered record_names m o)
      (λ k.
        get-without record_names (without signing_names m) k
        ∙ (elim (Bool-cases (is_listed record_names k)) [
          | inl l ↦ rw l refl
          | inr l ↦ rw l (get-without signing_names m k ∙ rw (unsigned_listed k l) refl)
        ]
            ∙ sym (get-without record_names m k)))

-- What is signed of a record that was read is what it was read from: if a document has no `Null` at
-- any depth and its objects have each key once, in order, and if it deserializes to a record, then
-- the record's JSON value without the signing fields is the document without them, so that no entry
-- is dropped, added or changed.
pub record_read-keeps :
    (m : Map) (r : AepRecord)
    → IsWellFormed (object m)
    → record_from_value (object m) ≡ some r
    → record_to_value (strip r) ≡ object (without signing_names m)
unfolding IsWellFormed
record_read-keeps m r w h =
    let (agree, extra) = record-Agree m r w h in
    let seek = Agree-of _ _ (record_slots (strip r)) (λ k _. get-without signing_names m k) agree in
    record-struct (strip r)
    ∙ ap object (
        ap (struct (record_slots (strip r))) (sym (without-signing m w ∙ extra))
        ∙ struct-without (record_slots (strip r)) (without signing_names m)
            (without-Ordered signing_names m (AreFields-Ordered m w)) seek)
