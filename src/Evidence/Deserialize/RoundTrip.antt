-- ===== src/Evidence/Deserialize/RoundTrip.antt =====
-- crates/aep-core/src/evidence.rs: a record that is written is read back.
use mathlib.Core.Option
use wasmagent_proxy.Base.{ℕ, ◌≡◌, refl, sym, ap, ◌∙◌, Option, none, some, List, [], ◌∷◌, Text, All}
use wasmagent_proxy.Json.{Value, string, array, Map, get, as_str}
use wasmagent_proxy.Json.Lookup.{without}
use wasmagent_proxy.Json.Order.{Ordered}
use wasmagent_proxy.Json.Slots.{Agree, Apart, without-struct}
use wasmagent_proxy.Json.Slots.Named.{distinct, struct-Agree}
use wasmagent_proxy.Recording.{RecordingMode, validation, delta, full, mode_str}
use wasmagent_proxy.Evidence.{
  CapabilityDecision, ActionEvidence, AepSignature, DsseSignature, DsseEnvelope, AepRecord,
}
use wasmagent_proxy.Evidence.Serialize.{
  items, u64_value, capability_to_value, action_to_value, signature_to_value,
  dsse_signature_to_value, envelope_to_value, record_to_value,
}
use wasmagent_proxy.Evidence.Rendered.{AllSome}
use wasmagent_proxy.Evidence.Deserialize.{
  optional, nullable, as_u64, as_list, each, variant, capability_names, action_names, record_names,
  capability_from_map, capability_from_value, action_from_map, action_from_value,
  signature_from_value, dsse_signature_from_value, envelope_from_value, record_from_map,
  record_from_value,
}
use wasmagent_proxy.Evidence.Deserialize.Fields.{
  capability_slots, capability-struct, action_slots, action-struct, record_slots, record-struct,
}

optional-map :
    {A : Type 0} (f : Value → Option A) (g : A → Value) (o : Option A)
    → AllSome (λ a. nullable f (g a) ≡ some (some a)) o
    → optional f (Option.map g o) ≡ some o
optional-map f g none h = refl
optional-map f g (some a) h = h

optional-text : (o : Option Text) → optional as_str (Option.map string o) ≡ some o
optional-text none = refl
optional-text (some t) = refl

optional-u64 : (o : Option ℕ) → optional as_u64 (Option.map u64_value o) ≡ some o
optional-u64 none = refl
optional-u64 (some n) = refl

each-items :
    {A : Type 0} (f : Value → Option A) (g : A → Value) (xs : List A)
    → All (λ a. f (g a) ≡ some a) xs
    → each f (items g xs) ≡ some xs
unfolding each items
each-items f g [] h = refl
each-items f g (x ∷ xs) (h, hs) = rw (h, each-items f g xs hs) refl

each-text : (ts : List Text) → each as_str (items string ts) ≡ some ts
unfolding each items
each-text [] = refl
each-text (t ∷ ts) = rw (each-text ts) refl

optional-texts :
    (o : Option (List Text))
    → optional (as_list as_str) (Option.map (λ gs. array (items string gs)) o) ≡ some o
optional-texts none = refl
optional-texts (some ts) = rw (each-text ts) refl

variant-mode_str : (mode : RecordingMode) → variant (mode_str mode) ≡ some mode
unfolding variant
variant-mode_str validation = refl
variant-mode_str delta = refl
variant-mode_str full = refl

optional-signature :
    (o : Option AepSignature)
    → optional signature_from_value (Option.map signature_to_value o) ≡ some o
unfolding signature_from_value signature_to_value
optional-signature none = refl
optional-signature (some s) = refl

dsse_signatures-read_back :
    (ss : List DsseSignature)
    → each dsse_signature_from_value (items dsse_signature_to_value ss) ≡ some ss
unfolding each items dsse_signature_from_value dsse_signature_to_value
dsse_signatures-read_back [] = refl
dsse_signatures-read_back (s ∷ ss) = rw (dsse_signatures-read_back ss) refl

optional-envelope :
    (o : Option DsseEnvelope)
    → optional envelope_from_value (Option.map envelope_to_value o) ≡ some o
unfolding envelope_from_value envelope_to_value
optional-envelope none = refl
optional-envelope (some e) = rw (dsse_signatures-read_back e.signatures) refl

capability-reads :
    (c : CapabilityDecision) (m : Map)
    → Agree (get m) (capability_slots c)
    → without capability_names m ≡ c.extra
    → capability_from_map m ≡ some c
unfolding capability_from_map
capability-reads c m (h₀, (h₁, (h₂, (h₃, (h₄, (h₅, _)))))) e =
    simp (h₀, h₁, h₂, h₃, h₄, h₅, optional-text, e)

abbrev pub IsApart : CapabilityDecision → Type 0
IsApart c = Ordered c.extra × Apart capability_names c.extra

capability-read_back :
    (c : CapabilityDecision) → IsApart c → capability_from_value (capability_to_value c) ≡ some c
unfolding distinct
capability-read_back c (o, apart) = rw (capability-struct c) (
    capability-reads c _ (struct-Agree (capability_slots c) c.extra refl o apart)
      (without-struct (capability_slots c) c.extra o apart))

-- The extra fields of an action, and of its decision, are ordered and named by no field.
abbrev pub IsForeign : ActionEvidence → Type 0
IsForeign a = Ordered a.extra × Apart action_names a.extra × AllSome IsApart a.capability_decision

optional-capability :
    (o : Option CapabilityDecision)
    → AllSome IsApart o
    → optional capability_from_value (Option.map capability_to_value o) ≡ some o
optional-capability none h = refl
optional-capability (some c) h = rw (capability-struct c) (
    ap (Option.map some)
      (sym (ap capability_from_value (capability-struct c)) ∙ capability-read_back c h))

action-reads :
    (a : ActionEvidence) (m : Map)
    → AllSome IsApart a.capability_decision
    → Agree (get m) (action_slots a)
    → without action_names m ≡ a.extra
    → action_from_map m ≡ some a
unfolding action_from_map
action-reads a m decided (h₀, (h₁, (h₂, (h₃, (h₄, (h₅, (h₆, (h₇, (h₈, (h₉, (h₁₀, (h₁₁, _))))))))))))
      e =
    simp (
      h₀,
      h₁,
      h₂,
      h₃,
      h₄,
      h₅,
      h₆,
      h₇,
      h₈,
      h₉,
      h₁₀,
      h₁₁,
      optional-text,
      variant-mode_str,
      optional-capability a.capability_decision decided,
      e,
    )

action-read_back :
    (a : ActionEvidence) → IsForeign a → action_from_value (action_to_value a) ≡ some a
unfolding distinct
action-read_back a (o, apart, decided) = rw (action-struct a) (
    action-reads a _ decided (struct-Agree (action_slots a) a.extra refl o apart)
      (without-struct (action_slots a) a.extra o apart))

actions-read_back :
    (actions : List ActionEvidence)
    → All IsForeign actions
    → each action_from_value (items action_to_value actions) ≡ some actions
unfolding each items
actions-read_back [] h = refl
actions-read_back (a ∷ actions) (h, hs) =
    rw (action-read_back a h, actions-read_back actions hs) refl

record-reads :
    (r : AepRecord) (m : Map)
    → All IsForeign r.actions
    → Agree (get m) (record_slots r)
    → without record_names m ≡ r.extra
    → record_from_map m ≡ some r
unfolding record_from_map
record-reads r m plain
      (
        h₀,
        (
          h₁,
          (
            h₂,
            (
              h₃,
              (
                h₄,
                (
                  h₅,
                  (h₆, (h₇, (h₈, (h₉, (h₁₀, (h₁₁, (h₁₂, (h₁₃, (h₁₄, (h₁₅, (h₁₆, (h₁₇, _)))))))))))),
                ),
              ),
            ),
          ),
        ),
      )
      e =
    simp (
      h₀,
      h₁,
      h₂,
      h₃,
      h₄,
      h₅,
      h₆,
      h₇,
      h₈,
      h₉,
      h₁₀,
      h₁₁,
      h₁₂,
      h₁₃,
      h₁₄,
      h₁₅,
      h₁₆,
      h₁₇,
      optional-text,
      optional-texts,
      optional-u64,
      optional-envelope,
      optional-signature,
      actions-read_back r.actions plain,
      e,
    )

-- A record that is serialized deserializes to itself, if the extra fields of the record, of its
-- actions and of their decisions are in the order of their keys, and none has the name of a field
-- of its struct.
pub record-read_back :
    (r : AepRecord)
    → Ordered r.extra
    → Apart record_names r.extra
    → All IsForeign r.actions
    → record_from_value (record_to_value r) ≡ some r
unfolding distinct
record-read_back r o apart plain = rw (record-struct r) (
    record-reads r _ plain (struct-Agree (record_slots r) r.extra refl o apart)
      (without-struct (record_slots r) r.extra o apart))
