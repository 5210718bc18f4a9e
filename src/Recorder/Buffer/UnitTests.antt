-- ===== src/Recorder/Buffer/UnitTests.antt =====
-- crates/proxy-wasm-evidence/src/recorder.rs: the unit tests of `EvidenceBuffer`, each a Boolean by
-- the name that it has there, and that they pass.
use wasmagent_proxy.Base.{
  ℕ, ◌≡◌, refl, Bool, true, ◌&&◌, ◌==◌, ◌++◌, List, [], ◌∷◌, Text, codes, text_eq, contains, length,
  get_elem?,
}
use wasmagent_proxy.Base.Asserts.{is_none, some_and, ok_and, panics_with}
use wasmagent_proxy.Evidence.{ActionEvidence, default_action}
use wasmagent_proxy.Recorder.Buffer.{
  EvidenceBuffer, default_evidence_buffer_capacity, new, with_defaults, push, len, is_empty, drain,
}

abbrev make_evidence : Text → ActionEvidence
make_evidence id = record default_action {
  action_id = id;
  tool_name = codes "tool-" ++ id;
  timestamp_ms = 1;
}

abbrev called : Text → ActionEvidence → Bool
called id evidence = text_eq evidence.action_id id

abbrev most : ℕ
most = 10_000_000

-- A buffer after the pushes.
abbrev pushed : EvidenceBuffer → List Text → EvidenceBuffer
pushed buf [] = buf
pushed buf (id ∷ ids) = pushed (push buf (make_evidence id)).0 ids

abbrev evidence_buffer_panics_on_zero_capacity : Bool
evidence_buffer_panics_on_zero_capacity = panics_with (new most 0) (codes "capacity must be > 0")

abbrev evidence_buffer_with_defaults_has_capacity_1024 : Bool
evidence_buffer_with_defaults_has_capacity_1024 =
    ok_and (with_defaults most)
      λ buf. buf.capacity == default_evidence_buffer_capacity && is_empty buf && len buf == 0

-- `EvidenceBuffer::default` is `with_defaults`.
abbrev evidence_buffer_default_has_capacity_1024 : Bool
evidence_buffer_default_has_capacity_1024 =
    ok_and (with_defaults most)
      λ buf. buf.capacity == default_evidence_buffer_capacity && is_empty buf

abbrev evidence_buffer_push_without_overflow : Bool
evidence_buffer_push_without_overflow = ok_and (new most 4) λ buf.
    let (buf, evicted) = push buf (make_evidence (codes "a")) in
    let (buf', evicted') = push buf (make_evidence (codes "b")) in
    is_none evicted && len buf == 1 && is_none evicted' && len buf' == 2

abbrev evidence_buffer_evicts_oldest_on_overflow : Bool
evidence_buffer_evicts_oldest_on_overflow = ok_and (new most 2) λ buf.
    let (buf, first) = push buf (make_evidence (codes "a")) in
    let (buf, second) = push buf (make_evidence (codes "b")) in
    let (buf, third) = push buf (make_evidence (codes "c")) in
    let (buf', fourth) = push buf (make_evidence (codes "d")) in
    is_none first
    && is_none second
    && some_and third (called (codes "a"))
    && len buf == 2
    && some_and fourth (called (codes "b"))
    && len buf' == 2

abbrev evidence_buffer_drain_returns_all_entries : Bool
evidence_buffer_drain_returns_all_entries = ok_and (new most 4) λ buf.
    let (buf, drained) = drain (pushed buf (codes "a" ∷ codes "b" ∷ codes "c" ∷ [])) in
    length drained == 3
    && some_and (get_elem? drained 0) (called (codes "a"))
    && some_and (get_elem? drained 2) (called (codes "c"))
    && is_empty buf

abbrev evidence_buffer_drain_after_overflow : Bool
evidence_buffer_drain_after_overflow = ok_and (new most 2) λ buf.
    let (buf, drained) = drain (pushed buf (codes "a" ∷ codes "b" ∷ codes "c" ∷ [])) in
    length drained == 2
    && some_and (get_elem? drained 0) (called (codes "b"))
    && some_and (get_elem? drained 1) (called (codes "c"))

unit_tests_pass :
    (evidence_buffer_panics_on_zero_capacity && evidence_buffer_with_defaults_has_capacity_1024
      && evidence_buffer_default_has_capacity_1024 && evidence_buffer_push_without_overflow
      && evidence_buffer_evicts_oldest_on_overflow && evidence_buffer_drain_returns_all_entries
      && evidence_buffer_drain_after_overflow)
    ≡ true
unfolding with_defaults push drain contains text_eq
unit_tests_pass = refl
