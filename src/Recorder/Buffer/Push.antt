-- ===== src/Recorder/Buffer/Push.antt =====
-- crates/proxy-wasm-evidence/src/recorder.rs: `push` with room and without.
use wasmagent_proxy.Base.{
  ◌+◌, ◌%◌, ◌^◌, ◌≤◌, ◌<◌, ◌≡◌, ap, none, some, List, [], ◌∷◌, ◌++◌, arith, length, inl, inr,
  Bool-cases, List-cases, ltb→lt, ltb,
}
use wasmagent_proxy.Evidence.{ActionEvidence}
use wasmagent_proxy.Recorder.Buffer.{EvidenceBuffer, push}

-- A push with room appends, and one without moves the queue on by one.
pub push_room :
    (b : EvidenceBuffer) (e : ActionEvidence)
    → length b.entries < b.capacity
    → push b e ≡ (record b { entries = b.entries ++ e ∷ [] }, none)
unfolding push
push_room b e h = ground arith

pub push_full :
    (b : EvidenceBuffer) (e x : ActionEvidence) (rest : List ActionEvidence)
    → b.entries ≡ x ∷ rest
    → b.capacity ≤ length b.entries
    → push b e ≡ (
      record b { entries = rest ++ e ∷ []; dropped_total = (b.dropped_total + 1) % 2 ^ 64 },
      some x,
    )
unfolding push
push_full b e x rest h full = ground arith

pub data Room (b : EvidenceBuffer) : Type 0 where
  room : length b.entries < b.capacity → Room b
  crowded :
      (x : ActionEvidence) (rest : List ActionEvidence)
      → b.entries ≡ x ∷ rest
      → b.capacity ≤ length b.entries
      → Room b

pub Room-or_crowded : (b : EvidenceBuffer) → 0 < b.capacity → Room b
Room-or_crowded b pos = elim (Bool-cases (ltb (length b.entries) b.capacity)) [
  | inl h ↦ room (ltb→lt _ _ h)
  | inr h ↦ elim (List-cases b.entries) [
    | inl e ↦ absurd (ground (arith, ap length e))
    | inr (x, rest, e) ↦ crowded x rest e (ground arith)
  ]
]
