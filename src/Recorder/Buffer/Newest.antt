-- ===== src/Recorder/Buffer/Newest.antt =====
-- crates/proxy-wasm-evidence/src/recorder.rs: pushes without a drain.
use wasmagent_proxy.Base.{
  ℕ, ◌+◌, ◌-◌, ◌%◌, ◌^◌, ◌≤◌, ◌<◌, ◌≡◌, refl, sym, ap, ◌∙◌, List, [], ◌∷◌, ◌++◌, append-nil, ok,
  arith, length, length-append, drop, drop-length-append,
}
use wasmagent_proxy.Evidence.{ActionEvidence}
use wasmagent_proxy.Recorder.Buffer.{EvidenceBuffer, new}
use wasmagent_proxy.Recorder.Buffer.Push.{push_room, push_full, room, crowded, Room-or_crowded}
use wasmagent_proxy.Recorder.Buffer.History.{
  Operation, record_entry, Ledger, step, steps, pushed, open_ledger, new-Accounts, buffer_accounts,
}

-- The pushes of a run without a drain.
abbrev pub pushes : List ActionEvidence → List Operation
pushes [] = []
pushes (e ∷ es) = record_entry e ∷ pushes es

pushed-pushes : (es : List ActionEvidence) → pushed (pushes es) ≡ es
pushed-pushes [] = refl
pushed-pushes (e ∷ es) = ap (λ t. e ∷ t) (pushed-pushes es)

-- Without a drain only evictions leave, and only a full buffer evicts.
record Undrained (c : ℕ) (l : Ledger) : Type 0 where
  left : length l.gone ≡ l.evictions
  filled : 0 < l.evictions → length l.buffer.entries ≡ c
  bound : l.buffer.capacity ≡ c
  within : length l.buffer.entries ≤ c
  positive : 0 < c

record-Undrained :
    (c : ℕ) (l : Ledger) (e : ActionEvidence)
    → Undrained c l
    → Undrained c (step l (record_entry e))
unfolding step
record-Undrained c l e a = elim (Room-or_crowded l.buffer (omega (arith, a.positive, a.bound))) [
  | room h ↦
      rw (push_room l.buffer e h, append-nil)
        (record {
          left = omega (arith, a.left);
          filled = λ some_left. omega (arith, a.filled (omega arith), a.bound);
          bound = a.bound;
          within = omega (arith, length-append l.buffer.entries (e ∷ []), a.bound);
          positive = a.positive;
        })
  | crowded x rest h crowd ↦ rw (push_full l.buffer e x rest h crowd) (record {
    left = omega (arith, length-append l.gone (x ∷ []), a.left);
    filled =
        λ some_left. omega (arith, length-append rest (e ∷ []), ap length h, a.bound, a.within);
    bound = a.bound;
    within = omega (arith, length-append rest (e ∷ []), ap length h, a.within);
    positive = a.positive;
  })
]

pushes-Undrained :
    (c : ℕ) (l : Ledger) (es : List ActionEvidence)
    → Undrained c l
    → Undrained c (steps l (pushes es))
unfolding steps
pushes-Undrained c l [] a = a
pushes-Undrained c l (e ∷ es) a =
    pushes-Undrained c (step l (record_entry e)) es (record-Undrained c l e a)

new-Undrained : (most c : ℕ) (b : EvidenceBuffer) → new most c ≡ ok b → Undrained c (open_ledger b)
new-Undrained most c b h =
    let a = new-Accounts most c b h in
    record {
      left = refl;
      filled = λ some_left. absurd (omega arith);
      bound = a.bound;
      within = a.room;
      positive = a.positive;
    }

-- Pushes alone leave the newest entries in a new buffer, as many as fit, and the drop counter shows
-- how many are missing, modulo the range of `u64`.
pub buffer_keeps_newest :
    (most c : ℕ) (b : EvidenceBuffer) (es : List ActionEvidence)
    → new most c ≡ ok b
    → ((steps (open_ledger b) (pushes es)).buffer.entries ≡ drop (length es - c) es)
      × ((steps (open_ledger b) (pushes es)).buffer.dropped_total ≡ (length es - c) % 2 ^ 64)
buffer_keeps_newest most c b es h =
    let l = steps (open_ledger b) (pushes es) in
    let (order, within, count) = buffer_accounts most c b (pushes es) h in
    let whole : l.gone ++ l.buffer.entries ≡ es = order ∙ pushed-pushes es in
    let u = pushes-Undrained c (open_ledger b) es (new-Undrained most c b h) in
    let sizes : length l.gone + length l.buffer.entries ≡ length es =
      sym (length-append l.gone l.buffer.entries) ∙ ap length whole in
    let missing : length es - c ≡ length l.gone = grind (arith, u.filled, u.left, sizes) in
    (
      rw missing
          (sym (drop-length-append l.gone l.buffer.entries) ∙ ap (drop (length l.gone)) whole),
      rw missing (rw u.left count),
    )
