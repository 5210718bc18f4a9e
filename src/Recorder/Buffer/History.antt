-- ===== src/Recorder/Buffer/History.antt =====
-- crates/proxy-wasm-evidence/src/recorder.rs: the buffer over a history of its operations.
use native.Mathlib.Nat.{add-zero}
use wasmagent_proxy.Base.{
  subst, ℕ, ◌+◌, ◌%◌, ◌^◌, ◌≤◌, ◌<◌, ◌≡◌, refl, sym, ap, ◌∙◌, Option, none, some, List, [], ◌∷◌,
  ◌++◌, append_assoc, append-nil, ok, arith, length, length-append, inl, inr, Bool-cases, ltb→lt,
  ltb,
}
use wasmagent_proxy.Evidence.{ActionEvidence}
use wasmagent_proxy.Recorder.Buffer.{EvidenceBuffer, new, push, drain}
use wasmagent_proxy.Recorder.Buffer.Push.{push_room, push_full, room, crowded, Room-or_crowded}

-- What an owner of a buffer does with it.
pub data Operation : Type 0 where
  record_entry : ActionEvidence → Operation
  drain_all : Operation

-- A buffer with the entries that have left it, oldest first, and the number of them it evicted.
pub record Ledger : Type 0 where
  pub buffer : EvidenceBuffer
  pub gone : List ActionEvidence
  pub evictions : ℕ

abbrev pub to_list : Option ActionEvidence → List ActionEvidence
to_list none = []
to_list (some e) = e ∷ []

unfoldable pub step : Ledger → Operation → Ledger
step l (record_entry e) =
    let (b, evicted) = push l.buffer e in
    record {
      buffer = b;
      gone = l.gone ++ to_list evicted;
      evictions = l.evictions + length (to_list evicted);
    }
step l drain_all =
    let (b, out) = drain l.buffer in
    record { buffer = b; gone = l.gone ++ out; evictions = l.evictions }

unfoldable pub steps : Ledger → List Operation → Ledger
steps l [] = l
steps l (o ∷ os) = steps (step l o) os

-- The entries that the operations push, in order.
abbrev pub pushed : List Operation → List ActionEvidence
pushed [] = []
pushed (record_entry e ∷ os) = e ∷ pushed os
pushed (drain_all ∷ os) = pushed os

abbrev pub open_ledger : EvidenceBuffer → Ledger
open_ledger b = record { buffer = b; gone = []; evictions = 0 }

pub record Accounts (capacity : ℕ) (history : List ActionEvidence) (l : Ledger) : Type 0 where
  pub order : l.gone ++ l.buffer.entries ≡ history
  pub room : length l.buffer.entries ≤ capacity
  pub bound : l.buffer.capacity ≡ capacity
  pub positive : 0 < capacity
  pub count : l.buffer.dropped_total ≡ l.evictions % 2 ^ 64

module _ (c : ℕ) (history : List ActionEvidence) (l : Ledger) (a : Accounts c history l) where
  record_room :
      (e : ActionEvidence)
      → length l.buffer.entries < l.buffer.capacity
      → Accounts c (history ++ e ∷ []) (step l (record_entry e))
  unfolding step
  record_room e h =
      rw (push_room l.buffer e h, append-nil)
        (record {
          order =
              sym (append_assoc l.gone l.buffer.entries (e ∷ [])) ∙ ap (λ t. t ++ e ∷ []) a.order;
          room = omega (arith, length-append l.buffer.entries (e ∷ []), a.bound);
          bound = a.bound;
          positive = a.positive;
          count = rw add-zero a.count;
        })

  record_crowded :
      (e x : ActionEvidence) (rest : List ActionEvidence)
      → l.buffer.entries ≡ x ∷ rest
      → l.buffer.capacity ≤ length l.buffer.entries
      → Accounts c (history ++ e ∷ []) (step l (record_entry e))
  unfolding step
  record_crowded e x rest h crowd = rw (push_full l.buffer e x rest h crowd) (record {
    order =
        append_assoc l.gone (x ∷ []) (rest ++ e ∷ [])
        ∙ sym (append_assoc l.gone (x ∷ rest) (e ∷ []))
        ∙ ap (λ t. t ++ e ∷ []) (ap (λ t. l.gone ++ t) (sym h) ∙ a.order);
    room = omega (arith, length-append rest (e ∷ []), ap length h, a.room);
    bound = a.bound;
    positive = a.positive;
    count = omega (arith, a.count);
  })

  record-Accounts : (e : ActionEvidence) → Accounts c (history ++ e ∷ []) (step l (record_entry e))
  record-Accounts e = elim (Room-or_crowded l.buffer (omega (arith, a.positive, a.bound))) [
    | room h ↦ record_room e h
    | crowded x rest h crowd ↦ record_crowded e x rest h crowd
  ]

  drain-Accounts : Accounts c history (step l drain_all)
  unfolding step drain
  drain-Accounts = record {
    order = append-nil (l.gone ++ l.buffer.entries) ∙ a.order;
    room = omega arith;
    bound = a.bound;
    positive = a.positive;
    count = a.count;
  }

steps-Accounts :
    (c : ℕ) (history : List ActionEvidence) (l : Ledger) (os : List Operation)
    → Accounts c history l
    → Accounts c (history ++ pushed os) (steps l os)
unfolding steps
steps-Accounts c history l [] a = rw append-nil a
steps-Accounts c history l (record_entry e ∷ os) a =
    let ih =
      steps-Accounts c (history ++ e ∷ []) (step l (record_entry e)) os
        (record-Accounts c history l a e) in
    subst (λ t. Accounts c t (steps (step l (record_entry e)) os))
      (append_assoc history (e ∷ []) (pushed os)) ih
steps-Accounts c history l (drain_all ∷ os) a =
    steps-Accounts c history (step l drain_all) os (drain-Accounts c history l a)

abbrev pub empty_buffer : ℕ → EvidenceBuffer
empty_buffer c = record { entries = []; capacity = c; dropped_total = 0 }

pub new-Accounts :
    (most c : ℕ) (b : EvidenceBuffer) → new most c ≡ ok b → Accounts c [] (open_ledger b)
unfolding new
new-Accounts most c b h = elim (Bool-cases (ltb 0 c)) [
  | inl pos ↦
      let e : empty_buffer c ≡ b = ground arith in
      subst (λ b. Accounts c [] (open_ledger b)) e
        (record {
          order = refl;
          room = omega arith;
          bound = refl;
          positive = ltb→lt 0 c pos;
          count = refl;
        })
  | inr refused ↦ ground arith
]

-- Whatever pushes and drains a new buffer goes through, the entries that left it, followed by those
-- that it holds, are the pushed entries in their order; it holds at most its capacity; and its drop
-- counter is the number of evictions, modulo the range of `u64`.
pub buffer_accounts :
    (most c : ℕ) (b : EvidenceBuffer) (os : List Operation)
    → new most c ≡ ok b
    → ((steps (open_ledger b) os).gone ++ (steps (open_ledger b) os).buffer.entries ≡ pushed os)
      × (length (steps (open_ledger b) os).buffer.entries ≤ c)
      × ((steps (open_ledger b) os).buffer.dropped_total
          ≡ (steps (open_ledger b) os).evictions % 2 ^ 64)
buffer_accounts most c b os h =
    let a = steps-Accounts c [] (open_ledger b) os (new-Accounts most c b h) in
    (a.order, a.room, a.count)
