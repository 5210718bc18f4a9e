-- ===== src/Recorder/Buffer.antt =====
-- crates/proxy-wasm-evidence/src/recorder.rs: `EvidenceBuffer`. `usize` sizes stay far below the
-- range of the counter, a `u64` that wraps in a release build.
mod Push
mod UnitTests
pub mod History
pub mod Newest
use wasmagent_proxy.Base.{
  ℕ, zero, suc, ◌+◌, ◌%◌, ◌^◌, ◌≡◌, Bool, true, false, Option, none, some, List, [], ◌∷◌, ◌++◌,
  codes, Result, ok, panic, ◌>>=◌, leb, ltb, ◌==◌, length, if◌then◌else◌,
}
use wasmagent_proxy.Evidence.{ActionEvidence}

abbrev pub default_evidence_buffer_capacity : ℕ
default_evidence_buffer_capacity = 1024

pub record EvidenceBuffer : Type 0 where
  pub entries : List ActionEvidence
  pub capacity : ℕ
  pub dropped_total : ℕ

-- `VecDeque::with_capacity`, which panics when the bytes of the entries are more than `isize::MAX`:
-- `most` is the number of entries of the target's layout that are not, some ten million on wasm32.
-- An allocator without memory for fewer aborts; that is left out.
unfoldable pub with_capacity : ℕ → ℕ → Result (List ActionEvidence)
with_capacity most capacity = if leb capacity most then ok [] else panic (codes "capacity overflow")

-- `EvidenceBuffer::new`
unfoldable pub new : ℕ → ℕ → Result EvidenceBuffer
unfolding with_capacity
new most capacity =
    if ltb 0 capacity
    then (with_capacity most capacity >>= λ entries.
        ok (record { entries = entries; capacity = capacity; dropped_total = 0 }))
    else panic (codes "EvidenceBuffer capacity must be > 0")

-- `EvidenceBuffer::with_defaults` and `impl Default`
unfoldable pub with_defaults : ℕ → Result EvidenceBuffer
unfolding new
with_defaults most = new most default_evidence_buffer_capacity

-- `VecDeque::pop_front`
abbrev pub pop_front : List ActionEvidence → Option ActionEvidence × List ActionEvidence
pop_front [] = (none, [])
pop_front (e ∷ entries) = (some e, entries)

abbrev pub is_some : Option ActionEvidence → Bool
is_some none = false
is_some (some _) = true

-- `EvidenceBuffer::push`
unfoldable pub push : EvidenceBuffer → ActionEvidence → EvidenceBuffer × Option ActionEvidence
push b evidence =
    let (evicted, kept) =
      if leb b.capacity (length b.entries) then pop_front b.entries else (none, b.entries) in
    (
      record b {
        entries = kept ++ evidence ∷ [];
        dropped_total = if is_some evicted then (b.dropped_total + 1) % 2 ^ 64 else b.dropped_total;
      },
      evicted,
    )

-- `EvidenceBuffer::len`
abbrev pub len : EvidenceBuffer → ℕ
len b = length b.entries

-- `EvidenceBuffer::is_empty`
abbrev pub is_empty : EvidenceBuffer → Bool
is_empty b = len b == 0

-- `EvidenceBuffer::drain`
unfoldable pub drain : EvidenceBuffer → EvidenceBuffer × List ActionEvidence
drain b = (record b { entries = [] }, b.entries)
