-- ===== src/Pool/Absent.antt =====
-- `get` of a sequence number that no message of the pool has.
use plasmite.Prelude.{ℕ, ◌+◌, ◌≤◌, ◌<◌, ◌≡◌, ◌≢◌, ◌⊎◌, inl, inr, arith, List, [], ◌∷◌}
use plasmite.Error.{err}
use plasmite.Header.{PoolHeader}
use plasmite.Cursor.{FrameRef}
use plasmite.Plan.{start_space}
use plasmite.Plan.Holds.{Holds}
use plasmite.Pool.{Pool, get, not_found}
use plasmite.Pool.Contents.{Contents}
use plasmite.Pool.Append.{header_from_mmap-ok}
use plasmite.Ring.{Numbered}
use mathlib.Core.List.{Mem, mem-cons_self, mem-cons_of_mem}
use native.Mathlib.Decide.{dec_lt}

-- A number from the first to below the next one is the number of a message.
Numbered-Mem :
    (first next : ℕ) (es : List FrameRef) (seq : ℕ)
    → Numbered first next es
    → first ≤ seq
    → seq < next
    → (e : FrameRef) × Mem e es × (e.seq ≡ seq)
Numbered-Mem first next [] seq numbered low high = absurd (omega arith)
Numbered-Mem first next (e ∷ es) seq (head_seq, rest) low high = elim (dec_lt first seq) [
  | no same ↦ (e, mem-cons_self, omega arith)
  | yes later ↦
      let (e', among, seq_eq) = Numbered-Mem (first + 1) next es seq rest (omega arith) high in
      (e', mem-cons_of_mem e among, seq_eq)
]

Holds-Numbered :
    (f : ℕ → ℕ) (h : PoolHeader) (next : ℕ) (es : List FrameRef)
    → Holds f h.ring_offset h.ring_size h.head_off next (start_space h) es
    → (h.oldest_seq ≡ 0) ⊎ Numbered h.oldest_seq next es
Holds-Numbered f h next es (inl empty) = inl empty.oldest_zero
Holds-Numbered f h next es (inr (inl one)) = inr one.numbered
Holds-Numbered f h next es (inr (inr (before, two))) = inr two.numbered

-- On a sound pool, `get` of a sequence number that none of its messages has answers that the
-- message is not found, with that number.
pub get-absent :
    (p : Pool) (h : PoolHeader) (es : List FrameRef) (seq : ℕ)
    → Contents p.mmap h es
    → ((e : FrameRef) → Mem e es → e.seq ≢ seq)
    → get p seq ≡ err (not_found seq)
unfolding get
get-absent p h es seq c absent = rw (header_from_mmap-ok p.mmap h es c) (ground (arith, outside))
  where
    outside : (h.oldest_seq ≡ 0) ⊎ (seq < h.oldest_seq) ⊎ (h.newest_seq < seq)
    outside = elim (Holds-Numbered p.mmap.byte h (h.newest_seq + 1) es c.holds) [
      | inl none_left ↦ inl none_left
      | inr numbered ↦ elim (dec_lt seq h.oldest_seq) [
        | yes below ↦ inr (inl below)
        | no at_least ↦ elim (dec_lt h.newest_seq seq) [
          | yes above ↦ inr (inr above)
          | no at_most ↦
              let (e, among, seq_eq) =
                Numbered-Mem h.oldest_seq (h.newest_seq + 1) es seq numbered (omega arith)
                  (omega arith) in
              absurd (absent e among seq_eq)
        ]
      ]
    ]
