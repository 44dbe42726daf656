-- ===== src/Metrics/Laws.antt =====
-- What the metrics say of the messages that a pool holds.
use plasmite.Prelude.{
  ℕ, ◌+◌, ◌<◌, ◌≡◌, ◌⊎◌, sym, inl, inr, arith, List, [], ◌∷◌, length, ap, ◌==◌, true, false,
}
use plasmite.Buffer.{Buffer}
use plasmite.Header.{PoolHeader}
use plasmite.Cursor.{FrameRef}
use plasmite.Plan.{start_space}
use plasmite.Plan.Holds.{Holds}
use plasmite.Pool.{bounds_from_header, used_ring_bytes}
use plasmite.Pool.Contents.{Contents}
use plasmite.Metrics.{message_count_of}
use plasmite.Ring.{Numbered, size, Gap}

Numbered-length :
    (first next : ℕ) (es : List FrameRef) → Numbered first next es → next ≡ first + length es
Numbered-length first next [] h = omega arith
Numbered-length first next (e ∷ es) (_, h) = omega (arith, Numbered-length (first + 1) next es h)

module _ (m : Buffer) (h : PoolHeader) (es : List FrameRef) (c : Contents m h es) where
  -- The sequence numbers of the header count the messages.
  counted :
      ((h.oldest_seq ≡ 0) × (es ≡ []))
      ⊎ ((0 < h.oldest_seq) × (h.newest_seq + 1 ≡ h.oldest_seq + length es))
  counted = by_holds c.holds
    where
      by_holds :
          Holds m.byte h.ring_offset h.ring_size h.head_off (h.newest_seq + 1) (start_space h) es
          → ((h.oldest_seq ≡ 0) × (es ≡ []))
            ⊎ ((0 < h.oldest_seq) × (h.newest_seq + 1 ≡ h.oldest_seq + length es))
      by_holds (inl empty) = inl (empty.oldest_zero, empty.no_messages)
      by_holds (inr (inl one)) =
          inr (one.live, Numbered-length h.oldest_seq (h.newest_seq + 1) es one.numbered)
      by_holds (inr (inr (before, two))) =
          inr (two.live, Numbered-length h.oldest_seq (h.newest_seq + 1) es two.numbered)

-- The message count in the metrics of a sound pool is the number of messages that it holds.
pub message_count_lem :
    (m : Buffer) (h : PoolHeader) (es : List FrameRef)
    → Contents m h es
    → message_count_of (bounds_from_header h).oldest_seq (bounds_from_header h).newest_seq
      ≡ length es
unfolding message_count_of bounds_from_header
message_count_lem m h es c = elim (counted m h es c) [
  | inl (zero_oldest, nothing) ↦ rw (empty zero_oldest) (ap length (sym nothing))
  | inr (live, count) ↦
      rw (some_there live) (omega (arith, count, c.encodable.newest_seq_fits, c.valid.seqs_ordered))
]
  where
    empty : h.oldest_seq ≡ 0 → (h.oldest_seq == 0) ≡ true
    empty e = ground arith

    some_there : 0 < h.oldest_seq → (h.oldest_seq == 0) ≡ false
    some_there e = ground arith

-- The bytes that the frames of the messages take up.
abbrev pub stored : List FrameRef → ℕ
stored [] = 0
stored (e ∷ es) = size e + stored es

-- What is used besides the frames: nothing, or the end of the ring where the messages go on at its start.
abbrev pub Lost : (ℕ → ℕ) → ℕ → ℕ → ℕ → Type 0
Lost f ring_offset ring_size lost =
    (lost ≡ 0) ⊎ ((stop : ℕ) × Gap f ring_offset ring_size stop × (stop + lost ≡ ring_size))

module _ (m : Buffer) (h : PoolHeader) (es : List FrameRef) (c : Contents m h es) where
  abbrev pub Used : Type 0
  Used =
      (lost : ℕ) × (used_ring_bytes h ≡ stored es + lost)
      × Lost m.byte h.ring_offset h.ring_size lost
