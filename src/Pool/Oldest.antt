-- ===== src/Pool/Oldest.antt =====
-- A cursor that stands at the tail of a sound pool: what `Cursor::next` answers.
use plasmite.Prelude.{
  ℕ, suc, ◌+◌, ◌≤◌, ◌<◌, ◌≡◌, ◌⊎◌, ◌∙◌, sym, inl, inr, arith, List, [], ◌∷◌, ◌++◌, subst, IsU64,
  ltb, leb, ◌==◌, not, ◌&&◌, ◌||◌, add_u64, true, false,
}
use plasmite.Error.{ok}
use plasmite.Buffer.{Buffer}
use plasmite.Frame.Codec.{HeaderAt}
use plasmite.Header.{PoolHeader}
use plasmite.Cursor
use plasmite.Cursor.{
  FrameRef, CursorResult, ReadResult, read_frame_at, next, next_loop, seek_to, offset_in_range,
  wrap_offset,
}
use plasmite.Plan.{start_space}
use plasmite.Plan.Holds.{Holds}
use plasmite.Pool.Contents.{Contents}
use plasmite.Pool.Append.{header_from_mmap-ok}
use plasmite.Ring.{size, wrap_header, IsMessage, FrameAt, Gap, Run}
use plasmite.Ring.Run.{Run-le}
use plasmite.Ring.Read.{read_frame_at-message, read_frame_at-wrap}
use native.Mathlib.Decide.{dec_le}

module _ (m : Buffer) (h : PoolHeader) (es : List FrameRef) (c : Contents m h es)
    (roomy : IsU64 (m.len + 64)) where
  sizes : h.ring_offset + h.ring_size ≤ m.len
  sizes = omega (arith, c.valid.ring_ends)

  -- The checks of `next` let a cursor at the tail through.
  next-tail :
      (k : Cursor.Cursor)
      → 0 < h.oldest_seq
      → next m (seek_to k h.tail_off) ≡ next_loop 2 m h (seek_to k h.tail_off)
  unfolding next
  next-tail k live =
      rw (header_from_mmap-ok m h es c, some_oldest, some_ring, not_blocked, in_range)
    where
      some_oldest : (h.oldest_seq == 0) ≡ false
      some_oldest = ground arith

      some_ring : (h.ring_size == 0) ≡ false
      some_ring = ground (arith, c.valid.ring_nonempty)

      not_blocked : (not (h.head_off == h.tail_off && true) && h.tail_off == h.head_off) ≡ false
      not_blocked = ground arith

      in_range :
          (leb h.ring_size h.tail_off
            || not (offset_in_range h.tail_off h.tail_off h.head_off h.ring_size h.oldest_seq))
          ≡ false
      in_range = unfold offset_in_range in ground (arith, c.valid.tail_in)

  next_loop-message :
      (rounds : ℕ) (k : Cursor.Cursor) (e : FrameRef)
      → IsMessage h.ring_size e
      → k.next_off + size e ≤ h.ring_size
      → FrameAt m.byte (h.ring_offset + k.next_off) e
      → next_loop (suc rounds) m h k
        ≡ ok (
          record { next_off = wrap_offset (k.next_off + size e) h.ring_size; last_seq = e.seq },
          CursorResult.message e,
        )
  unfolding next_loop
  next_loop-message rounds k e v fits at =
      rw (read_frame_at-message m h.ring_offset h.ring_size c.sized sizes k.next_off e v fits at)

  next_loop-wrap :
      (rounds : ℕ) (k : Cursor.Cursor)
      → k.next_off + 64 ≤ h.ring_size
      → HeaderAt m.byte (h.ring_offset + k.next_off) wrap_header
      → next_loop (suc rounds) m h k ≡ next_loop rounds m h (record k { next_off = 0 })
  unfolding next_loop
  next_loop-wrap rounds k fits at =
      rw (read_frame_at-wrap m h.ring_offset h.ring_size c.sized sizes k.next_off fits at)

  next_loop-padding :
      (rounds : ℕ) (k : Cursor.Cursor)
      → h.ring_size < k.next_off + 64
      → k.next_off < h.ring_size
      → next_loop (suc rounds) m h k ≡ ok (seek_to k h.tail_off, CursorResult.fell_behind)
  unfolding next_loop read_frame_at
  next_loop-padding rounds k short inside = rw outside
    where
      outside :
          ltb (add_u64 h.ring_offset h.ring_size) (add_u64 (add_u64 h.ring_offset k.next_off) 64)
          ≡ true
      outside = ground (arith, sizes, c.sized)

  abbrev FromTail : Cursor.Cursor → FrameRef → Type 0
  FromTail k e =
      ((next_off : ℕ) × (next m (seek_to k h.tail_off)
          ≡ ok (record { next_off = next_off; last_seq = e.seq }, CursorResult.message e)))
      ⊎ ((h.ring_size < h.tail_off + 64)
          × (next m (seek_to k h.tail_off) ≡ ok (seek_to k h.tail_off, CursorResult.fell_behind)))

  from_frame :
      (k : Cursor.Cursor) (e : FrameRef)
      → 0 < h.oldest_seq
      → IsMessage h.ring_size e
      → h.tail_off + size e ≤ h.ring_size
      → FrameAt m.byte (h.ring_offset + h.tail_off) e
      → FromTail k e
  from_frame k e live v fits at =
      inl (_, next-tail k live ∙ next_loop-message 1 (seek_to k h.tail_off) e v fits at)

  from_Gap :
      (k : Cursor.Cursor) (e : FrameRef) (stop : ℕ) (after : List FrameRef)
      → 0 < h.oldest_seq
      → Gap m.byte h.ring_offset h.ring_size h.tail_off
      → Run m.byte h.ring_offset h.ring_size 0 stop (e ∷ after)
      → stop ≤ h.ring_size
      → FromTail k e
  from_Gap k e stop after live gap (v, at, rest) inside =
      elim (dec_le (h.tail_off + 64) h.ring_size) [
        | yes fits ↦ elim gap.1 [
          | inl short ↦ absurd (omega arith)
          | inr marker ↦ inl (
            _,
            next-tail k live
                ∙ next_loop-wrap 1 (seek_to k h.tail_off) fits marker
                ∙ next_loop-message 0 (record (seek_to k h.tail_off) { next_off = 0 }) e v
                    (omega
                      (arith, Run-le m.byte h.ring_offset h.ring_size (0 + size e) stop after rest))
                    at,
          )
        ]
        | no short ↦ inr (
          omega arith,
          next-tail k live
              ∙ next_loop-padding 1 (seek_to k h.tail_off) (omega arith) c.valid.tail_in,
        )
      ]

-- A cursor that stands at the tail of a sound pool which is not empty, in a map that ends 64 bytes
-- below 2 ^ 64: `next` gives the oldest message, or else the tail is less than 64 bytes before the end
-- of the ring, and `next` answers that the cursor fell behind and leaves it at the tail.
pub next_oldest :
    (m : Buffer) (h : PoolHeader) (e : FrameRef) (es : List FrameRef)
    → Contents m h (e ∷ es)
    → IsU64 (m.len + 64)
    → (k : Cursor.Cursor)
    → ((next_off : ℕ) × (next m (seek_to k h.tail_off)
          ≡ ok (record { next_off = next_off; last_seq = e.seq }, CursorResult.message e)))
      ⊎ ((h.ring_size < h.tail_off + 64)
          × (next m (seek_to k h.tail_off) ≡ ok (seek_to k h.tail_off, CursorResult.fell_behind)))
next_oldest m h e es c roomy k = by_holds c.holds
  where
    by_split :
        (before after : List FrameRef)
        → (e ∷ es) ≡ before ++ after
        → 0 < h.oldest_seq
        → (stop : ℕ) → Run m.byte h.ring_offset h.ring_size h.tail_off stop before
        → Gap m.byte h.ring_offset h.ring_size stop
        → Run m.byte h.ring_offset h.ring_size 0 h.head_off after
        → FromTail m h (e ∷ es) c roomy k e
    by_split [] after parts live stop run gap run_after =
        from_Gap m h (e ∷ es) c roomy k e h.head_off es live
          (subst (Gap m.byte h.ring_offset h.ring_size) (sym run) gap)
          (subst (Run m.byte h.ring_offset h.ring_size 0 h.head_off) (sym parts) run_after)
          (omega (arith, c.valid.head_in))
    by_split (e' ∷ before) after parts live stop (v, at, rest) gap run_after =
        subst (FromTail m h (e ∷ es) c roomy k) (grind (arith, parts)) (
          from_frame m h (e ∷ es) c roomy k e' live v
            (omega (
              arith,
              gap.0,
              Run-le m.byte h.ring_offset h.ring_size (h.tail_off + size e') stop before rest,
            ))
            at)

    by_holds :
        Holds m.byte h.ring_offset h.ring_size h.head_off
          (h.newest_seq + 1)
          (start_space h)
          (e ∷ es)
        → FromTail m h (e ∷ es) c roomy k e
    by_holds (inl empty) = absurd (grind (arith, empty.no_messages))
    by_holds (inr (inl one)) =
        let (v, at, rest) = one.straight.run in
        from_frame m h (e ∷ es) c roomy k e one.live v
          (omega (
            arith,
            one.straight.inside,
            Run-le m.byte h.ring_offset h.ring_size (h.tail_off + size e) one.straight.stop es rest,
          ))
          at
    by_holds (inr (inr (before, two))) =
        by_split before two.split.after two.split.parts two.live two.split.stop two.split.run_before
          two.split.gap two.split.run_after
