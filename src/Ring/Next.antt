-- ===== src/Ring/Next.antt =====
-- `Cursor::next` on arbitrary bytes behind a valid header.
use plasmite.Prelude.{
  ℕ, suc, ◌^◌, ◌<◌, ◌≡◌, ◌⊎◌, inl, inr, refl, arith, leb, ◌==◌, ◌||◌, ◌&&◌, not, true, false, Bool,
  if◌then◌else◌,
}
use plasmite.Error.{Result, ok}
use plasmite.Buffer.{Buffer}
use plasmite.Header.{PoolHeader}
use plasmite.Header.Layout.{IsPoolHeader}
use plasmite.Cursor
use plasmite.Cursor.{
  CursorResult, ReadResult, read_frame_at, header_from_mmap, next_loop, next, offset_in_range,
  seek_to,
}
use plasmite.Ring.Total.{read_frame_at-total}

module _ (m : Buffer) (h : PoolHeader) (sized : m.len < 2 ^ 63) (valid : IsPoolHeader h m.len) where
  -- The call comes back.
  abbrev pub Answers : Result (Cursor.Cursor × CursorResult) → Type 0
  Answers x = (c' : Cursor.Cursor) × (r : CursorResult) × (x ≡ ok (c', r))

  abbrev pub WrapAtStart : Type 0
  WrapAtStart = read_frame_at m h.ring_offset h.ring_size 0 ≡ ok ReadResult.wrap

  if-Answers :
      (b : Bool) {x y : Result (Cursor.Cursor × CursorResult)}
      → (b ≡ true → Answers x ⊎ WrapAtStart)
      → (b ≡ false → Answers y ⊎ WrapAtStart)
      → Answers (if b then x else y) ⊎ WrapAtStart
  if-Answers true then_ else_ = then_ refl
  if-Answers false then_ else_ = else_ refl

  next_loop-Answers :
      (rounds : ℕ) (c : Cursor.Cursor)
      → c.next_off < h.ring_size
      → (read_frame_at m h.ring_offset h.ring_size c.next_off ≡ ok ReadResult.wrap
          → Answers (next_loop rounds m h (record c { next_off = 0 })) ⊎ WrapAtStart)
      → Answers (next_loop (suc rounds) m h c) ⊎ WrapAtStart
  unfolding next_loop
  next_loop-Answers rounds c inside again =
      let (r, reads) =
        read_frame_at-total m h.ring_offset h.ring_size c.next_off sized
          (omega (arith, valid.ring_ends)) inside in
      by_result r reads
    where
      by_result :
          (r : ReadResult)
          → read_frame_at m h.ring_offset h.ring_size c.next_off ≡ ok r
          → Answers (next_loop (suc rounds) m h c) ⊎ WrapAtStart
      by_result (ReadResult.message frame next_off) reads = rw reads (inl (_, _, refl))
      by_result ReadResult.wrap reads = rw reads (again reads)
      by_result ReadResult.would_block reads = rw reads (inl (_, _, refl))
      by_result ReadResult.fell_behind reads = rw reads (inl (_, _, refl))

  two_rounds :
      (c : Cursor.Cursor) → c.next_off < h.ring_size → Answers (next_loop 2 m h c) ⊎ WrapAtStart
  two_rounds c inside =
      next_loop-Answers 1 c inside
        (λ _. next_loop-Answers 0 (record c { next_off = 0 }) valid.ring_nonempty inr)

-- With a valid header in a map of less than 2 ^ 63 bytes, `next` answers from every cursor, whatever
-- bytes the ring has, unless a wrap marker stands at offset 0 of the ring.
pub next-total :
    (m : Buffer) (h : PoolHeader)
    → m.len < 2 ^ 63
    → IsPoolHeader h m.len
    → header_from_mmap m ≡ ok h
    → (c : Cursor.Cursor)
    → ((c' : Cursor.Cursor) × (r : CursorResult) × (next m c ≡ ok (c', r)))
      ⊎ (read_frame_at m h.ring_offset h.ring_size 0 ≡ ok ReadResult.wrap)
unfolding next
next-total m h sized valid has_header c = rw has_header (
    if-Answers m h sized valid (h.oldest_seq == 0) answers λ live.
      if-Answers m h sized valid (not (c.last_seq == 0) && leb h.newest_seq c.last_seq) answers λ _.
        if-Answers m h sized valid (h.ring_size == 0)
          (λ no_ring. absurd (ground (arith, no_ring, valid.ring_nonempty)))
          λ _.
            if-Answers m h sized valid
              (not (h.head_off == h.tail_off && not (h.oldest_seq == 0))
                && c.next_off == h.head_off)
              answers
              λ _.
                if-Answers m h sized valid
                  (leb h.ring_size c.next_off
                    || not
                        (offset_in_range c.next_off h.tail_off h.head_off h.ring_size h.oldest_seq))
                  answers λ inside. two_rounds m h sized valid c (ground (arith, inside)))
  where
    answers :
        {b : Bool} {c' : Cursor.Cursor} {r : CursorResult}
        → b ≡ true
        → Answers m h sized valid (ok (c', r)) ⊎ WrapAtStart m h sized valid
    answers _ = inl (_, _, refl)
