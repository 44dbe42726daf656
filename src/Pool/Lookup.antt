-- ===== src/Pool/Lookup.antt =====
-- `get` finds a message by its index slot, and so the message that was appended last.
use plasmite.Prelude.{
  ℕ, ◌+◌, ◌*◌, ◌%◌, ◌≤◌, ◌<◌, ◌≡◌, arith, List, [], ◌∷◌, ◌++◌, some, IsU64, ltb, leb, ◌==◌,
  add_u64_exact, ◌||◌, true, false,
}
use plasmite.Error.{Result, ok}
use plasmite.Buffer.{Buffer, from_le_bytes}
use plasmite.Buffer.Laws.{read_u64-ok, length-to_list}
use plasmite.Frame.Size.{frame_size}
use plasmite.Header.{PoolHeader}
use plasmite.Cursor.{FrameRef}
use plasmite.Pool.{Pool, get, get_via_index}
use plasmite.Pool.Slot.{slot_of, slot_inside}
use plasmite.Pool.Contents.{Contents}
use plasmite.Frame.{max_payload_abs}
use plasmite.Pool.{AppendOptions, append_with_options}
use plasmite.Pool.Append.{header_from_mmap-ok}
use plasmite.Pool.Refine.{message_of, message_of-IsMessage, append_lem}
use plasmite.Ring.{size, IsMessage, FrameAt}
use plasmite.Ring.Read.{read_frame_at-message}

module _ (m : Buffer) (h : PoolHeader) (es : List FrameRef) (c : Contents m h es) (e : FrameRef)
    (off : ℕ) (v : IsMessage h.ring_size e) (fits : off + size e ≤ h.ring_size)
    (at : FrameAt m.byte (h.ring_offset + off) e) (some_slots : 0 < h.index_capacity)
    (seq_at : from_le_bytes m.byte (slot_of h.index_offset h.index_capacity e.seq) 8 ≡ e.seq)
    (offset_at : from_le_bytes m.byte (slot_of h.index_offset h.index_capacity e.seq + 8) 8
      ≡ off) where
  inside : slot_of h.index_offset h.index_capacity e.seq + 16 ≤ m.len
  inside = omega (
    arith,
    slot_inside h.index_offset h.index_capacity e.seq some_slots,
    c.valid.index_starts,
    c.valid.ring_starts,
    c.valid.ring_ends,
  )

  get_via_index-slot : get_via_index m h e.seq ≡ ok (some e)
  unfolding get_via_index
  get_via_index-slot =
      let slot = slot_of h.index_offset h.index_capacity e.seq in
      rw (
        some_capacity,
        add_u64_exact h.index_offset (e.seq % h.index_capacity * 16)
            (omega (arith, inside, c.sized)),
        add_u64_exact slot 16 (omega (arith, inside, c.sized)),
        in_map,
        read_u64-ok m slot c.sized (omega (arith, inside)),
        seq_at,
        add_u64_exact slot 8 (omega (arith, inside, c.sized)),
        read_u64-ok m (slot + 8) c.sized (omega (arith, inside)),
        offset_at,
        same e.seq,
        in_ring,
        read_frame_at-message m h.ring_offset h.ring_size c.sized (omega (arith, c.valid.ring_ends))
            off e v fits at,
        same e.seq,
      )
    where
      some_capacity : (h.index_capacity == 0) ≡ false
      some_capacity = ground arith

      in_map : ltb m.len (slot_of h.index_offset h.index_capacity e.seq + 16) ≡ false
      in_map = ground (arith, inside)

      same : (n : ℕ) → (n == n) ≡ true
      same n = ground arith

      in_ring : leb h.ring_size off ≡ false
      in_ring = ground arith

  pub get-slot :
      0 < h.oldest_seq
      → h.oldest_seq ≤ e.seq
      → e.seq ≤ h.newest_seq
      → (header : PoolHeader) → get (record { mmap = m; header = header }) e.seq ≡ ok e
  unfolding get
  get-slot live old new header =
      rw (header_from_mmap-ok m h es c, some_oldest, in_bounds, get_via_index-slot)
    where
      some_oldest : (h.oldest_seq == 0) ≡ false
      some_oldest = ground arith

      in_bounds : (ltb e.seq h.oldest_seq || ltb h.newest_seq e.seq) ≡ false
      in_bounds = ground arith

-- After an append to a sound pool with an index, `get` of the new sequence number finds the message
-- that was appended.
pub get-append :
    (flush_range : ℕ → ℕ → Result (Unit {0})) (p : Pool) (h : PoolHeader) (es : List FrameRef)
    (payload : Buffer) (options : AppendOptions)
    → Contents p.mmap h es
    → payload.len ≤ max_payload_abs
    → frame_size payload.len ≤ h.ring_size
    → IsU64 options.timestamp_ns
    → IsU64 (h.newest_seq + 1)
    → 0 < h.index_capacity
    → (p' : Pool) × (answer : Result ℕ) × (append_with_options (ok tt) flush_range p payload options
        ≡ ok (p', answer))
      × (get p' (h.newest_seq + 1) ≡ ok (message_of h payload options))
get-append flush_range p h es payload options c small fits time_u64 seq_u64 some_slots =
    let e = message_of h payload options in
    let a = append_lem flush_range p h es payload options c small fits time_u64 seq_u64 in
    (
      a.pool,
      _,
      a.appends,
      get-slot a.pool.mmap a.pool.header (a.left ++ (e ∷ [])) a.contents e a.place
          (rw a.same_ring.1 (message_of-IsMessage h payload options small fits time_u64 seq_u64))
          (omega (arith, a.same_ring.1, a.inside, length-to_list payload))
          (rw a.same_ring.0 a.frame_at) (omega (arith, a.same_index.1))
          (rw (a.same_index.0, a.same_index.1) (a.slot_at some_slots).0)
          (rw (a.same_index.0, a.same_index.1) (a.slot_at some_slots).1) a.live
          (omega (arith, a.contents.valid.seqs_ordered, a.live, a.newest)) (omega (arith, a.newest))
          a.pool.header,
    )
