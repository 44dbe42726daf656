-- ===== src/Pool/Append/Flush.antt =====
-- What an append to a sound pool flushes, where its durability asks for that.
use plasmite.Prelude.{
  ℕ, ◌+◌, ◌≤◌, ◌≡◌, arith, List, refl, ap, Option, none, some, ◌==◌, if◌then◌else◌, true, add_u64,
}
use plasmite.Error.{Result, ok, ok_or, ErrorKind, ◌>>=◌, ◌>>◌}
use plasmite.Buffer.{Buffer, to_list}
use plasmite.Header.{PoolHeader, header_size}
use plasmite.Cursor.{FrameRef}
use plasmite.Plan.{frame_place, wrap_place, seq_after}
use plasmite.Plan.Place.{MarkerInside}
use plasmite.Frame.{frame_header_len}
use plasmite.Pool.{index_slot_range, flush_append}
use plasmite.Pool.Contents.{Contents}
use plasmite.Pool.Slot.{slot_of, index_slot_range-some}
use plasmite.Ring.{size, IsMessage}
use native.Mathlib.Decide.{dec_lt}
use plasmite.Pool.Append.{plans, plan, seq_after_is}

abbrev pub flush_marker : (ℕ → ℕ → Result (Unit {0})) → ℕ → Option ℕ → Result (Unit {0})
flush_marker flush_range ring_offset none = ok tt
flush_marker flush_range ring_offset (some at) = flush_range (ring_offset + at) 64

-- The flushes of an append to a pool with the header `h`.
abbrev pub flush_written : (ℕ → ℕ → Result (Unit {0})) → PoolHeader → ℕ → Result (Unit {0})
flush_written flush_range h frame_len = do
  flush_range (h.ring_offset + frame_place h frame_len) frame_len
  flush_marker flush_range h.ring_offset (wrap_place h frame_len)
  (if h.index_capacity == 0
      then ok tt
      else flush_range (slot_of h.index_offset h.index_capacity (h.newest_seq + 1)) 16)
  flush_range 0 header_size

flushes :
    (flush_from : ℕ → Result (Unit {0})) {start start' : ℕ}
    {marker marker' slot slot' : Result (Unit {0})}
    → start ≡ start'
    → marker ≡ marker'
    → slot ≡ slot'
    → (last : Result (Unit {0}))
    → (flush_from start >> (marker >> (slot >> last)))
      ≡ (flush_from start' >> (marker' >> (slot' >> last)))
flushes flush_from p q r last i = flush_from (p i) >> (q i >> (r i >> last))

module _ (m : Buffer) (h : PoolHeader) (es : List FrameRef) (c : Contents m h es) (payload : Buffer)
    (e : FrameRef) (v : IsMessage h.ring_size e) (fits : size e ≤ h.ring_size)
    (numbered : e.seq ≡ h.newest_seq + 1) (flags_eq : e.flags ≡ 0)
    (payload_eq : to_list payload ≡ e.payload) where
  flush_marker-exact :
      (flush_range : ℕ → ℕ → Result (Unit {0})) (wrap_offset : Option ℕ)
      → MarkerInside h.ring_size wrap_offset
      → elim wrap_offset [
        | none ↦ ok tt
        | some wrap_head ↦ flush_range (add_u64 h.ring_offset wrap_head) frame_header_len
      ]
        ≡ flush_marker flush_range h.ring_offset wrap_offset
  flush_marker-exact flush_range none inside = refl
  flush_marker-exact flush_range (some at) inside =
      ap (λ start. flush_range start 64) (omega (arith, inside, c.sized, c.valid.ring_ends))

  flush_slot-exact :
      (flush_range : ℕ → ℕ → Result (Unit {0}))
      → (if h.index_capacity == 0
          then ok tt
          else ok_or
              (index_slot_range h.index_offset h.index_capacity (seq_after h))
              ErrorKind.corrupt
              "index slot calculation overflow"
            >>= λ slot. flush_range slot.0 slot.1)
        ≡ (if h.index_capacity == 0
            then ok tt
            else flush_range (slot_of h.index_offset h.index_capacity (h.newest_seq + 1)) 16)
  flush_slot-exact flush_range = elim (dec_lt 0 h.index_capacity) [
    | yes some_slots ↦
        rw
          (
            seq_after_is m h es c payload e v fits numbered flags_eq payload_eq,
            index_slot_range-some h.index_offset h.index_capacity (h.newest_seq + 1) some_slots (
                omega
                  (arith, c.sized, c.valid.ring_ends, c.valid.ring_starts, c.valid.index_starts)),
          )
          refl
    | no no_slots ↦
        (let none_there : (h.index_capacity == 0) ≡ true = ground (arith, no_slots) in
          rw none_there refl)
  ]

  -- With the durability `flush` the ranges that were written are flushed: the frame, the wrap marker, the
  -- index slot and the header.
  pub flush_append-written :
      (flush_range : ℕ → ℕ → Result (Unit {0}))
      → flush_append flush_range h.ring_offset
          (plan m h es c payload e v fits numbered flags_eq payload_eq)
        ≡ flush_written flush_range h (size e)
  unfolding flush_append plan
  flush_append-written flush_range =
      let P = plans m h es c payload e v fits numbered flags_eq payload_eq in
      let place_exact : add_u64 h.ring_offset (frame_place h (size e))
          ≡ h.ring_offset + frame_place h (size e) =
        omega (arith, P.seat.inside, c.sized, c.valid.ring_ends) in
      flushes (λ start. flush_range start (size e)) place_exact
        (flush_marker-exact flush_range (wrap_place h (size e)) P.seat.marker_inside)
        (flush_slot-exact flush_range) (flush_range 0 header_size)
