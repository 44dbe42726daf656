-- ===== src/Pool/Append.antt =====
-- `append_locked` on a sound pool, for the message that it makes of its payload.
pub mod Flush
use plasmite.Prelude.{
  ℕ, ◌+◌, ◌%◌, ◌≤◌, ◌<◌, ◌≡◌, ◌∙◌, sym, inr, arith, List, [], ◌∷◌, ◌++◌, length, refl, subst, ap,
  fun_ext, Option, none, some, ◌==◌, if◌then◌else◌, true, add_u64,
}
use plasmite.Error.{Result, ok, ok_or, ErrorKind, ◌>>=◌, ◌>>◌}
use plasmite.Buffer.{from_le_bytes, Buffer, to_list}
use plasmite.Buffer.Laws.{slice-ok, length-bytes_from}
use plasmite.Header.{PoolHeader, header_size}
use plasmite.Header.Layout.{IsPoolHeader}
use plasmite.Header.Codec.{IsEncodable, PoolHeaderAt, decode-PoolHeaderAt}
use plasmite.Cursor.{FrameRef, header_from_mmap}
use plasmite.Plan.{
  start_space, frame_place, wrap_place, head_after, seq_after, planned, Space, plan_append,
  AppendPlan,
}
use plasmite.Plan.Holds.{Holds}
use plasmite.Plan.Facts.{tail_inside, tail_aligned, tail_next_inside, oldest-lt}
use plasmite.Plan.Append.{Plans, plan_append_lem}
use plasmite.Plan.Place.{Written, MarkerInside}
use plasmite.Frame.{frame_header_len}
use plasmite.Pool.{
  index_slot_range, AppendOptions, flush_append, flush_if, append_locked, apply_append,
}
use plasmite.Pool.Apply.{apply_append_lem}
use plasmite.Pool.Contents.{Contents}
use plasmite.Pool.Slot.{slot_of, index_slot_range-some}
use plasmite.Ring.{FrameAt, size, IsMessage}
use native.Mathlib.Decide.{dec_lt}

-- The header in the map is the one that the contents go by.
pub header_from_mmap-ok :
    (m : Buffer) (h : PoolHeader) (es : List FrameRef) → Contents m h es → header_from_mmap m ≡ ok h
unfolding header_from_mmap
header_from_mmap-ok m h es c =
    rw
      (slice-ok m 0 header_size (omega arith)
        (omega (arith, c.valid.ring_starts, c.valid.ring_ends)))
      (decode-PoolHeaderAt _ h (omega arith) (omega arith)
        (subst (λ f. PoolHeaderAt f h) (fun_ext (λ i. ap m.byte (omega arith))) c.header_at))

module _ (m : Buffer) (h : PoolHeader) (es : List FrameRef) (c : Contents m h es) (payload : Buffer)
    (e : FrameRef) (v : IsMessage h.ring_size e) (fits : size e ≤ h.ring_size)
    (numbered : e.seq ≡ h.newest_seq + 1) (flags_eq : e.flags ≡ 0)
    (payload_eq : to_list payload ≡ e.payload) where
  pub plans : Plans m h c.sized c.valid e v fits es
  plans = plan_append_lem m h c.sized c.valid e v fits es c.holds numbered

  pub plan : AppendPlan
  plan = planned h (size e) plans.space plans.seat.tail_next_off

  pub new_header : PoolHeader
  unfolding plan
  new_header = plan.next_header

  pub seq_after_is : seq_after h ≡ h.newest_seq + 1
  seq_after_is = ground (arith, numbered, v.seq_u64)

  frame_place_in : frame_place h (size e) < h.ring_size
  frame_place_in = omega (arith, plans.seat.inside)

  tail_in : plans.space.tail < h.ring_size
  tail_in =
      tail_inside m.byte h.ring_offset h.ring_size h.head_off (h.newest_seq + 1) c.valid.head_in
        plans.space plans.left plans.space_holds

  oldest_in : plans.space.oldest_seq ≤ h.newest_seq
  oldest_in = elim (dec_lt 0 plans.space.oldest_seq) [
    | yes live ↦ omega (
      arith,
      oldest-lt m.byte h.ring_offset h.ring_size h.head_off (h.newest_seq + 1) c.valid.head_in
          plans.space plans.left plans.space_holds live,
    )
    | no empty ↦ omega arith
  ]

  encodable : IsEncodable new_header
  unfolding plan new_header
  encodable = record {
    file_size_fits = c.encodable.file_size_fits;
    index_offset_fits = c.encodable.index_offset_fits;
    index_capacity_fits = c.encodable.index_capacity_fits;
    ring_offset_fits = c.encodable.ring_offset_fits;
    ring_size_fits = c.encodable.ring_size_fits;
    flags_fits = c.encodable.flags_fits;
    head_off_fits = ground (arith, plans.seat.inside, c.encodable.ring_size_fits);
    tail_off_fits = ground (arith, tail_in, frame_place_in, c.encodable.ring_size_fits);
    tail_next_off_fits = omega (arith, plans.seat.tail_next_in, c.encodable.ring_size_fits);
    oldest_seq_fits = ground (arith, oldest_in, seq_after_is, numbered, v.seq_u64);
    newest_seq_fits = omega (arith, seq_after_is, numbered, v.seq_u64);
  }

  -- The pool after the writes.
  module _ (m' : Buffer) (same_len : m'.len ≡ m.len) (header_at : PoolHeaderAt m'.byte new_header)
      (written : Written m.byte m'.byte h.ring_offset h.ring_size plan.frame_offset plan.wrap_offset
        e) where
    holds :
        Holds m'.byte new_header.ring_offset new_header.ring_size new_header.head_off
          (new_header.newest_seq + 1)
          (start_space new_header)
          (plans.left ++ (e ∷ []))
    unfolding plan new_header
    holds =
        subst
          (λ x.
            Holds m'.byte h.ring_offset h.ring_size (head_after h (size e)) (x + 1)
              (start_space new_header) (plans.left ++ (e ∷ [])))
          (sym seq_after_is) (plans.seat.holds m'.byte written)

    live : 0 < new_header.oldest_seq
    unfolding plan new_header
    live = ground (arith, seq_after_is)

    new_head_in : new_header.head_off < new_header.ring_size
    unfolding plan new_header
    new_head_in = ground (arith, plans.seat.inside)

    abbrev new_space : Space
    new_space = start_space new_header

    new_tail_aligned : new_header.tail_off % 8 ≡ 0
    new_tail_aligned =
        tail_aligned m'.byte new_header.ring_offset new_header.ring_size new_header.head_off
          (new_header.newest_seq + 1) new_head_in new_space (plans.left ++ (e ∷ [])) holds live

    new_tail_next :
        (new_space.tail_next_off < new_header.ring_size) × (new_space.tail_next_off % 8 ≡ 0)
    new_tail_next =
        tail_next_inside m'.byte new_header.ring_offset new_header.ring_size new_header.head_off
          (new_header.newest_seq + 1) new_head_in new_space (plans.left ++ (e ∷ [])) holds live

    new_oldest : new_header.oldest_seq < new_header.newest_seq + 1
    new_oldest =
        oldest-lt m'.byte new_header.ring_offset new_header.ring_size new_header.head_off
          (new_header.newest_seq + 1) new_head_in new_space (plans.left ++ (e ∷ [])) holds live

    new_tail_in : new_header.tail_off < new_header.ring_size
    new_tail_in =
        tail_inside m'.byte new_header.ring_offset new_header.ring_size new_header.head_off
          (new_header.newest_seq + 1) new_head_in new_space (plans.left ++ (e ∷ [])) holds

    new_head_aligned : new_header.head_off % 8 ≡ 0
    unfolding plan new_header
    new_head_aligned = ground (arith, plans.seat.inside, c.valid.head_aligned)

    regions :
        (new_header.file_size ≡ h.file_size)
        × (new_header.index_offset ≡ h.index_offset)
        × (new_header.index_capacity ≡ h.index_capacity)
        × (new_header.ring_offset ≡ h.ring_offset)
        × (new_header.ring_size ≡ h.ring_size)
    unfolding plan new_header
    regions = (refl, refl, refl, refl, refl)

    valid : IsPoolHeader new_header m'.len
    valid = record {
      file_sized = omega (arith, regions, c.valid.file_sized);
      index_starts = omega (arith, regions, c.valid.index_starts);
      ring_starts = omega (arith, regions, c.valid.ring_starts);
      ring_ends = omega (arith, regions, c.valid.ring_ends);
      ring_nonempty = omega (arith, regions, c.valid.ring_nonempty);
      head_in = new_head_in;
      tail_in = new_tail_in;
      tail_next_in = ground (arith, new_tail_next, live);
      head_aligned = new_head_aligned;
      tail_aligned = new_tail_aligned;
      tail_next_aligned = ground (arith, new_tail_next, live);
      seqs_ordered = inr (omega (arith, new_oldest));
      empty_offsets = λ none_there. absurd (omega (arith, live));
    }

    contents : Contents m' new_header (plans.left ++ (e ∷ []))
    contents = record {
      sized = omega (arith, c.sized);
      valid = valid;
      encodable = encodable;
      header_at = header_at;
      holds = holds;
    }

  pub applied :
      (m' : Buffer) × (apply_append m h.ring_offset plan payload e.timestamp_ns ≡ ok m')
      × Contents m' new_header (plans.left ++ (e ∷ []))
      × FrameAt m'.byte (h.ring_offset + frame_place h (size e)) e
      × (0 < h.index_capacity
          → (from_le_bytes m'.byte (slot_of h.index_offset h.index_capacity e.seq) 8 ≡ e.seq)
            × (from_le_bytes m'.byte (slot_of h.index_offset h.index_capacity e.seq + 8) 8
                ≡ frame_place h (size e)))
  unfolding plan new_header
  applied =
      let (m', applies, result) =
        apply_append_lem m h.ring_offset h.ring_size plan payload e c.sized
          (omega (arith, c.valid.ring_ends)) v payload_eq flags_eq (seq_after_is ∙ sym numbered)
          refl plans.seat.inside plans.seat.marker_inside (omega (arith, c.valid.index_starts))
          (omega (arith, c.valid.index_starts, c.valid.ring_starts)) encodable in
      (
        m',
        applies,
        contents m' result.same_len result.header_at result.written,
        result.written.frame_at,
        result.slot_at,
      )

  pub planned_header :
      (0 < new_header.oldest_seq)
      × (new_header.newest_seq ≡ h.newest_seq + 1)
      × ((new_header.index_offset ≡ h.index_offset)
          × (new_header.index_capacity ≡ h.index_capacity))
      × ((new_header.ring_offset ≡ h.ring_offset) × (new_header.ring_size ≡ h.ring_size))
  unfolding plan new_header
  planned_header = (ground (arith, seq_after_is), seq_after_is, (refl, refl), (refl, refl))

  planned_ok : plan_append h m payload.len ≡ ok plan
  unfolding plan to_list
  planned_ok =
      subst (λ n. plan_append h m n ≡ ok (planned h (size e) plans.space plans.seat.tail_next_off))
        (ap length (sym payload_eq) ∙ length-bytes_from payload.byte 0 payload.len) plans.plans

  plan_seq : plan.seq ≡ h.newest_seq + 1
  unfolding plan
  plan_seq = seq_after_is

  pub append_locked-ok :
      (flush_range : ℕ → ℕ → Result (Unit {0})) (options : AppendOptions)
      → options.timestamp_ns ≡ e.timestamp_ns
      → append_locked flush_range (record { mmap = m; header = h }) payload options
        ≡ ok (
          record { mmap = applied.0; header = new_header },
          (flush_if options.durability (flush_append flush_range h.ring_offset plan) >>= λ _.
              ok (h.newest_seq + 1)),
        )
  unfolding append_locked new_header
  append_locked-ok flush_range options same_time = rw (planned_ok, same_time, applied.1, plan_seq)
