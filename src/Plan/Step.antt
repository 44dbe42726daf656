-- ===== src/Plan/Step.antt =====
-- One round of the planner's loop: which step drops what stands at the tail of a sound ring.
use plasmite.Prelude.{
  ℕ, ◌+◌, ◌-◌, ◌≤◌, ◌<◌, ◌≡◌, ◌⊎◌, refl, inl, inr, arith, none, some, length, IsU64, ◌==◌, add_u64,
  if◌then◌else◌,
}
use plasmite.Error.{ok}
use plasmite.Buffer.{Buffer}
use plasmite.Frame
use plasmite.Frame.{FrameHeader, FrameState}
use plasmite.Frame.Codec.{HeaderAt}
use plasmite.Frame.Size.{frame_total_len-some}
use plasmite.Cursor.{FrameRef, wrap_offset}
use plasmite.Plan.{
  DropKind, DropStep, Space, read_frame_header, plan_drop_step_fast, drop_frame, plan_drop_step,
  tail_next_at, compute_tail_next_off, next_drop,
}
use plasmite.Ring.{message_header, wrap_header, size, IsMessage, FrameAt, Gap}
use plasmite.Ring.Read.{validate-header_with, read_frame_header-at}
use native.Mathlib.Decide.{dec_lt}

module _ (m : Buffer) (ring_offset ring_size : ℕ) (sized : IsU64 m.len)
    (placed : ring_offset + ring_size ≤ m.len) where
  module _ (tail : ℕ) (e : FrameRef) (v : IsMessage ring_size e) (fits : tail + size e ≤ ring_size)
      (at : FrameAt m.byte (ring_offset + tail) e) where
    header_read : read_frame_header m ring_offset tail ≡ ok (message_header e)
    header_read =
        read_frame_header-at m ring_offset ring_size sized placed tail (message_header e)
          (omega arith) at.header_at

    header_valid : Frame.validate (message_header e) ring_size ≡ ok tt
    header_valid =
        validate-header_with FrameState.committed e.flags e.seq e.timestamp_ns (length e.payload)
          ring_size v.payload_bounded (inr v.payload_fits)

    -- The frame at the tail, read from the ring.
    plan_drop_step-frame :
        (head oldest_seq : ℕ)
        → 0 < oldest_seq
        → plan_drop_step m ring_offset ring_size head tail oldest_seq
          ≡ ok (
              some (
                record { offset = tail; len = size e; kind = DropKind.frame e.seq },
                wrap_offset (tail + size e) ring_size,
                add_u64 e.seq 1,
              ))
    unfolding plan_drop_step drop_frame
    plan_drop_step-frame head oldest_seq live =
        ground
          (arith, header_read, header_valid, frame_total_len-some (length e.payload) (omega arith))

    pub compute_tail_next_off-frame :
        compute_tail_next_off m ring_offset ring_size tail
        ≡ ok (wrap_offset (tail + size e) ring_size)
    unfolding compute_tail_next_off tail_next_at
    compute_tail_next_off-frame =
        ground
          (arith, header_read, header_valid, frame_total_len-some (length e.payload) (omega arith))

    -- The step from the hint, if the hint is used.
    plan_drop_step_fast-frame :
        (head tail_next_off oldest_seq : ℕ)
        → (tail_next_off ≡ 0) ⊎ (tail_next_off ≡ wrap_offset (tail + size e) ring_size)
        → (plan_drop_step_fast ring_size head tail tail_next_off oldest_seq ≡ none)
          ⊎ ((plan_drop_step_fast ring_size head tail tail_next_off oldest_seq
                ≡ some (
                  record { offset = tail; len = size e; kind = DropKind.frame oldest_seq },
                  tail + size e,
                  (if tail + size e == head then 0 else add_u64 oldest_seq 1),
                ))
              × (wrap_offset (tail + size e) ring_size ≡ tail + size e))
    unfolding plan_drop_step_fast
    plan_drop_step_fast-frame head next oldest h = ground arith

    -- Whether by the hint or by the frame, the round drops the message at the tail.
    pub next_drop-frame :
        (head : ℕ) (s : Space)
        → s.tail ≡ tail
        → 0 < s.oldest_seq
        → e.seq ≡ s.oldest_seq
        → (s.tail_next_off ≡ 0) ⊎ (s.tail_next_off ≡ wrap_offset (tail + size e) ring_size)
        → (oldest : ℕ) × (next_drop m ring_offset ring_size head s
            ≡ ok (
                some (
                  record { offset = tail; len = size e; kind = DropKind.frame e.seq },
                  wrap_offset (tail + size e) ring_size,
                  oldest,
                )))
          × ((oldest ≡ add_u64 s.oldest_seq 1) ⊎ (wrap_offset (tail + size e) ring_size ≡ head))
    unfolding next_drop
    next_drop-frame head s at_tail live numbered hint =
        elim (plan_drop_step_fast-frame head s.tail_next_off s.oldest_seq hint) [
          | inl slow ↦ (
            add_u64 e.seq 1,
            ground (arith, slow, plan_drop_step-frame head s.oldest_seq live),
            ground arith,
          )
          | inr (fast, same) ↦ (
            (if tail + size e == head then 0 else add_u64 s.oldest_seq 1),
            ground (arith, fast, same),
            ground (arith, same),
          )
        ]

  -- The tail at a gap: what is left there is dropped, and the tail goes to the start of the ring.
  module _ (tail : ℕ) (inside : tail < ring_size)
      (gap : Gap m.byte ring_offset ring_size tail) where
    wrap_read :
        tail + 64 ≤ ring_size
        → HeaderAt m.byte (ring_offset + tail) wrap_header
        → read_frame_header m ring_offset tail ≡ ok wrap_header
    wrap_read fits at =
        read_frame_header-at m ring_offset ring_size sized placed tail wrap_header fits at

    wrap_valid : Frame.validate wrap_header ring_size ≡ ok tt
    wrap_valid = validate-header_with FrameState.wrap 0 0 0 0 ring_size (omega arith) (inl refl)

    pub compute_tail_next_off-gap : compute_tail_next_off m ring_offset ring_size tail ≡ ok 0
    unfolding compute_tail_next_off tail_next_at
    compute_tail_next_off-gap = elim gap.1 [
      | inl short ↦ ground arith
      | inr marker ↦ elim (dec_lt (ring_size - tail) 64) [
        | yes short ↦ ground arith
        | no long ↦ ground (arith, wrap_read (omega arith) marker, wrap_valid)
      ]
    ]

    pub next_drop-gap :
        (head : ℕ) (s : Space)
        → s.tail ≡ tail
        → 0 < s.oldest_seq
        → 0 < head
        → s.tail_next_off ≡ 0
        → (step : DropStep) × (next_drop m ring_offset ring_size head s
            ≡ ok (some (step, 0, s.oldest_seq)))
    unfolding next_drop plan_drop_step_fast plan_drop_step drop_frame
    next_drop-gap head s at_tail live some_head hint = elim gap.1 [
      | inl short ↦
          (record { offset = tail; len = ring_size - tail; kind = DropKind.padding }, ground arith)
      | inr marker ↦ elim (dec_lt (ring_size - tail) 64) [
        | yes short ↦ (
          record { offset = tail; len = ring_size - tail; kind = DropKind.padding },
          ground arith,
        )
        | no long ↦ (
          record { offset = tail; len = 64; kind = DropKind.wrap },
          ground (arith, wrap_read (omega arith) marker, wrap_valid),
        )
      ]
    ]
