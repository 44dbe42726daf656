-- ===== src/Pool/Reject.antt =====
-- `append` of a payload that the ring cannot hold.
use plasmite.Prelude.{
  ℕ, ◌-◌, ◌^◌, ◌<◌, ◌≡◌, ◌⊎◌, arith, List, add_u64, ◌==◌, ltb, leb, true, false, min, Bool-cases,
  inl, inr, String, if◌then◌else◌, refl,
}
use plasmite.Error.{Result, ok, err, ErrorKind, failure}
use plasmite.Buffer.{Buffer}
use plasmite.Frame.{max_payload, max_payload_abs, frame_header_len}
use plasmite.Frame.Size.{frame_size, frame_total_len-some}
use plasmite.Header.{PoolHeader}
use plasmite.Cursor.{FrameRef}
use plasmite.Plan.{plan_checks, plan_append}
use plasmite.Pool.{Pool, AppendOptions, append_locked, append_with_options}
use plasmite.Pool.Contents.{Contents}
use plasmite.Pool.Append.{header_from_mmap-ok}

-- What the error says of a payload of `n` bytes.
abbrev pub refusal : ℕ → ℕ → String
refusal ring_size n =
    if leb (2 ^ 32) n
    then "payload too large"
    else if ltb (min (ring_size - 72) max_payload_abs) n
    then "payload exceeds ring capacity"
    else "frame larger than ring"

plan_append-rejects :
    (m : Buffer) (h : PoolHeader) (es : List FrameRef) (n : ℕ)
    → Contents m h es
    → (h.ring_size < frame_size n) ⊎ (max_payload_abs < n)
    → plan_append h m n ≡ err (failure ErrorKind.usage (refusal h.ring_size n))
unfolding plan_append plan_checks max_payload
plan_append-rejects m h es n c large = elim (Bool-cases (leb (2 ^ 32) n)) [
  | inl huge ↦
      let not_u32 : leb n (2 ^ 32 - 1) ≡ false = ground (arith, huge) in rw (huge, not_u32) refl
  | inr small ↦
      let is_u32 : leb n (2 ^ 32 - 1) ≡ true = ground (arith, small) in
      elim (Bool-cases (ltb (min (h.ring_size - 72) max_payload_abs) n)) [
        | inl over ↦
            let too_large : leb n (max_payload h.ring_size frame_header_len) ≡ false =
              ground (arith, over) in
            rw (small, is_u32, ring_there, ring_inside, over, too_large) refl
        | inr within ↦
            let fits : leb n (max_payload h.ring_size frame_header_len) ≡ true =
              ground (arith, within) in
            let frame_over : leb (frame_size n) h.ring_size ≡ false =
              ground (arith, large, within) in
            rw
              (
                small,
                is_u32,
                ring_there,
                ring_inside,
                within,
                fits,
                frame_total_len-some n (ground (arith, small)),
                frame_over,
              )
              refl
      ]
]
  where
    ring_there : (h.ring_size == 0) ≡ false
    ring_there = ground (arith, c.valid.ring_nonempty)

    ring_inside : leb (add_u64 h.ring_offset h.ring_size) m.len ≡ true
    ring_inside = ground (arith, c.valid.ring_ends, c.sized)

-- On a sound pool whose lock is taken, every payload whose frame the ring cannot hold, or that is larger
-- than 256 MiB, is a usage error, which is "payload too large" from 4 GiB on, else "payload exceeds ring
-- capacity" where the payload is longer than the ring less 72 bytes or than 256 MiB, and else, as for
-- an empty payload, "frame larger than ring".
pub append_rejects :
    (flush_range : ℕ → ℕ → Result (Unit {0})) (p : Pool) (h : PoolHeader) (es : List FrameRef)
    (payload : Buffer) (options : AppendOptions)
    → Contents p.mmap h es
    → (h.ring_size < frame_size payload.len) ⊎ (max_payload_abs < payload.len)
    → append_with_options (ok tt) flush_range p payload options
      ≡ err (failure ErrorKind.usage (refusal h.ring_size payload.len))
unfolding append_with_options append_locked
append_rejects flush_range p h es payload options c large =
    rw (header_from_mmap-ok p.mmap h es c, plan_append-rejects p.mmap h es payload.len c large)
