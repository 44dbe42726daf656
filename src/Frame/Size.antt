-- ===== src/Frame/Size.antt =====
-- The sizes of src/core/frame.rs at a frame header: what `frame_total_len` gives, and how it fits a ring.
use plasmite.Prelude.{ℕ, ◌+◌, ◌*◌, ◌/◌, ◌%◌, ◌^◌, ◌≤◌, ◌<◌, ◌≡◌, some, arith, IsU32, ◌⊎◌}
use plasmite.Frame.{align8, frame_total_len, max_payload, frame_header_len, max_payload_abs}
use mathlib.Core.Option

-- The bytes that a frame with a payload of `p` bytes takes up.
abbrev pub frame_size : ℕ → ℕ
frame_size p = (p + 79) / 8 * 8

align8-some : (n : ℕ) → n + 7 < 2 ^ 64 → align8 n ≡ some ((n + 7) / 8 * 8)
unfolding align8
align8-some n h = ground arith

pub frame_total_len-some :
    (p : ℕ) → IsU32 p → frame_total_len frame_header_len p ≡ some (frame_size p)
unfolding frame_total_len Option.bind
frame_total_len-some p h = ground (arith, align8-some (64 + p + 8))

-- The frame of a payload that a `u32` can measure is a whole number of 8-byte words, holds the
-- header, the payload and the commit marker, and wastes fewer than eight bytes.
pub frame_total_len_lem :
    (p : ℕ)
    → IsU32 p
    → (n : ℕ) × (frame_total_len frame_header_len p ≡ some n)
      × (n % 8 ≡ 0)
      × (p + 72 ≤ n)
      × (n < p + 80)
frame_total_len_lem p h =
    (frame_size p, frame_total_len-some p h, omega arith, omega arith, omega arith)

-- A payload within `max_payload` leaves room for its header and marker in the ring.
pub max_payload-fits :
    (ring_size p : ℕ)
    → p ≤ max_payload ring_size frame_header_len
    → (p ≤ max_payload_abs) × ((p ≡ 0) ⊎ (p + 72 ≤ ring_size))
unfolding max_payload
max_payload-fits ring_size p h = omega arith
