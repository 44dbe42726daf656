-- ===== src/Plan/Place.antt =====
-- Where the planner puts a frame in a ring with enough space: the bytes are free, and the header that
-- it plans describes the ring with the frame in it.
use plasmite.Prelude.{ℕ, ◌+◌, ◌≤◌, ◌<◌, ◌≡◌, ◌⊎◌, arith, Option, none, some, false, IsU64}
use plasmite.Frame.Codec.{HeaderAt}
use plasmite.Header.{PoolHeader}
use plasmite.Cursor.{FrameRef, wrap_offset}
use plasmite.Plan.{
  Space, used_space, free_space, required_space, lacks_space, frame_place, wrap_place, head_after,
}
use plasmite.Ring.{size, wrap_header, FrameAt}

-- What the append writes into the ring: the frame of `e` at `at`, and a wrap marker that stays where
-- the frame does not cover it.
abbrev pub MarkerAt : (ℕ → ℕ) → ℕ → ℕ → Option ℕ → Type 0
MarkerAt g ring_offset end none = Unit {0}
MarkerAt g ring_offset end (some p) = end ≤ p → HeaderAt g (ring_offset + p) wrap_header

abbrev pub OutsideMarker : Option ℕ → ℕ → Type 0
OutsideMarker none i = Unit {0}
OutsideMarker (some p) i = (i < p) ⊎ (p + 64 ≤ i)

abbrev pub MarkerInside : ℕ → Option ℕ → Type 0
MarkerInside ring_size none = Unit {0}
MarkerInside ring_size (some p) = p + 64 ≤ ring_size

pub record Written (f g : ℕ → ℕ) (ring_offset ring_size at : ℕ) (marker : Option ℕ) (e : FrameRef)
    : Type 0 where
  pub frame_at : FrameAt g (ring_offset + at) e
  pub marker_at : MarkerAt g ring_offset (at + size e) marker
  pub same :
      (i : ℕ)
      → i < ring_size
      → (i < at) ⊎ (at + size e ≤ i)
      → OutsideMarker marker i
      → g (ring_offset + i) ≡ f (ring_offset + i)

module _ (h : PoolHeader) (len : ℕ) (ring_u64 : IsU64 (h.ring_size + 64))
    (head_in : h.head_off < h.ring_size) (len_fits : len ≤ h.ring_size) where
  pub place-straight :
      h.head_off + len ≤ h.ring_size
      → (frame_place h len ≡ h.head_off)
        × (wrap_place h len ≡ none)
        × (head_after h len ≡ wrap_offset (h.head_off + len) h.ring_size)
  place-straight fits = (ground arith, ground arith, ground arith)

  pub place-wraps :
      h.ring_size < h.head_off + len
      → (frame_place h len ≡ 0)
        × (head_after h len ≡ wrap_offset len h.ring_size)
        × (((wrap_place h len ≡ none) × (h.ring_size < h.head_off + 64))
            ⊎ ((wrap_place h len ≡ some h.head_off) × (h.head_off + 64 ≤ h.ring_size)))
  place-wraps wraps = (ground arith, ground arith, ground arith)

  -- The space that the loop has found, by how the messages lie.
  module _ (s : Space) (live : 0 < s.oldest_seq) (some_len : 0 < len)
      (tail_in : s.tail < h.ring_size)
      (enough : lacks_space h.head_off len h.ring_size s ≡ false) where
    pub room-behind :
        s.tail < h.head_off
        → (h.head_off + len ≤ h.ring_size) ⊎ ((h.ring_size < h.head_off + len) × (len ≤ s.tail))
    unfolding lacks_space free_space used_space required_space
    room-behind behind = ground arith

    pub room-start : h.head_off ≡ 0 → len ≤ s.tail
    unfolding lacks_space free_space used_space required_space
    room-start at_zero = ground arith

    pub room-between : 0 < h.head_off → h.head_off ≤ s.tail → h.head_off + len ≤ s.tail
    unfolding lacks_space free_space used_space required_space
    room-between some_head between = ground arith
