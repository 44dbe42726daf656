-- ===== src/Pool/Marker.antt =====
-- The wrap marker of an append, which stays where the frame does not cover it.
use plasmite.Prelude.{ℕ, ◌+◌, ◌≤◌, ◌<◌, ◌≡◌, inl, arith, refl, Option, none, some, IsU64}
use plasmite.Error.{ok}
use plasmite.Buffer.{Buffer}
use plasmite.Ring.{wrap_header}
use plasmite.Pool.{write_wrap_at}
use plasmite.Pool.Writes.{write_wrap_lem}
use plasmite.Plan.Place.{MarkerAt, OutsideMarker, MarkerInside}
use plasmite.Ring.Agree.{HeaderAt-same}

-- The wrap marker, if the plan has one.
pub write_wrap_at_lem :
    (m : Buffer) (ring_offset ring_size : ℕ) (marker : Option ℕ)
    → IsU64 m.len
    → ring_offset + ring_size ≤ m.len
    → MarkerInside ring_size marker
    → (m' : Buffer) × (write_wrap_at m ring_offset marker ≡ ok m')
      × (m'.len ≡ m.len)
      × MarkerAt m'.byte ring_offset 0 marker
      × ((i : ℕ) → OutsideMarker marker i → m'.byte (ring_offset + i) ≡ m.byte (ring_offset + i))
      × ((i : ℕ) → i < ring_offset → m'.byte i ≡ m.byte i)
unfolding write_wrap_at
write_wrap_at_lem m ring_offset ring_size none sized placed inside =
    (m, refl, refl, tt, (λ i out. refl), (λ i before. refl))
write_wrap_at_lem m ring_offset ring_size (some p) sized placed inside =
    let (m', writes, only, at) = write_wrap_lem m sized ring_offset p (omega arith) in
    (
      m',
      writes,
      only.same_len,
      (λ k. at),
      (λ i out. only.outside (ring_offset + i) (omega arith)),
      (λ i before. only.outside i (inl (omega arith))),
    )

pub marker_kept :
    (f g : ℕ → ℕ) (ring_offset end : ℕ) (marker : Option ℕ)
    → ((i : ℕ) → end ≤ i → g (ring_offset + i) ≡ f (ring_offset + i))
    → MarkerAt f ring_offset 0 marker
    → MarkerAt g ring_offset end marker
marker_kept f g ring_offset end none same at = tt
marker_kept f g ring_offset end (some p) same at = λ behind.
    HeaderAt-same f g ring_offset p wrap_header (λ i a b. same i (omega arith)) (at (omega arith))
