-- ===== src/Plan/Seat.antt =====
-- The planner's last step puts the frame on free bytes of the ring, and plans a header that describes
-- the ring with the frame in it.
use plasmite.Prelude.{
  ℕ, ◌+◌, ◌%◌, ◌≤◌, ◌<◌, ◌≡◌, ◌⊎◌, ◌∙◌, sym, inl, inr, arith, List, [], ◌∷◌, ◌++◌, refl, subst, ap,
  Option, none, some, false, IsU64, ◌==◌, if◌then◌else◌,
}
use plasmite.Error.{ok}
use plasmite.Buffer.{Buffer}
use plasmite.Frame.Codec.{HeaderAt}
use plasmite.Header.{PoolHeader}
use plasmite.Cursor.{FrameRef, wrap_offset}
use plasmite.Plan.{
  Space, lacks_space, frame_place, wrap_place, head_after, tail_next_after, seq_after, planned,
  place, start_space,
}
use plasmite.Ring.{size, wrap_header, IsMessage, Gap}
use plasmite.Plan.Holds.{Emptied, InOne, InTwo, Holds}
use plasmite.Plan.Placed.{space_of, place_alone, place_behind, place_at_start, place_between}
use native.Mathlib.Decide.{dec_lt, dec_le}
use plasmite.Plan.Facts.{tail_next_inside}
use plasmite.Plan.TailNext.{tail_next-InOne, tail_next-InTwo}
use plasmite.Plan.Place.{
  Written, MarkerAt, OutsideMarker, MarkerInside, place-straight, place-wraps, room-behind,
  room-start, room-between,
}

-- What the planner makes of the loop's variables, for the message `e` that follows `newest_seq`.
module _ (m : Buffer) (h : PoolHeader) (e : FrameRef) (s : Space) (left : List FrameRef) where
  pub record Seat : Type 0 where
    pub tail_next_off : ℕ
    pub places : place h m (size e) s ≡ ok (planned h (size e) s tail_next_off)
    pub tail_next_in : tail_next_off < h.ring_size
    pub inside : frame_place h (size e) + size e ≤ h.ring_size
    pub marker_inside : MarkerInside h.ring_size (wrap_place h (size e))
    pub holds :
        (g : ℕ → ℕ)
        → Written m.byte g h.ring_offset h.ring_size
            (frame_place h (size e))
            (wrap_place h (size e))
            e
        → Holds g h.ring_offset h.ring_size
            (head_after h (size e))
            (h.newest_seq + 1 + 1)
            (start_space (planned h (size e) s tail_next_off).next_header)
            (left ++ (e ∷ []))

  module _ (sized : IsU64 m.len) (starts : 64 ≤ h.ring_offset)
      (placed : h.ring_offset + h.ring_size ≤ m.len) (head_in : h.head_off < h.ring_size)
      (head_aligned : h.head_off % 8 ≡ 0)
      (hinted : 0 < s.oldest_seq → s.tail ≡ h.tail_off → h.tail_next_off ≡ s.tail_next_off)
      (v : IsMessage h.ring_size e) (numbered : e.seq ≡ h.newest_seq + 1)
      (fits : size e ≤ h.ring_size)
      (enough : lacks_space h.head_off (size e) h.ring_size s ≡ false) where
    -- A seat from the values of what is planned.
    seat_of :
        (t at hd tail oldest : ℕ) (marker : Option ℕ)
        → tail_next_after h m (size e) s ≡ ok t
        → t < h.ring_size
        → frame_place h (size e) ≡ at
        → wrap_place h (size e) ≡ marker
        → head_after h (size e) ≡ hd
        → (if s.oldest_seq == 0 then at else s.tail) ≡ tail
        → (if s.oldest_seq == 0 then h.newest_seq + 1 else s.oldest_seq) ≡ oldest
        → 0 < oldest
        → at + size e ≤ h.ring_size
        → MarkerInside h.ring_size marker
        → ((g : ℕ → ℕ)
            → Written m.byte g h.ring_offset h.ring_size at marker e
            → Holds g h.ring_offset h.ring_size hd
                (h.newest_seq + 1 + 1)
                (space_of tail t oldest)
                (left ++ (e ∷ [])))
        → Seat
    unfolding place
    seat_of t at hd tail oldest marker tail_next t_in at_eq marker_eq hd_eq tail_eq oldest_eq live
          inside marker_inside k =
        record {
          tail_next_off = t;
          places = rw tail_next;
          tail_next_in = t_in;
          inside = omega (arith, at_eq);
          marker_inside = rw marker_eq marker_inside;
          holds = λ g w. rw (hd_eq, same_space) (k g (rw (at_eq, marker_eq) at w));
        }
      where
        tail_same : (if s.oldest_seq == 0 then frame_place h (size e) else s.tail) ≡ tail
        tail_same = rw at_eq tail_eq

        oldest_same : (if s.oldest_seq == 0 then seq_after h else s.oldest_seq) ≡ oldest
        oldest_same = ground (arith, oldest_eq, v.seq_u64, numbered)

        same_space : start_space (planned h (size e) s t).next_header ≡ space_of tail t oldest
        same_space =
            rw (tail_same, oldest_same) (ap (λ x. space_of tail x oldest) (ground (arith, live)))

    abbrev Found : Option ℕ → Type 0
    Found marker =
        ((marker ≡ none) × (h.ring_size < h.head_off + 64))
        ⊎ ((marker ≡ some h.head_off) × (h.head_off + 64 ≤ h.ring_size))

    Found-inside : (marker : Option ℕ) → Found marker → MarkerInside h.ring_size marker
    Found-inside none found = tt
    Found-inside (some p) found = grind (arith, found)

    Found-outside :
        (marker : Option ℕ) (i : ℕ) → Found marker → i < h.head_off → OutsideMarker marker i
    Found-outside none i found before = tt
    Found-outside (some p) i found before = inl (grind (arith, found))

    -- The marker makes a gap of what is left behind the head.
    Found-Gap :
        (g : ℕ → ℕ) (marker : Option ℕ)
        → Found marker
        → size e ≤ h.head_off
        → MarkerAt g h.ring_offset (0 + size e) marker
        → Gap g h.ring_offset h.ring_size h.head_off
    Found-Gap g none found room at = (omega arith, inl (grind (arith, found)))
    Found-Gap g (some p) found room at =
        let same : p ≡ h.head_off = grind (arith, found) in
        (
          omega arith,
          inr (subst (λ x. HeaderAt g (h.ring_offset + x) wrap_header) same (at (omega arith))),
        )

    seat-alone :
        Emptied m.byte h.ring_offset h.ring_size h.head_off (h.newest_seq + 1) s left
        → (at : ℕ) (marker : Option ℕ) → frame_place h (size e) ≡ at
        → wrap_place h (size e) ≡ marker
        → at % 8 ≡ 0
        → at + size e ≤ h.ring_size
        → MarkerInside h.ring_size marker
        → Seat
    unfolding tail_next_after
    seat-alone empty at marker at_eq marker_eq aligned inside marker_inside =
        let hd = wrap_offset (at + size e) h.ring_size in
        let hd_eq : head_after h (size e) ≡ hd = rw at_eq (ground arith) in
        seat_of hd at hd at (h.newest_seq + 1) marker (ground (arith, empty.oldest_zero, hd_eq))
          (ground (arith, inside)) at_eq marker_eq hd_eq (ground (arith, empty.oldest_zero))
          (ground (arith, empty.oldest_zero)) (omega arith) inside marker_inside
          (λ g w. inr (
            inl (
              left_alone g hd hd at (
                place_alone m.byte g h.ring_offset h.ring_size (h.newest_seq + 1) e v numbered at
                  aligned (omega arith) inside w.frame_at))))
      where
        left_alone :
            (g : ℕ → ℕ) (hd t tail : ℕ)
            → InOne g h.ring_offset h.ring_size hd
                (h.newest_seq + 1 + 1)
                (space_of tail t (h.newest_seq + 1))
                (e ∷ [])
            → InOne g h.ring_offset h.ring_size hd
                (h.newest_seq + 1 + 1)
                (space_of tail t (h.newest_seq + 1))
                (left ++ (e ∷ []))
        left_alone g hd t tail k = rw empty.no_messages k

    seat-Emptied :
        Emptied m.byte h.ring_offset h.ring_size h.head_off (h.newest_seq + 1) s left → Seat
    seat-Emptied empty = elim (dec_le (h.head_off + size e) h.ring_size) [
      | yes fits_here ↦
          let (at, marker, hd) = place-straight h (size e) (omega arith) head_in fits fits_here in
          seat-alone empty h.head_off none at marker head_aligned fits_here tt
      | no wraps ↦
          let (at, hd, found) = place-wraps h (size e) (omega arith) head_in fits (omega arith) in
          seat-alone empty 0 (wrap_place h (size e)) at refl refl (omega arith)
            (Found-inside (wrap_place h (size e)) found)
    ]

    module _ (t : ℕ) (tail_next : tail_next_after h m (size e) s ≡ ok t)
        (one : InOne m.byte h.ring_offset h.ring_size h.head_off
          (h.newest_seq + 1)
          (space_of s.tail t s.oldest_seq)
          left) where
      tail_in : s.tail < h.ring_size
      tail_in = omega (arith, one.straight.some, one.straight.inside)

      t_in : t < h.ring_size
      t_in =
          (tail_next_inside m.byte h.ring_offset h.ring_size h.head_off (h.newest_seq + 1) head_in
            (space_of s.tail t s.oldest_seq) left (inr (inl one)) one.live).0

      -- The frame goes to the start of the ring.
      seat-start :
          (marker : Option ℕ)
          → size e ≤ s.tail
          → frame_place h (size e) ≡ 0
          → wrap_place h (size e) ≡ marker
          → head_after h (size e) ≡ wrap_offset (size e) h.ring_size
          → MarkerInside h.ring_size marker
          → ((i : ℕ) → i < one.straight.stop → OutsideMarker marker i)
          → ((g : ℕ → ℕ)
              → MarkerAt g h.ring_offset (0 + size e) marker
              → Gap g h.ring_offset h.ring_size one.straight.stop)
          → Seat
      seat-start marker room at_eq marker_eq hd_eq marker_inside outside gap =
          seat_of t 0 (size e) s.tail s.oldest_seq marker tail_next t_in at_eq marker_eq
            (hd_eq ∙ ground (arith, tail_in)) (ground (arith, one.live)) (ground (arith, one.live))
            one.live (omega arith) marker_inside
            (λ g w. inr (
              inr (
                left,
                place_at_start m.byte g h.ring_offset h.ring_size (h.newest_seq + 1) e v numbered
                    s.tail t s.oldest_seq h.head_off left one room
                    (λ i a b.
                      w.same i (omega (arith, one.straight.inside)) (inr (omega arith))
                        (outside i b))
                    w.frame_at (gap g w.marker_at),
              )))

      seat-behind : s.tail < h.head_off → Seat
      seat-behind behind =
          elim (room-behind h (size e) (omega arith) head_in fits s one.live (omega arith) tail_in
            enough behind) [
              | inl fits_here ↦
                  let (at, marker, hd) =
                    place-straight h (size e) (omega arith) head_in fits fits_here in
                  seat_of t h.head_off (wrap_offset (h.head_off + size e) h.ring_size) s.tail
                    s.oldest_seq none tail_next t_in at marker hd (ground (arith, one.live))
                    (ground (arith, one.live)) one.live fits_here tt
                    (λ g w. inr (
                      inl (
                        place_behind m.byte g h.ring_offset h.ring_size (h.newest_seq + 1) e v
                          numbered s.tail t s.oldest_seq h.head_off left one behind fits_here
                          (λ i a b. w.same i (omega arith) (inl b) tt) w.frame_at)))
              | inr (wraps, room) ↦
                  let (at, hd, found) = place-wraps h (size e) (omega arith) head_in fits wraps in
                  let stop_at : one.straight.stop ≡ h.head_off =
                    ground (arith, one.straight.ends) in
                  seat-start (wrap_place h (size e)) room at refl hd
                    (Found-inside (wrap_place h (size e)) found)
                    (λ i b. Found-outside (wrap_place h (size e)) i found (omega arith))
                    (λ g marked.
                      subst (Gap g h.ring_offset h.ring_size) (sym stop_at)
                        (Found-Gap g (wrap_place h (size e)) found (omega arith) marked))
            ]

      seat-full : h.head_off ≤ s.tail → Seat
      seat-full at_end =
          let stop_at : one.straight.stop ≡ h.ring_size =
            ground (arith, one.straight.ends, one.straight.some, one.straight.inside) in
          let head_zero : h.head_off ≡ 0 = ground (arith, one.straight.ends, stop_at) in
          let room =
            room-start h (size e) (omega arith) head_in fits s one.live (omega arith) tail_in enough
              head_zero in
          let (at, marker, hd) =
            place-straight h (size e) (omega arith) head_in fits (omega arith) in
          seat-start none room (at ∙ head_zero) marker
            (hd ∙ ap (λ x. wrap_offset x h.ring_size) (omega arith)) tt (λ i b. tt)
            (λ g marked. (omega arith, inl (omega arith)))

    seat-InOne : InOne m.byte h.ring_offset h.ring_size h.head_off (h.newest_seq + 1) s left → Seat
    seat-InOne one =
        let (t, tail_next, one') =
          tail_next-InOne m h sized placed (size e) (h.newest_seq + 1) s hinted left one in
        elim (dec_lt s.tail h.head_off) [
          | yes behind ↦ seat-behind t tail_next one' behind
          | no at_end ↦ seat-full t tail_next one' (omega arith)
        ]

    seat-InTwo :
        (before : List FrameRef)
        → InTwo m.byte h.ring_offset h.ring_size h.head_off (h.newest_seq + 1) s before left
        → Seat
    seat-InTwo before two =
        let (t, tail_next, two') =
          tail_next-InTwo m h sized placed (size e) (h.newest_seq + 1) s hinted before left two in
        let room =
          room-between h (size e) (omega arith) head_in fits s two.live (omega arith)
            two.split.inside enough two.split.some two.split.apart in
        let (at, marker, hd) =
          place-straight h (size e) (omega arith) head_in fits (omega (arith, two.split.inside)) in
        seat_of t h.head_off (h.head_off + size e) s.tail s.oldest_seq none tail_next
          (tail_next_inside m.byte h.ring_offset h.ring_size h.head_off (h.newest_seq + 1) head_in
            (space_of s.tail t s.oldest_seq) left (inr (inr (before, two'))) two.live).0
          at marker (hd ∙ ground (arith, two.split.inside)) (ground (arith, two.live))
          (ground (arith, two.live)) two.live (omega (arith, two.split.inside)) tt
          (λ g w. inr (
            inr (
              before,
              place_between m.byte g h.ring_offset h.ring_size (h.newest_seq + 1) e v numbered
                  s.tail t s.oldest_seq h.head_off left before two' room
                  (λ i a b. w.same i (omega arith) (inl b) tt)
                  (λ i a b. w.same i b (inr (omega arith)) tt) w.frame_at,
            )))

    -- The last step of the planner in a ring that has the space.
    pub place_lem :
        Holds m.byte h.ring_offset h.ring_size h.head_off (h.newest_seq + 1) s left → Seat
    place_lem (inl empty) = seat-Emptied empty
    place_lem (inr (inl one)) = seat-InOne one
    place_lem (inr (inr (before, two))) = seat-InTwo before two
