-- ===== src/Plan/Append.antt =====
-- `plan_append` on a sound ring.
use plasmite.Prelude.{
  suc, ◌+◌, ◌≤◌, ◌<◌, ◌≡◌, sym, inl, inr, arith, List, ◌++◌, length, subst, ap, IsU64,
}
use plasmite.Error.{ok}
use plasmite.Buffer.{Buffer}
use plasmite.Frame.{max_payload}
use plasmite.Frame.Size.{frame_total_len-some}
use plasmite.Header.{PoolHeader}
use plasmite.Header.Layout.{IsPoolHeader}
use plasmite.Cursor.{FrameRef}
use plasmite.Plan.{Space, plan_checks, plan_append, planned, start_space}
use plasmite.Plan.Holds.{Holds, span}
use plasmite.Plan.Loop.{Made, make_space_lem}
use plasmite.Plan.Facts.{Holds-none}
use plasmite.Plan.Seat.{Seat, place_lem}
use plasmite.Ring.{size, IsMessage}

module _ (m : Buffer) (h : PoolHeader) (sized : IsU64 m.len) (valid : IsPoolHeader h m.len)
    (e : FrameRef) (v : IsMessage h.ring_size e) (fits : size e ≤ h.ring_size) where
  plan_checks-ok : plan_checks h m (length e.payload) ≡ ok (size e)
  unfolding plan_checks max_payload
  plan_checks-ok =
      ground (
        arith,
        frame_total_len-some (length e.payload) (omega (arith, v.payload_bounded)),
        valid,
        v,
      )

  -- The plan for one more message: the oldest messages go, and the frame has a seat in the ring.
  pub record Plans (es : List FrameRef) : Type 0 where
    pub space : Space
    pub gone : List FrameRef
    pub left : List FrameRef
    pub parts : es ≡ gone ++ left
    pub space_holds :
        Holds m.byte h.ring_offset h.ring_size h.head_off (h.newest_seq + 1) space left
    pub seat : Seat m h e space left
    pub plans :
        plan_append h m (length e.payload) ≡ ok (planned h (size e) space seat.tail_next_off)

  sizes : h.ring_offset + h.ring_size ≤ m.len
  sizes = omega (arith, valid.ring_ends)

  next_u64 : e.seq ≡ h.newest_seq + 1 → IsU64 (h.newest_seq + 1)
  next_u64 numbered = omega (arith, v.seq_u64)

  module _ (es : List FrameRef)
      (holds : Holds m.byte h.ring_offset h.ring_size h.head_off
        (h.newest_seq + 1)
        (start_space h)
        es)
      (numbered : e.seq ≡ h.newest_seq + 1) where
    made :
        Made m h.ring_offset h.ring_size h.head_off
          (h.newest_seq + 1)
          sized
          sizes
          valid.head_in
          (next_u64 numbered)
          (size e)
          fits
          (suc h.ring_size)
          (start_space h)
          es
    made =
        make_space_lem m h.ring_offset h.ring_size h.head_off (h.newest_seq + 1) sized sizes
          valid.head_in (next_u64 numbered) (size e) fits (suc h.ring_size) (start_space h) es holds
          (omega arith) (inr (ground (arith, valid.head_in)))

    hinted :
        0 < made.space.oldest_seq
        → made.space.tail ≡ h.tail_off
        → h.tail_next_off ≡ made.space.tail_next_off
    hinted live at_tail = elim made.moved [
      | inl same ↦
          subst (λ (x : Space). 0 < x.oldest_seq → h.tail_next_off ≡ x.tail_next_off) (sym same)
            (λ some_oldest. ground (arith, some_oldest)) live
      | inr (inl empty) ↦ absurd (
          omega (
            arith,
            (Holds-none m.byte h.ring_offset h.ring_size h.head_off (h.newest_seq + 1) valid.head_in
                made.space made.left made.holds (inl empty)).oldest_zero,
          ))
      | inr (inr less) ↦ absurd (omega (arith, ap (span h.ring_size h.head_off) at_tail))
    ]

    pub plan_append_lem : Plans es
    unfolding plan_append
    plan_append_lem =
        let seat =
          place_lem m h e made.space made.left sized (omega (arith, valid.ring_starts)) sizes
            valid.head_in valid.head_aligned hinted v numbered fits made.enough made.holds in
        record {
          space = made.space;
          gone = made.gone;
          left = made.left;
          parts = made.parts;
          space_holds = made.holds;
          seat = seat;
          plans = rw (plan_checks-ok, made.made) seat.places;
        }
