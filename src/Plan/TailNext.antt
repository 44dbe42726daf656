-- ===== src/Plan/TailNext.antt =====
-- The tail's next offset that the planner puts into the header.
use plasmite.Prelude.{
  ℕ, ◌+◌, ◌≤◌, ◌<◌, ◌≡◌, ◌⊎◌, sym, inl, inr, arith, List, [], ◌∷◌, refl, subst, IsU64,
}
use plasmite.Error.{ok}
use plasmite.Buffer.{Buffer}
use plasmite.Header.{PoolHeader}
use plasmite.Cursor.{FrameRef, wrap_offset}
use plasmite.Plan.{Space, tail_next_after, compute_tail_next_off}
use plasmite.Plan.Step.{compute_tail_next_off-frame, compute_tail_next_off-gap}
use plasmite.Ring.{size, Gap, Hint}
use plasmite.Ring.Run.{Run-le}
use plasmite.Plan.Holds.{InOne, InTwo}
use plasmite.Plan.Placed.{space_of}
use native.Mathlib.Decide.{ℕ_discrete}

-- Where the tail's next offset comes from.
module _ (m : Buffer) (h : PoolHeader) (sized : IsU64 m.len)
    (placed : h.ring_offset + h.ring_size ≤ m.len) (len next : ℕ) (s : Space)
    (hinted : 0 < s.oldest_seq → s.tail ≡ h.tail_off → h.tail_next_off ≡ s.tail_next_off) where
  tail_next_after-live :
      (next_off : ℕ)
      → 0 < s.oldest_seq
      → compute_tail_next_off m h.ring_offset h.ring_size s.tail ≡ ok next_off
      → (t : ℕ) × (tail_next_after h m len s ≡ ok t) × ((t ≡ s.tail_next_off) ⊎ (t ≡ next_off))
  unfolding tail_next_after
  tail_next_after-live next_off live computes = elim (ℕ_discrete s.tail h.tail_off) [
    | yes same ↦ (h.tail_next_off, ground (arith, same), inl (hinted live same))
    | no other ↦ (next_off, ground (arith, other, computes), inr refl)
  ]

  -- The same messages with the next offset that is planned.
  pub tail_next-InOne :
      (es : List FrameRef)
      → InOne m.byte h.ring_offset h.ring_size h.head_off next s es
      → (t : ℕ) × (tail_next_after h m len s ≡ ok t)
        × InOne m.byte h.ring_offset h.ring_size h.head_off next (space_of s.tail t s.oldest_seq) es
  tail_next-InOne [] one = absurd (omega (arith, one.straight.run, one.straight.some))
  tail_next-InOne (e ∷ es) one =
      let (v, at, rest) = one.straight.run in
      let inside =
        Run-le m.byte h.ring_offset h.ring_size (s.tail + size e) one.straight.stop es rest in
      let (t, tail_next, known) =
        tail_next_after-live (wrap_offset (s.tail + size e) h.ring_size) one.live (
          compute_tail_next_off-frame m h.ring_offset h.ring_size sized placed s.tail e v
            (omega (arith, one.straight.inside)) at) in
      (
        t,
        tail_next,
        record {
          straight = one.straight;
          aligned = one.aligned;
          live = one.live;
          hint = elim known [
            | inl kept ↦
                subst (λ x. (x ≡ 0) ⊎ Hint h.ring_size s.tail x (e ∷ es)) (sym kept) one.hint
            | inr computed ↦ inr computed
          ];
          numbered = one.numbered;
        },
      )

  pub tail_next-InTwo :
      (before es : List FrameRef)
      → InTwo m.byte h.ring_offset h.ring_size h.head_off next s before es
      → (t : ℕ) × (tail_next_after h m len s ≡ ok t)
        × InTwo m.byte h.ring_offset h.ring_size h.head_off next
            (space_of s.tail t s.oldest_seq)
            before
            es
  tail_next-InTwo [] es two =
      let at_gap : s.tail ≡ two.split.stop = two.split.run_before in
      let gap = subst (Gap m.byte h.ring_offset h.ring_size) (sym at_gap) two.split.gap in
      let (t, tail_next, known) = tail_next_after-live 0 two.live (
        compute_tail_next_off-gap m h.ring_offset h.ring_size sized placed s.tail two.split.inside
          gap) in
      (
        t,
        tail_next,
        record {
          split = two.split;
          aligned = two.aligned;
          live = two.live;
          hint = inl (ground (arith, known, two.hint));
          numbered = two.numbered;
        },
      )
  tail_next-InTwo (e ∷ before) es two =
      let (v, at, rest) = two.split.run_before in
      let inside =
        Run-le m.byte h.ring_offset h.ring_size (s.tail + size e) two.split.stop before rest in
      let (t, tail_next, known) =
        tail_next_after-live (wrap_offset (s.tail + size e) h.ring_size) two.live (
          compute_tail_next_off-frame m h.ring_offset h.ring_size sized placed s.tail e v
            (omega (arith, two.split.gap.0)) at) in
      (
        t,
        tail_next,
        record {
          split = two.split;
          aligned = two.aligned;
          live = two.live;
          hint = elim known [
            | inl kept ↦
                subst (λ x. (x ≡ 0) ⊎ Hint h.ring_size s.tail x (e ∷ before)) (sym kept) two.hint
            | inr computed ↦ inr computed
          ];
          numbered = two.numbered;
        },
      )
