-- ===== src/Plan/Facts.antt =====
-- What the loop's variables satisfy where they describe a ring.
use plasmite.Prelude.{
  ℕ, ◌+◌, ◌%◌, ◌≤◌, ◌<◌, ◌≡◌, ◌≢◌, ◌⊎◌, ◌∙◌, sym, inl, inr, arith, List, [], ◌∷◌, ◌++◌, refl,
}
use plasmite.Cursor.{FrameRef}
use plasmite.Plan.{Space}
use plasmite.Plan.Holds.{Emptied, Holds}
use plasmite.Ring.{size, Hint, Run, Straight}
use plasmite.Ring.Run.{Run-le, Numbered-lt}

module _ (f : ℕ → ℕ) (ring_offset ring_size head next : ℕ) (head_in : head < ring_size) where
  Straight-some :
      (tail : ℕ) (es : List FrameRef) → Straight f ring_offset ring_size tail head es → es ≢ []
  Straight-some tail [] h e = absurd (omega (arith, h.run, h.some))
  Straight-some tail (e' ∷ es) h e = absurd (grind (arith, e))

  Split-some :
      (before after : List FrameRef)
      → Run f ring_offset ring_size 0 head after
      → 0 < head
      → before ++ after ≢ []
  Split-some [] [] run some_head e = absurd (omega (arith, run))
  Split-some [] (e' ∷ after) run some_head e = absurd (grind (arith, e))
  Split-some (e' ∷ before) after run some_head e = absurd (grind (arith, e))

  -- The variables tell a ring that holds no message.
  pub Holds-none :
      (s : Space) (es : List FrameRef)
      → Holds f ring_offset ring_size head next s es
      → (es ≡ []) ⊎ (s.oldest_seq ≡ 0)
      → Emptied f ring_offset ring_size head next s es
  Holds-none s es (inl empty) h = empty
  Holds-none s es (inr (inl one)) (inl empty) = absurd (Straight-some s.tail es one.straight empty)
  Holds-none s es (inr (inl one)) (inr none_left) = absurd (omega (arith, one.live))
  Holds-none s es (inr (inr (before, two))) (inl empty) = absurd (
      Split-some before two.split.after two.split.run_after two.split.some
        (sym two.split.parts ∙ empty))
  Holds-none s es (inr (inr (before, two))) (inr none_left) = absurd (omega (arith, two.live))

  pub Holds-live :
      (s : Space) (es : List FrameRef)
      → Holds f ring_offset ring_size head next s es
      → (0 < s.oldest_seq) ⊎ (s.tail ≡ head)
  Holds-live s es (inl empty) = inr empty.tail_at_head
  Holds-live s es (inr (inl one)) = inl one.live
  Holds-live s es (inr (inr (before, two))) = inl two.live

  pub tail_inside :
      (s : Space) (es : List FrameRef)
      → Holds f ring_offset ring_size head next s es
      → s.tail < ring_size
  tail_inside s es (inl empty) = omega (arith, empty.tail_at_head)
  tail_inside s es (inr (inl one)) = omega (arith, one.straight.some, one.straight.inside)
  tail_inside s es (inr (inr (before, two))) = two.split.inside

  -- The oldest message comes before the one that is next.
  pub oldest-lt :
      (s : Space) (es : List FrameRef)
      → Holds f ring_offset ring_size head next s es
      → 0 < s.oldest_seq
      → s.oldest_seq < next
  oldest-lt s [] holds live = absurd (omega (arith, (Holds-none s [] holds (inl refl)).oldest_zero))
  oldest-lt s (e ∷ es) (inl empty) live = absurd (omega (arith, empty.oldest_zero))
  oldest-lt s (e ∷ es) (inr (inl one)) live = Numbered-lt s.oldest_seq next e es one.numbered
  oldest-lt s (e ∷ es) (inr (inr (before, two))) live =
      Numbered-lt s.oldest_seq next e es two.numbered

  pub tail_aligned :
      (s : Space) (es : List FrameRef)
      → Holds f ring_offset ring_size head next s es
      → 0 < s.oldest_seq
      → s.tail % 8 ≡ 0
  tail_aligned s es (inl empty) live = absurd (omega (arith, empty.oldest_zero))
  tail_aligned s es (inr (inl one)) live = one.aligned
  tail_aligned s es (inr (inr (before, two))) live = two.aligned

  Hint-inside :
      (s : Space) (stop : ℕ) (es' : List FrameRef)
      → (s.tail_next_off ≡ 0) ⊎ Hint ring_size s.tail s.tail_next_off es'
      → Run f ring_offset ring_size s.tail stop es'
      → stop ≤ ring_size
      → s.tail % 8 ≡ 0
      → (s.tail_next_off < ring_size) × (s.tail_next_off % 8 ≡ 0)
  Hint-inside s stop es' (inl unknown) run inside aligned = (omega arith, omega arith)
  Hint-inside s stop [] (inr hint) run inside aligned = (omega arith, omega arith)
  Hint-inside s stop (e ∷ es') (inr hint) (v, at, rest) inside aligned =
      let behind = Run-le f ring_offset ring_size (s.tail + size e) stop es' rest in
      (ground (arith, hint), ground (arith, hint))

  pub tail_next_inside :
      (s : Space) (es : List FrameRef)
      → Holds f ring_offset ring_size head next s es
      → 0 < s.oldest_seq
      → (s.tail_next_off < ring_size) × (s.tail_next_off % 8 ≡ 0)
  tail_next_inside s es (inl empty) live = absurd (omega (arith, empty.oldest_zero))
  tail_next_inside s es (inr (inl one)) live =
      Hint-inside s one.straight.stop es one.hint one.straight.run one.straight.inside one.aligned
  tail_next_inside s es (inr (inr (before, two))) live =
      Hint-inside s two.split.stop before two.hint two.split.run_before two.split.gap.0 two.aligned
