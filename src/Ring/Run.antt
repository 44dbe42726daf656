-- ===== src/Ring/Run.antt =====
-- Runs of messages: where they end, and a message behind one.
use plasmite.Prelude.{ℕ, ◌+◌, ◌≤◌, ◌<◌, ◌≡◌, ◌∙◌, sym, arith, List, [], ◌∷◌, ◌++◌, refl, subst, ap}
use plasmite.Cursor.{FrameRef}
use plasmite.Ring.{size, IsMessage, FrameAt, Run, Numbered}

module _ (f : ℕ → ℕ) (ring_offset ring_size : ℕ) where
  pub Run-le :
      (off stop : ℕ) (es : List FrameRef) → Run f ring_offset ring_size off stop es → off ≤ stop
  Run-le off stop [] h = omega arith
  Run-le off stop (e ∷ es) (v, at, rest) = omega (arith, Run-le (off + size e) stop es rest)

  -- A run from the end of the ring is empty.
  pub Run-end :
      (off stop : ℕ) (es : List FrameRef)
      → Run f ring_offset ring_size off stop es
      → off ≡ ring_size
      → stop ≤ ring_size
      → es ≡ []
  Run-end off stop [] h full inside = refl
  Run-end off stop (e ∷ es) (v, at, rest) full inside =
      absurd (omega (arith, Run-le (off + size e) stop es rest))

  pub Run-snoc :
      (off stop : ℕ) (es : List FrameRef) (e : FrameRef)
      → Run f ring_offset ring_size off stop es
      → IsMessage ring_size e
      → FrameAt f (ring_offset + stop) e
      → Run f ring_offset ring_size off (stop + size e) (es ++ (e ∷ []))
  Run-snoc off stop [] e run v at =
      (v, subst (λ x. FrameAt f (ring_offset + x) e) (sym run) at, ap (λ x. x + size e) run)
  Run-snoc off stop (e' ∷ es) e (v', at', rest) v at =
      (v', at', Run-snoc (off + size e') stop es e rest v at)

pub Numbered-snoc :
    (first next : ℕ) (es : List FrameRef) (e : FrameRef)
    → Numbered first next es
    → e.seq ≡ next
    → Numbered first (next + 1) (es ++ (e ∷ []))
Numbered-snoc first next [] e h same = (same ∙ sym h, ap (λ x. x + 1) h)
Numbered-snoc first next (e' ∷ es) e (h, hs) same = (h, Numbered-snoc (first + 1) next es e hs same)

pub Numbered-le : (first next : ℕ) (es : List FrameRef) → Numbered first next es → first ≤ next
Numbered-le first next [] h = omega arith
Numbered-le first next (e ∷ es) (_, h) = omega (arith, Numbered-le (first + 1) next es h)

pub Numbered-lt :
    (first next : ℕ) (e : FrameRef) (es : List FrameRef)
    → Numbered first next (e ∷ es)
    → first < next
Numbered-lt first next e es (_, h) = omega (arith, Numbered-le (first + 1) next es h)
