-- ===== src/Plan/Dropped.antt =====
-- One round of the loop that makes space in `plan_append`, on a sound ring: it drops the oldest message, or goes
-- past the gap behind the last message before the end of the ring.
use plasmite.Prelude.{
  ℕ, ◌+◌, ◌%◌, ◌≤◌, ◌<◌, ◌≡◌, ◌≢◌, ◌⊎◌, refl, sym, subst, inl, inr, arith, some, List, [], ◌∷◌,
  ◌++◌, IsU64,
}
use plasmite.Error.{ok}
use plasmite.Buffer.{Buffer}
use plasmite.Cursor.{FrameRef, wrap_offset}
use plasmite.Plan.{DropStep, Drop, Space, next_drop, after_drop}
use plasmite.Plan.Step.{next_drop-frame, next_drop-gap}
use native.Mathlib.Decide.{dec_lt}
use plasmite.Ring.{size, Gap, Run, Straight, Split, Numbered}
use plasmite.Ring.Run.{Numbered-lt, Run-le, Run-end}
use plasmite.Plan.Holds.{span, InOne, InTwo, Holds}

module _ (m : Buffer) (ring_offset ring_size head next : ℕ) (sized : IsU64 m.len)
    (placed : ring_offset + ring_size ≤ m.len) (head_in : head < ring_size)
    (next_u64 : IsU64 next) where
  -- One round: the messages that are left are all, or all but the oldest, and the span shrinks.
  pub record Dropped (s : Space) (es : List FrameRef) : Type 0 where
    pub step : Drop
    pub dropped : next_drop m ring_offset ring_size head s ≡ ok (some step)
    pub left : List FrameRef
    pub gone : List FrameRef
    pub parts : es ≡ gone ++ left
    pub holds : Holds m.byte ring_offset ring_size head next (after_drop head s step) left
    pub shrinks :
        (left ≡ [])
        ⊎ (span ring_size head (after_drop head s step).tail < span ring_size head s.tail)

  -- The loop's variables after a step whose new tail is not the head.
  module _ (s : Space) (step : DropStep) (tail oldest t o : ℕ) (at : tail ≡ t) (counts : oldest ≡ o)
      (live : 0 < o) (apart : t ≢ head) (aligned : t % 8 ≡ 0) where
    after : Space
    after = after_drop head s (step, tail, oldest)

    after_tail : after.tail ≡ t
    unfolding after after_drop
    after_tail = at

    after_next : after.tail_next_off ≡ 0
    unfolding after after_drop
    after_next = ground arith

    after_oldest : after.oldest_seq ≡ o
    unfolding after after_drop
    after_oldest = ground arith

    after-InOne :
        (es : List FrameRef)
        → Straight m.byte ring_offset ring_size t head es
        → Numbered o next es
        → InOne m.byte ring_offset ring_size head next after es
    after-InOne es straight numbered = record {
      straight =
          subst (λ x. Straight m.byte ring_offset ring_size x head es) (sym after_tail) straight;
      aligned = omega (arith, after_tail);
      live = omega (arith, after_oldest);
      hint = inl after_next;
      numbered = subst (λ x. Numbered x next es) (sym after_oldest) numbered;
    }

    after-InTwo :
        (before es : List FrameRef)
        → Split m.byte ring_offset ring_size t head before es
        → Numbered o next es
        → InTwo m.byte ring_offset ring_size head next after before es
    after-InTwo before es split numbered = record {
      split =
          subst (λ x. Split m.byte ring_offset ring_size x head before es) (sym after_tail) split;
      aligned = omega (arith, after_tail);
      live = omega (arith, after_oldest);
      hint = inl after_next;
      numbered = subst (λ x. Numbered x next es) (sym after_oldest) numbered;
    }

  pub drop-InOne :
      (s : Space) (es : List FrameRef)
      → InOne m.byte ring_offset ring_size head next s es
      → Dropped s es
  unfolding after_drop after
  drop-InOne s [] h = absurd (omega arith)
  drop-InOne s (e ∷ []) h =
      let (v, at, rest) = h.straight.run in
      let ends : s.tail + size e ≡ h.straight.stop = rest in
      let (oldest, dropped, _) =
        next_drop-frame m ring_offset ring_size sized placed s.tail e v (omega arith) at head s refl
          h.live h.numbered.0 h.hint in
      let at_head : wrap_offset (s.tail + size e) ring_size ≡ head =
        rw ends (sym h.straight.ends) in
      record {
        step = _;
        dropped = dropped;
        left = [];
        gone = e ∷ [];
        parts = refl;
        holds =
            inl (record { oldest_zero = ground arith; tail_at_head = at_head; no_messages = refl });
        shrinks = inl refl;
      }
  drop-InOne s (e ∷ (e' ∷ es)) h =
      let (v, at, rest) = h.straight.run in
      let stop = h.straight.stop in
      let t : ℕ = s.tail + size e in
      let behind : t + size e' ≤ stop =
        Run-le m.byte ring_offset ring_size (t + size e') stop es rest.2 in
      let same : wrap_offset (s.tail + size e) ring_size ≡ t = ground arith in
      let apart : t ≢ head = λ (e : t ≡ head). ground (arith, h.straight.ends, h.straight.inside) in
      let (oldest, dropped, count) =
        next_drop-frame m ring_offset ring_size sized placed s.tail e v (omega arith) at head s refl
          h.live h.numbered.0 h.hint in
      let counts : oldest ≡ s.oldest_seq + 1 =
        ground (arith, Numbered-lt s.oldest_seq next e (e' ∷ es) h.numbered) in
      record {
        step = _;
        dropped = dropped;
        left = e' ∷ es;
        gone = e ∷ [];
        parts = refl;
        holds = inr (
            inl (
              after-InOne s _ _ _ t (s.oldest_seq + 1) same counts (omega arith) apart
                (omega (arith, h.aligned)) (e' ∷ es)
                (record {
                  stop = stop;
                  run = rest;
                  some = omega arith;
                  inside = h.straight.inside;
                  ends = h.straight.ends;
                })
                h.numbered.1));
        shrinks = inr (ground (arith, h.straight.ends, h.straight.inside));
      }

  pub drop-InTwo :
      (s : Space) (before es : List FrameRef)
      → InTwo m.byte ring_offset ring_size head next s before es
      → Dropped s es
  unfolding after_drop after
  drop-InTwo s [] es h =
      let at_gap : s.tail ≡ h.split.stop = h.split.run_before in
      let gap = subst (Gap m.byte ring_offset ring_size) (sym at_gap) h.split.gap in
      let (step, dropped) =
        next_drop-gap m ring_offset ring_size sized placed s.tail h.split.inside gap head s refl
          h.live h.split.some (omega arith) in
      record {
        step = _;
        dropped = dropped;
        left = es;
        gone = [];
        parts = refl;
        holds = inr (
            inl (
              after-InOne s _ _ _ 0 s.oldest_seq refl refl h.live (omega arith) refl es
                (record {
                  stop = head;
                  run =
                      subst (Run m.byte ring_offset ring_size 0 head) (sym h.split.parts)
                        h.split.run_after;
                  some = h.split.some;
                  inside = omega arith;
                  ends = ground arith;
                })
                h.numbered));
        shrinks = inr (ground arith);
      }
  drop-InTwo s (e ∷ before) es h =
      let (v, at, rest) = h.split.run_before in
      let t : ℕ = s.tail + size e in
      let inside : t ≤ ring_size =
        omega (arith, Run-le m.byte ring_offset ring_size t h.split.stop before rest) in
      let numbers = subst (Numbered s.oldest_seq next) h.split.parts h.numbered in
      let (oldest, dropped, count) =
        next_drop-frame m ring_offset ring_size sized placed s.tail e v (omega arith) at head s refl
          h.live numbers.0 h.hint in
      let low = Numbered-lt s.oldest_seq next e (before ++ h.split.after) numbers in
      let (empty, some_after) : ((t ≡ ring_size) → before ≡ []) × (0 < h.split.stop) = (
        λ full. Run-end m.byte ring_offset ring_size t h.split.stop before rest full h.split.gap.0,
        omega (arith, Run-le m.byte ring_offset ring_size t h.split.stop before rest),
      ) in
      elim (dec_lt t ring_size) [
        | yes within ↦
            let same : wrap_offset t ring_size ≡ t = ground arith in
            let counts : oldest ≡ s.oldest_seq + 1 = ground (arith, low) in
            record {
              step = _;
              dropped = dropped;
              left = before ++ h.split.after;
              gone = e ∷ [];
              parts = h.split.parts;
              holds = inr (
                  inr (
                    before,
                    after-InTwo s _ _ _ t (s.oldest_seq + 1) same counts (omega arith) (omega arith)
                        (omega (arith, h.aligned)) before (before ++ h.split.after)
                        (record {
                          after = h.split.after;
                          stop = h.split.stop;
                          parts = refl;
                          run_before = rest;
                          gap = h.split.gap;
                          run_after = h.split.run_after;
                          some = h.split.some;
                          apart = omega arith;
                          inside = within;
                        })
                        numbers.1,
                  ));
              shrinks = inr (ground arith);
            }
        | no full ↦
            let same : wrap_offset t ring_size ≡ 0 = ground arith in
            let counts : oldest ≡ s.oldest_seq + 1 = ground (arith, low) in
            let alone = empty (omega arith) in
            record {
              step = _;
              dropped = dropped;
              left = before ++ h.split.after;
              gone = e ∷ [];
              parts = h.split.parts;
              holds = inr (
                  inl (
                    after-InOne s _ _ _ 0 (s.oldest_seq + 1) same counts (omega arith) (omega arith)
                      refl (before ++ h.split.after)
                      (record {
                        stop = head;
                        run =
                            subst
                              (λ x. Run m.byte ring_offset ring_size 0 head (x ++ h.split.after))
                              (sym alone) h.split.run_after;
                        some = h.split.some;
                        inside = omega arith;
                        ends = ground arith;
                      })
                      numbers.1));
              shrinks = inr (ground arith);
            }
      ]
