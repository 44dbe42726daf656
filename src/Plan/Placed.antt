-- ===== src/Plan/Placed.antt =====
-- A ring with one more frame: behind the newest message, at the start of the ring, or in the space
-- between the newest message and the oldest.
use plasmite.Prelude.{
  ℕ, ◌+◌, ◌%◌, ◌≤◌, ◌<◌, ◌≡◌, ◌⊎◌, ◌∙◌, inl, inr, arith, List, [], ◌∷◌, ◌++◌, refl, subst, ap,
}
use plasmite.Cursor.{FrameRef, wrap_offset}
use plasmite.Plan.{Space}
use plasmite.Ring.{size, IsMessage, FrameAt, Run, Gap, Hint}
use plasmite.Ring.Run.{Run-le, Run-snoc, Numbered-snoc}
use plasmite.Ring.Agree.{SameFrom, Run-same, Gap-same}
use plasmite.Plan.Holds.{InOne, InTwo}
use mathlib.Core.List

abbrev pub space_of : ℕ → ℕ → ℕ → Space
space_of tail tail_next_off oldest_seq = record {
  tail = tail;
  tail_next_off = tail_next_off;
  oldest_seq = oldest_seq;
  drops = [];
}

Hint-snoc :
    (ring_size tail next : ℕ) (es : List FrameRef) (e : FrameRef)
    → (next ≡ 0) ⊎ Hint ring_size tail next es
    → (next ≡ 0) ⊎ Hint ring_size tail next (es ++ (e ∷ []))
Hint-snoc ring_size tail next es e (inl none_known) = inl none_known
Hint-snoc ring_size tail next [] e (inr hint) = inl hint
Hint-snoc ring_size tail next (e' ∷ es) e (inr hint) = inr hint

module _ (f g : ℕ → ℕ) (ring_offset ring_size next : ℕ) (e : FrameRef) (v : IsMessage ring_size e)
    (numbered : e.seq ≡ next) where
  pub place_alone :
      (at : ℕ)
      → at % 8 ≡ 0
      → 0 < next
      → at + size e ≤ ring_size
      → FrameAt g (ring_offset + at) e
      → InOne g ring_offset ring_size
          (wrap_offset (at + size e) ring_size)
          (next + 1)
          (space_of at (wrap_offset (at + size e) ring_size) next)
          (e ∷ [])
  place_alone at aligned first fits frame = record {
    straight = record {
      stop = at + size e;
      run = (v, frame, refl);
      some = omega arith;
      inside = fits;
      ends = refl;
    };
    aligned = aligned;
    live = first;
    hint = inr refl;
    numbered = (numbered, refl);
  }

  module _ (tail tail_next_off oldest head : ℕ) (es : List FrameRef) where
    pub place_behind :
        InOne f ring_offset ring_size head next (space_of tail tail_next_off oldest) es
        → tail < head
        → head + size e ≤ ring_size
        → SameFrom f g ring_offset tail head
        → FrameAt g (ring_offset + head) e
        → InOne g ring_offset ring_size
            (wrap_offset (head + size e) ring_size)
            (next + 1)
            (space_of tail tail_next_off oldest)
            (es ++ (e ∷ []))
    place_behind h behind fits same frame =
        let stop = h.straight.stop in
        let at_head : stop ≡ head = ground (arith, h.straight.ends) in
        let run =
          Run-same f g ring_offset ring_size tail stop es (λ i a b. same i a (omega arith))
            h.straight.run in
        record {
          straight = record {
            stop = head + size e;
            run =
                Run-snoc g ring_offset ring_size tail head es e
                  (subst (λ x. Run g ring_offset ring_size tail x es) at_head run) v frame;
            some = omega arith;
            inside = fits;
            ends = refl;
          };
          aligned = h.aligned;
          live = h.live;
          hint = Hint-snoc ring_size tail tail_next_off es e h.hint;
          numbered = Numbered-snoc oldest next es e h.numbered numbered;
        }

    pub place_at_start :
        (h : InOne f ring_offset ring_size head next (space_of tail tail_next_off oldest) es)
        → size e ≤ tail
        → SameFrom f g ring_offset tail h.straight.stop
        → FrameAt g (ring_offset + 0) e
        → Gap g ring_offset ring_size h.straight.stop
        → InTwo g ring_offset ring_size
            (size e)
            (next + 1)
            (space_of tail tail_next_off oldest)
            es
            (es ++ (e ∷ []))
    place_at_start h room same frame gap =
        let stop = h.straight.stop in
        record {
          split = record {
            after = e ∷ [];
            stop = stop;
            parts = refl;
            run_before = Run-same f g ring_offset ring_size tail stop es same h.straight.run;
            gap = gap;
            run_after = (v, frame, omega arith);
            some = omega arith;
            apart = room;
            inside = omega (arith, h.straight.some, h.straight.inside);
          };
          aligned = h.aligned;
          live = h.live;
          hint = h.hint;
          numbered = Numbered-snoc oldest next es e h.numbered numbered;
        }

    pub place_between :
        (before : List FrameRef)
        → InTwo f ring_offset ring_size head next (space_of tail tail_next_off oldest) before es
        → head + size e ≤ tail
        → SameFrom f g ring_offset 0 head
        → SameFrom f g ring_offset tail ring_size
        → FrameAt g (ring_offset + head) e
        → InTwo g ring_offset ring_size
            (head + size e)
            (next + 1)
            (space_of tail tail_next_off oldest)
            before
            (es ++ (e ∷ []))
    place_between before h room same_low same_high frame =
        let stop = h.split.stop in
        let behind = Run-le f ring_offset ring_size tail stop before h.split.run_before in
        let after = h.split.after in
        record {
          split = record {
            after = after ++ (e ∷ []);
            stop = stop;
            parts = ap (λ x. x ++ (e ∷ [])) h.split.parts ∙ List.append_assoc before after (e ∷ []);
            run_before =
                Run-same f g ring_offset ring_size tail stop before
                  (λ i a b. same_high i a (omega (arith, h.split.gap.0))) h.split.run_before;
            gap =
                Gap-same f g ring_offset ring_size stop (λ i a b. same_high i (omega arith) b)
                  h.split.gap;
            run_after =
                Run-snoc g ring_offset ring_size 0 head after e
                  (Run-same f g ring_offset ring_size 0 head after same_low h.split.run_after) v
                  frame;
            some = omega arith;
            apart = room;
            inside = h.split.inside;
          };
          aligned = h.aligned;
          live = h.live;
          hint = h.hint;
          numbered = Numbered-snoc oldest next es e h.numbered numbered;
        }
