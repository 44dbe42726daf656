-- ===== src/Plan/Loop.antt =====
-- The loop of `plan_append` that makes space, on a sound ring: it ends, and it finds the space.
use plasmite.Prelude.{
  ℕ, zero, suc, ◌+◌, ◌≤◌, ◌<◌, ◌≡◌, ◌⊎◌, refl, sym, ap, subst, ◌∙◌, inl, inr, arith, some, List, [],
  ◌∷◌, ◌++◌, IsU64, true, false, Bool-cases,
}
use plasmite.Error.{ok}
use plasmite.Buffer.{Buffer}
use plasmite.Cursor.{FrameRef}
use plasmite.Plan.{
  used_space, free_space, Drop, Space, next_drop, after_drop, lacks_space, make_space,
}
use mathlib.Core.List
use plasmite.Plan.Facts.{Holds-none, Holds-live, tail_inside}
use plasmite.Plan.Holds.{span, Holds}
use plasmite.Plan.Dropped.{Dropped, drop-InOne, drop-InTwo}

module _ (m : Buffer) (ring_offset ring_size head next : ℕ) (sized : IsU64 m.len)
    (placed : ring_offset + ring_size ≤ m.len) (head_in : head < ring_size)
    (next_u64 : IsU64 next) where
  drop_step :
      (s : Space) (es : List FrameRef)
      → Holds m.byte ring_offset ring_size head next s es
      → 0 < s.oldest_seq
      → Dropped m ring_offset ring_size head next sized placed head_in next_u64 s es
  drop_step s es (inl empty) live = absurd (omega (arith, empty.oldest_zero))
  drop_step s es (inr (inl one)) live =
      drop-InOne m ring_offset ring_size head next sized placed head_in next_u64 s es one
  drop_step s es (inr (inr (before, two))) live =
      drop-InTwo m ring_offset ring_size head next sized placed head_in next_u64 s before es two

  pub span_some :
      (s : Space) (es : List FrameRef)
      → Holds m.byte ring_offset ring_size head next s es
      → 0 < span ring_size head s.tail
  span_some s es h =
      ground (arith, tail_inside m.byte ring_offset ring_size head next head_in s es h)

  module _ (frame_len : ℕ) (fits : frame_len ≤ ring_size) where
    -- What the loop makes of the ring: it drops the oldest messages.
    pub record Made (rounds : ℕ) (s : Space) (es : List FrameRef) : Type 0 where
      pub space : Space
      pub made : make_space rounds m ring_offset ring_size head frame_len s ≡ ok space
      pub left : List FrameRef
      pub gone : List FrameRef
      pub parts : es ≡ gone ++ left
      pub holds : Holds m.byte ring_offset ring_size head next space left
      pub enough : lacks_space head frame_len ring_size space ≡ false
      pub moved :
          (space ≡ s) ⊎ (left ≡ []) ⊎ (span ring_size head space.tail < span ring_size head s.tail)

    make_space-enough :
        (rounds : ℕ) (s : Space)
        → lacks_space head frame_len ring_size s ≡ false
        → make_space (suc rounds) m ring_offset ring_size head frame_len s ≡ ok s
    unfolding make_space
    make_space-enough rounds s e = rw e

    make_space-lacks :
        (rounds : ℕ) (s : Space) (d : Drop)
        → lacks_space head frame_len ring_size s ≡ true
        → next_drop m ring_offset ring_size head s ≡ ok (some d)
        → make_space (suc rounds) m ring_offset ring_size head frame_len s
          ≡ make_space rounds m ring_offset ring_size head frame_len (after_drop head s d)
    unfolding make_space
    make_space-lacks rounds s d e e' = rw (e, e')

    made_again :
        (rounds : ℕ) (s : Space) (es : List FrameRef)
        → lacks_space head frame_len ring_size s ≡ true
        → (d : Dropped m ring_offset ring_size head next sized placed head_in next_u64 s es)
        → Made rounds (after_drop head s d.step) d.left
        → Made (suc rounds) s es
    made_again rounds s es lacks d r = record {
      space = r.space;
      made = make_space-lacks rounds s d.step lacks d.dropped ∙ r.made;
      left = r.left;
      gone = d.gone ++ r.gone;
      parts =
          d.parts ∙ ap (λ x. d.gone ++ x) r.parts ∙ sym (List.append_assoc d.gone r.gone r.left);
      holds = r.holds;
      enough = r.enough;
      moved = elim d.shrinks [
        | inl empty ↦ inr (inl (left_empty empty))
        | inr less ↦ elim r.moved [
          | inl same ↦ inr (
              inr (
                subst (λ x. span ring_size head x.tail < span ring_size head s.tail) (sym same)
                  less))
          | inr (inl empty) ↦ inr (inl empty)
          | inr (inr less_yet) ↦ inr (inr (omega arith))
        ]
      ];
    }
      where
        append-empty : (xs ys : List FrameRef) → [] ≡ xs ++ ys → ys ≡ []
        append-empty [] ys e = sym e
        append-empty (x ∷ xs) ys e = absurd (grind (arith, e))

        left_empty : d.left ≡ [] → r.left ≡ []
        left_empty e = append-empty r.gone r.left (sym e ∙ r.parts)

    lacks_space-live :
        (s : Space)
        → (0 < s.oldest_seq) ⊎ (s.tail ≡ head)
        → lacks_space head frame_len ring_size s ≡ true
        → 0 < s.oldest_seq
    unfolding lacks_space free_space used_space
    lacks_space-live s (inl live) h = live
    lacks_space-live s (inr at_head) h = ground arith

    pub make_space_lem :
        (rounds : ℕ) (s : Space) (es : List FrameRef)
        → Holds m.byte ring_offset ring_size head next s es
        → 0 < rounds
        → (s.oldest_seq ≡ 0) ⊎ (span ring_size head s.tail < rounds)
        → Made rounds s es
    make_space_lem zero s es h k l = absurd (omega arith)
    make_space_lem (suc rounds) s es h k l =
        elim (Bool-cases (lacks_space head frame_len ring_size s)) [
          | inl lacks ↦
              let live =
                lacks_space-live s
                  (Holds-live m.byte ring_offset ring_size head next head_in s es h) lacks in
              let d = drop_step s es h live in
              made_again rounds s es lacks d (
                make_space_lem rounds (after_drop head s d.step) d.left d.holds
                  (omega (arith, span_some s es h))
                  (elim d.shrinks [
                    | inl empty ↦ inl (
                        (Holds-none m.byte ring_offset ring_size head next head_in
                          (after_drop head s d.step) d.left d.holds (inl empty)).oldest_zero)
                    | inr less ↦ inr (omega arith)
                  ]))
          | inr enough ↦ record {
            space = s;
            made = make_space-enough rounds s enough;
            left = es;
            gone = [];
            parts = refl;
            holds = h;
            enough = enough;
            moved = inl refl;
          }
        ]
