-- ===== src/Stream/Laws.antt =====
-- What a tail returns has passed its filters.
use plasmite.Prelude.{
  ℕ, ◌+◌, ◌≤◌, ◌≡◌, inl, inr, arith, Option, none, some, List, [], ◌∷◌, ltb, leb, Bool-cases, true,
  false,
}
use plasmite.Cursor.{FrameRef, CursorResult}
use plasmite.Error.Laws.{>>=-eq-ok}
use plasmite.Cursor
use plasmite.Error.{Result, ok}
use plasmite.Stream.{
  Tail, Round, has_required_tags, deliver, on_frame, on_result, next_loop, next_message,
  is_some_and,
}

module _ {T : Type 0} (tags_of : T → List (List ℕ)) (decode : FrameRef → Result T) where
  -- An answer with a message: the message has the tags, one more is seen, and the options are kept.
  abbrev pub Passes : Tail → Result (Tail × Option T) → Type 0
  Passes t r =
      (t' : Tail) (message : T)
      → r ≡ ok (t', some message)
      → (has_required_tags (tags_of message) t.options.tags ≡ true) × (t'.seen ≡ t.seen + 1)

  deliver-Passes :
      (again : Tail → Result (Tail × Option T)) (t : Tail) (message : T)
      → Passes t (again t)
      → Passes t (deliver tags_of decode again t message)
  unfolding deliver
  deliver-Passes again t message h t' message' e =
      elim (Bool-cases (has_required_tags (tags_of message) t.options.tags)) [
        | inl has ↦ (let e' = rw has at e in (grind (arith, e', has), grind (arith, e')))
        | inr lacks ↦ h t' message' (rw lacks at e)
      ]

  on_frame-Passes :
      (again : Tail → Result (Tail × Option T)) (t : Tail) (frame : FrameRef)
      → Passes t (again t)
      → Passes t (on_frame tags_of decode again t frame)
  unfolding on_frame
  on_frame-Passes again t frame h t' message e =
      elim (Bool-cases (is_some_and (λ min_seq. ltb frame.seq min_seq) t.options.since_seq)) [
        | inl before ↦ h t' message (rw before at e)
        | inr from_there ↦
            let (decoded, _, delivers) =
              >>=-eq-ok (decode frame) (deliver tags_of decode again t) (rw from_there at e) in
            deliver-Passes again t decoded h t' message delivers
      ]

  on_result-Passes :
      (again : Tail → Result (Tail × Option T)) (t : Tail) (r : CursorResult)
      → Passes t (again t)
      → Passes t (on_result tags_of decode again t r)
  unfolding on_result
  on_result-Passes again t (CursorResult.message frame) h = on_frame-Passes again t frame h
  on_result-Passes again t CursorResult.would_block h = h
  on_result-Passes again t CursorResult.fell_behind h = h

  next_loop-Passes : (rounds : List Round) (t : Tail) → Passes t (next_loop tags_of decode rounds t)
  unfolding next_loop
  next_loop-Passes [] t t' message e = absurd (grind (arith, e))
  next_loop-Passes (round ∷ rounds) t t' message e =
      elim (Bool-cases (is_some_and (λ deadline. leb deadline round.now) t.deadline)) [
        | inl late ↦ absurd (grind (arith, rw late at e))
        | inr early ↦
            let (r, _, answers) =
              >>=-eq-ok (Cursor.next round.mmap t.cursor)
                (λ r.
                  on_result tags_of decode (λ t'. next_loop tags_of decode rounds t')
                    (record t { cursor = r.0 }) r.1)
                (rw early at e) in
            on_result-Passes (λ t'. next_loop tags_of decode rounds t') (record t { cursor = r.0 })
              r.1 (next_loop-Passes rounds (record t { cursor = r.0 })) t' message answers
      ]

-- No more than were asked for, where a number was asked for.
abbrev pub Within : Option ℕ → ℕ → Type 0
Within none seen = Unit {0}
Within (some max) seen = seen ≤ max

below-Within :
    (max_messages : Option ℕ) (seen seen' : ℕ)
    → is_some_and (λ max. leb max seen) max_messages ≡ false
    → seen' ≡ seen + 1
    → Within max_messages seen'
below-Within none seen seen' below counted = tt
below-Within (some max) seen seen' below counted = ground (arith, below)

-- A message that a tail returns has all the tags asked for, the tail counts it, and no more messages
-- are counted than were asked for if a number was given, whatever the clock and the pool were in the
-- rounds before.
pub next_message_lem :
    {T : Type 0} (tags_of : T → List (List ℕ)) (decode : FrameRef → Result T) (rounds : List Round)
    (t t' : Tail) (message : T)
    → next_message tags_of decode rounds t ≡ ok (t', some message)
    → (has_required_tags (tags_of message) t.options.tags ≡ true)
      × (t'.seen ≡ t.seen + 1)
      × Within t.options.max_messages t'.seen
unfolding next_message
next_message_lem tags_of decode rounds t t' message e =
    elim (Bool-cases (is_some_and (λ max. leb max t.seen) t.options.max_messages)) [
      | inl over ↦ absurd (grind (arith, rw over at e))
      | inr below ↦
          let (has, counted) =
            next_loop-Passes tags_of decode rounds t t' message (rw below at e) in
          (has, counted, below-Within t.options.max_messages t.seen t'.seen below counted)
    ]
