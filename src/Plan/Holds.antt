-- ===== src/Plan/Holds.antt =====
-- What the variables of `plan_append`'s loop say of the messages that the ring holds.
use plasmite.Prelude.{ℕ, ◌+◌, ◌-◌, ◌%◌, ◌<◌, ◌≡◌, ◌⊎◌, List, [], ltb, ◌==◌, if◌then◌else◌}
use plasmite.Cursor.{FrameRef}
use plasmite.Plan.{Space}
use plasmite.Ring.{Hint, Straight, Split, Numbered}

-- The bytes from the tail round to the head, in a ring that holds a message.
abbrev pub span : ℕ → ℕ → ℕ → ℕ
span ring_size head tail =
    if head == 0
    then ring_size - tail
    else if ltb tail head
    then head - tail
    else ring_size - tail + head

-- What the variables of the loop say of a ring that holds the messages `es`; `next` follows the
-- newest sequence number.
module _ (f : ℕ → ℕ) (ring_offset ring_size head next : ℕ) where
  pub record Emptied (s : Space) (es : List FrameRef) : Type 0 where
    pub oldest_zero : s.oldest_seq ≡ 0
    pub tail_at_head : s.tail ≡ head
    pub no_messages : es ≡ []

  pub record InOne (s : Space) (es : List FrameRef) : Type 0 where
    pub straight : Straight f ring_offset ring_size s.tail head es
    pub aligned : s.tail % 8 ≡ 0
    pub live : 0 < s.oldest_seq
    pub hint : (s.tail_next_off ≡ 0) ⊎ Hint ring_size s.tail s.tail_next_off es
    pub numbered : Numbered s.oldest_seq next es

  pub record InTwo (s : Space) (before es : List FrameRef) : Type 0 where
    pub split : Split f ring_offset ring_size s.tail head before es
    pub aligned : s.tail % 8 ≡ 0
    pub live : 0 < s.oldest_seq
    pub hint : (s.tail_next_off ≡ 0) ⊎ Hint ring_size s.tail s.tail_next_off before
    pub numbered : Numbered s.oldest_seq next es

  abbrev pub Holds : Space → List FrameRef → Type 0
  Holds s es = Emptied s es ⊎ InOne s es ⊎ ((before : List FrameRef) × InTwo s before es)
