-- ===== src/Plan.antt =====
-- src/core/plan.rs: where the next frame goes and which frames are dropped for it.
pub mod Step
pub mod Holds
pub mod Facts
pub mod Dropped
pub mod Loop
pub mod Placed
pub mod Place
pub mod TailNext
pub mod Seat
pub mod Append
use plasmite.Prelude.{
  ℕ, zero, suc, ◌+◌, ◌-◌, ◌*◌, ◌/◌, ◌%◌, ◌^◌, Bool, true, false, Option, none, some, List, [], ◌∷◌,
  ◌++◌, ltb, leb, ◌==◌, not, ◌&&◌, ◌||◌, if◌then◌else◌, add_u64, sub_u64, saturating_sub,
}
use plasmite.Error.{
  Error, Result, ok, err, panic, stuck, ErrorKind, failure, ensure, ok_or, ◌>>=◌, ◌>>◌,
}
use plasmite.Buffer.{Buffer, slice}
use plasmite.Frame
use plasmite.Frame.{FrameHeader, FrameState, frame_header_len, frame_total_len, max_payload}
use plasmite.Header.{PoolHeader}

pub data DropKind : Type 0 where
  padding : DropKind
  wrap : DropKind
  frame : ℕ → DropKind

pub record DropStep : Type 0 where
  pub offset : ℕ
  pub len : ℕ
  pub kind : DropKind

pub record AppendPlan : Type 0 where
  pub frame_offset : ℕ
  pub frame_len : ℕ
  pub wrap_offset : Option ℕ
  pub drops : List DropStep
  pub next_header : PoolHeader
  pub seq : ℕ

unfoldable pub used_space : ℕ → ℕ → ℕ → ℕ → ℕ
used_space head tail ring_size oldest_seq =
    if head == tail
    then (if oldest_seq == 0 then 0 else ring_size)
    else if ltb tail head
    then head - tail
    else sub_u64 ring_size (tail - head)

unfoldable pub free_space : ℕ → ℕ → ℕ → ℕ → ℕ
free_space head tail ring_size oldest_seq =
    let used = used_space head tail ring_size oldest_seq in saturating_sub ring_size used

unfoldable pub required_space : ℕ → ℕ → ℕ → ℕ
required_space head frame_len ring_size =
    let remaining = sub_u64 ring_size head in
    if leb frame_len remaining
    then frame_len
    else if leb frame_header_len remaining
    then add_u64 frame_len frame_header_len
    else add_u64 frame_len remaining

unfoldable pub read_frame_header : Buffer → ℕ → ℕ → Result FrameHeader
read_frame_header storage ring_offset head = do
  let start = add_u64 ring_offset head
  view ← slice storage start (add_u64 start frame_header_len)
  Frame.decode view

abbrev pub Drop : Type 0
Drop = DropStep × ℕ × ℕ

unfoldable pub plan_drop_step_fast : ℕ → ℕ → ℕ → ℕ → ℕ → Option Drop
plan_drop_step_fast ring_size head tail tail_next_off oldest_seq =
    if (tail_next_off == 0 || leb ring_size tail_next_off) || not (tail_next_off % 8 == 0)
    then none
    else if ltb (ring_size - tail_next_off) frame_header_len
    then none
    else if tail_next_off == tail
    then (if not (head == tail)
        then none
        else some
            (record { offset = tail; len = ring_size; kind = DropKind.frame oldest_seq }, tail, 0))
    else if leb tail_next_off tail
    then none
    else let len = tail_next_off - tail in
      if ltb len frame_header_len || not (len % 8 == 0)
      then none
      else some (
        record { offset = tail; len = len; kind = DropKind.frame oldest_seq },
        tail_next_off,
        (if tail_next_off == head then 0 else add_u64 oldest_seq 1),
      )

-- `plan_drop_step` at the frame that starts at the tail.
unfoldable pub drop_frame : FrameState → FrameHeader → ℕ → ℕ → ℕ → Result (Option Drop)
drop_frame FrameState.wrap f ring_size tail oldest_seq =
    ok
      (some (record { offset = tail; len = frame_header_len; kind = DropKind.wrap }, 0, oldest_seq))
drop_frame FrameState.committed f ring_size tail oldest_seq = do
  frame_len ←
      ok_or (frame_total_len frame_header_len f.payload_len) ErrorKind.corrupt
        "frame length overflow"
  let next = add_u64 tail frame_len
  let new_tail = if next == ring_size then 0 else next
  ok (
      some (
        record { offset = tail; len = frame_len; kind = DropKind.frame f.seq },
        new_tail,
        add_u64 f.seq 1,
      ))
drop_frame _ f ring_size tail oldest_seq =
    err (failure ErrorKind.corrupt "invalid tail frame state")

unfoldable pub plan_drop_step : Buffer → ℕ → ℕ → ℕ → ℕ → ℕ → Result (Option Drop)
plan_drop_step storage ring_offset ring_size head tail oldest_seq =
    if oldest_seq == 0
    then ok none
    else let remaining = saturating_sub ring_size tail in
      if ltb remaining frame_header_len
      then ok (
          some (
            record { offset = tail; len = remaining; kind = DropKind.padding },
            0,
            (if head == 0 then 0 else oldest_seq),
          ))
      else do
        f ← read_frame_header storage ring_offset tail
        Frame.validate f ring_size
        drop_frame f.state f ring_size tail oldest_seq

unfoldable pub tail_next_at : FrameState → FrameHeader → ℕ → ℕ → Result ℕ
tail_next_at FrameState.wrap f ring_size tail = ok 0
tail_next_at FrameState.committed f ring_size tail = do
  frame_len ←
      ok_or (frame_total_len frame_header_len f.payload_len) ErrorKind.corrupt
        "frame length overflow"
  let next_off = add_u64 tail frame_len
  ok (if next_off == ring_size then 0 else next_off)
tail_next_at _ f ring_size tail = err (failure ErrorKind.corrupt "invalid tail frame state")

unfoldable pub compute_tail_next_off : Buffer → ℕ → ℕ → ℕ → Result ℕ
compute_tail_next_off storage ring_offset ring_size tail =
    if ltb (saturating_sub ring_size tail) frame_header_len then ok 0 else do
      f ← read_frame_header storage ring_offset tail
      Frame.validate f ring_size
      tail_next_at f.state f ring_size tail

-- The variables of the loop of `plan_append` that makes space.
pub record Space : Type 0 where
  pub tail : ℕ
  pub tail_next_off : ℕ
  pub oldest_seq : ℕ
  pub drops : List DropStep

-- `outcome` of one round: the step from the header's hint, or the one read from the frame.
unfoldable pub next_drop : Buffer → ℕ → ℕ → ℕ → Space → Result (Option Drop)
next_drop storage ring_offset ring_size head s =
    if s.oldest_seq == 0
    then ok none
    else elim (plan_drop_step_fast ring_size head s.tail s.tail_next_off s.oldest_seq) [
      | some fast ↦ ok (some fast)
      | none ↦ plan_drop_step storage ring_offset ring_size head s.tail s.oldest_seq
    ]

unfoldable pub after_drop : ℕ → Space → Drop → Space
after_drop head s (step, new_tail, new_oldest) = record {
  tail = new_tail;
  tail_next_off = if new_tail == head then new_tail else 0;
  oldest_seq = if new_tail == head then 0 else new_oldest;
  drops = s.drops ++ (step ∷ []);
}

abbrev pub space_needed : ℕ → ℕ → ℕ → ℕ → ℕ
space_needed head frame_len ring_size oldest_seq =
    if oldest_seq == 0 then frame_len else required_space head frame_len ring_size

-- The loop's condition.
unfoldable pub lacks_space : ℕ → ℕ → ℕ → Space → Bool
lacks_space head frame_len ring_size s =
    ltb (free_space head s.tail ring_size s.oldest_seq)
      (space_needed head frame_len ring_size s.oldest_seq)
    || ((ltb (sub_u64 ring_size head) frame_len && not (s.oldest_seq == 0)) && ltb s.tail frame_len)

abbrev pub drop_or_busy : (Drop → Result Space) → Option Drop → Result Space
drop_or_busy continue none = err (failure ErrorKind.busy "unable to make space")
drop_or_busy continue (some d) = continue d

-- One round of the loop; `continue` is the next one.
abbrev pub make_round : (Drop → Result Space) → Result (Option Drop) → Space → Bool → Result Space
make_round continue outcome s false = ok s
make_round continue outcome s true = outcome >>= drop_or_busy continue

unfoldable pub make_space : ℕ → Buffer → ℕ → ℕ → ℕ → ℕ → Space → Result Space
make_space zero storage ring_offset ring_size head frame_len s = stuck
make_space (suc rounds) storage ring_offset ring_size head frame_len s =
    let continue = λ (d : Drop).
      make_space rounds storage ring_offset ring_size head frame_len (after_drop head s d) in
    make_round continue (next_drop storage ring_offset ring_size head s) s
      (lacks_space head frame_len ring_size s)

-- `plan_append` after the loop: where the frame goes, and the head behind it.
abbrev pub frame_wraps : PoolHeader → ℕ → Bool
frame_wraps header frame_len = ltb (sub_u64 header.ring_size header.head_off) frame_len

abbrev pub frame_place : PoolHeader → ℕ → ℕ
frame_place header frame_len = if frame_wraps header frame_len then 0 else header.head_off

abbrev pub wrap_place : PoolHeader → ℕ → Option ℕ
wrap_place header frame_len =
    if frame_wraps header frame_len
      && leb frame_header_len (sub_u64 header.ring_size header.head_off)
    then some header.head_off
    else none

abbrev pub head_after : PoolHeader → ℕ → ℕ
head_after header frame_len =
    let end = add_u64 (frame_place header frame_len) frame_len in
    if end == header.ring_size then 0 else end

unfoldable pub tail_next_after : PoolHeader → Buffer → ℕ → Space → Result ℕ
tail_next_after header storage frame_len s =
    if s.oldest_seq == 0
    then ok (head_after header frame_len)
    else if s.tail == header.tail_off
    then ok header.tail_next_off
    else compute_tail_next_off storage header.ring_offset header.ring_size s.tail

abbrev pub seq_after : PoolHeader → ℕ
seq_after header = if header.newest_seq == 0 then 1 else add_u64 header.newest_seq 1

abbrev pub planned : PoolHeader → ℕ → Space → ℕ → AppendPlan
planned header frame_len s tail_next_off = record {
  frame_offset = frame_place header frame_len;
  frame_len = frame_len;
  wrap_offset = wrap_place header frame_len;
  drops = s.drops;
  next_header = record header {
    head_off = head_after header frame_len;
    tail_off = if s.oldest_seq == 0 then frame_place header frame_len else s.tail;
    tail_next_off = tail_next_off;
    oldest_seq = if s.oldest_seq == 0 then seq_after header else s.oldest_seq;
    newest_seq = seq_after header;
  };
  seq = seq_after header;
}

unfoldable pub place : PoolHeader → Buffer → ℕ → Space → Result AppendPlan
place header storage frame_len s = do
  tail_next_off ← tail_next_after header storage frame_len s
  ok (planned header frame_len s tail_next_off)

abbrev pub start_space : PoolHeader → Space
start_space header = record {
  tail = header.tail_off;
  tail_next_off = if header.oldest_seq == 0 then header.tail_off else header.tail_next_off;
  oldest_seq = header.oldest_seq;
  drops = [];
}

-- The checks of `plan_append` before the loop; the result is the frame's length.
unfoldable pub plan_checks : PoolHeader → Buffer → ℕ → Result ℕ
plan_checks header storage payload_len = do
  ensure (leb payload_len (2 ^ 32 - 1)) ErrorKind.usage "payload too large"
  ensure (not (header.ring_size == 0)) ErrorKind.corrupt "ring size is zero"
  ensure (leb (add_u64 header.ring_offset header.ring_size) storage.len) ErrorKind.corrupt
      "ring exceeds storage bounds"
  ensure (leb payload_len (max_payload header.ring_size frame_header_len)) ErrorKind.usage
      "payload exceeds ring capacity"
  frame_len ←
      ok_or (frame_total_len frame_header_len payload_len) ErrorKind.corrupt "frame length overflow"
  ensure (leb frame_len header.ring_size) ErrorKind.usage "frame larger than ring"
  ensure (ltb header.head_off header.ring_size && ltb header.tail_off header.ring_size)
      ErrorKind.corrupt "head/tail out of range"
  ensure (not (header.oldest_seq == 0) || header.head_off == header.tail_off) ErrorKind.corrupt
      "empty pool head/tail mismatch"
  ok frame_len

-- Every round of the loop but the last frees at least one byte of a sound ring, so `ring_size + 1` rounds
-- are enough.
unfoldable pub plan_append : PoolHeader → Buffer → ℕ → Result AppendPlan
plan_append header storage payload_len = do
  frame_len ← plan_checks header storage payload_len
  s ←
      make_space (suc header.ring_size) storage header.ring_offset header.ring_size header.head_off
        frame_len (start_space header)
  place header storage frame_len s
