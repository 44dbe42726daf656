-- ===== src/Stream.antt =====
-- src/api/message.rs: `Tail` and `Lite3Tail`, which follow a pool, and `Replay`, which goes through it.
-- A round of a loop sees the clock and the memory map as they are then; waiting between two rounds
-- changes nothing but these. Decoding a payload is the Lite3 library's and the time library's work, and
-- a parameter. Tags are byte strings; times and intervals are nanoseconds.
pub mod Laws
use plasmite.Prelude.{
  ℕ, zero, suc, ◌+◌, ◌-◌, Bool, true, false, Option, none, some, List, [], ◌∷◌, ◌++◌, length,
  get_or, ltb, leb, ◌==◌, not, ◌&&◌, ◌||◌, if◌then◌else◌, eq_bytes,
}
use plasmite.Error.{Result, ok, err, panic, stuck, ◌>>=◌}
use plasmite.Buffer.{Buffer}
use plasmite.Cursor
use plasmite.Cursor.{FrameRef, CursorResult}

pub record TailOptions : Type 0 where
  pub since_seq : Option ℕ
  pub max_messages : Option ℕ
  pub tags : List (List ℕ)
  pub poll_interval : ℕ
  pub timeout : Option ℕ

pub record Tail : Type 0 where
  pub cursor : Cursor.Cursor
  pub options : TailOptions
  pub seen : ℕ
  pub deadline : Option ℕ

-- `Tail::new` at the time `now`.
unfoldable pub new_tail : ℕ → TailOptions → Tail
new_tail now options = record {
  cursor = Cursor.new;
  options = options;
  seen = 0;
  deadline = elim options.timeout [ none ↦ none | some duration ↦ some (now + duration) ];
}

unfoldable pub any_tag : List (List ℕ) → List ℕ → Bool
any_tag [] required = false
any_tag (tag ∷ rest) required = eq_bytes tag required || any_tag rest required

unfoldable pub has_required_tags : List (List ℕ) → List (List ℕ) → Bool
has_required_tags message_tags [] = true
has_required_tags message_tags (required ∷ rest) =
    any_tag message_tags required && has_required_tags message_tags rest

unfoldable pub wait_interval : Option ℕ → ℕ → ℕ → ℕ
wait_interval none now poll_interval = poll_interval
wait_interval (some deadline) now poll_interval =
    if leb deadline now
    then 0
    else if ltb (deadline - now) poll_interval
    then deadline - now
    else poll_interval

-- A test of an option, for the value that it has.
abbrev pub is_some_and : (ℕ → Bool) → Option ℕ → Bool
is_some_and test none = false
is_some_and test (some x) = test x

-- What a round of the loop sees.
pub record Round : Type 0 where
  pub now : ℕ
  pub mmap : Buffer

module _ {T : Type 0} (tags_of : T → List (List ℕ)) (decode : FrameRef → Result T) where
  -- A message that the filters let through is returned, another goes by.
  unfoldable pub deliver : (Tail → Result (Tail × Option T)) → Tail → T → Result (Tail × Option T)
  deliver again t message =
      if has_required_tags (tags_of message) t.options.tags
      then ok (record t { seen = t.seen + 1 }, some message)
      else again t

  unfoldable pub on_frame :
      (Tail → Result (Tail × Option T)) → Tail → FrameRef → Result (Tail × Option T)
  on_frame again t frame =
      if is_some_and (λ min_seq. ltb frame.seq min_seq) t.options.since_seq
      then again t
      else decode frame >>= deliver again t

  unfoldable pub on_result :
      (Tail → Result (Tail × Option T)) → Tail → CursorResult → Result (Tail × Option T)
  on_result again t (CursorResult.message frame) = on_frame again t frame
  on_result again t CursorResult.would_block = again t
  on_result again t CursorResult.fell_behind = again t

  -- The loop of `next_message`; `stuck` stands for a call that still waits after these rounds.
  unfoldable pub next_loop : List Round → Tail → Result (Tail × Option T)
  next_loop [] t = stuck
  next_loop (round ∷ rounds) t =
      let again = λ (t' : Tail). next_loop rounds t' in
      if is_some_and (λ deadline. leb deadline round.now) t.deadline
      then ok (t, none)
      else Cursor.next round.mmap t.cursor >>= λ r. on_result again (record t { cursor = r.0 }) r.1

  unfoldable pub next_message : List Round → Tail → Result (Tail × Option T)
  next_message rounds t =
      if is_some_and (λ max. leb max t.seen) t.options.max_messages
      then ok (t, none)
      else next_loop rounds t

-- `Replay`: what is replayed, and where it stands. `T` is the message.
pub record ReplayOptions : Type 0 where
  pub tail : Option ℕ
  pub since_ns : Option ℕ

pub record Replay (T : Type 0) : Type 0 where
  pub messages : List T
  pub timestamps_ns : List ℕ
  pub index : ℕ

-- `split_off(at)`: what stands from `at` on.
unfoldable pub drop_front {ℓ} : {A : Type ℓ} → ℕ → List A → List A
drop_front zero xs = xs
drop_front (suc n) [] = []
drop_front (suc n) (x ∷ xs) = drop_front n xs

unfoldable pub keep_last {ℓ} : {A : Type ℓ} → Option ℕ → List A → List A
keep_last none entries = entries
keep_last (some n) entries =
    if ltb n (length entries) then drop_front (length entries - n) entries else entries

abbrev pub firsts : {A B : Type 0} → List (A × B) → List A
firsts [] = []
firsts ((a, b) ∷ rest) = a ∷ firsts rest

abbrev pub seconds : {A B : Type 0} → List (A × B) → List B
seconds [] = []
seconds ((a, b) ∷ rest) = b ∷ seconds rest

module _ {T : Type 0} (decode : FrameRef → Result T) where
  -- One round of the collecting loop; `again` is the next one.
  unfoldable pub collect_step :
      (Cursor.Cursor → Result (List (ℕ × T)))
      → Option ℕ
      → Cursor.Cursor
      → CursorResult
      → Result (List (ℕ × T))
  collect_step again since_ns c (CursorResult.message frame) =
      if is_some_and (λ since. ltb frame.timestamp_ns since) since_ns
      then again c
      else do msg ← decode frame; entries ← again c; ok ((frame.timestamp_ns, msg) ∷ entries)
  collect_step again since_ns c CursorResult.would_block = ok []
  collect_step again since_ns c CursorResult.fell_behind = again c

  -- The source's loop has no bound: `stuck` stands for more rounds than `rounds`.
  unfoldable pub collect : ℕ → Buffer → Option ℕ → Cursor.Cursor → Result (List (ℕ × T))
  collect zero mmap since_ns c = stuck
  collect (suc rounds) mmap since_ns c =
      let again = λ (c' : Cursor.Cursor). collect rounds mmap since_ns c' in
      Cursor.next mmap c >>= λ r. collect_step again since_ns r.0 r.1

  unfoldable pub new_replay : ℕ → Buffer → ReplayOptions → Result (Replay T)
  new_replay rounds mmap options = do
    collected ← collect rounds mmap options.since_ns Cursor.new
    let entries = keep_last options.tail collected
    ok (record { messages = seconds entries; timestamps_ns = firsts entries; index = 0 })

-- `Replay::next_message`: the message at the index, and how long to sleep before it. `scaled` is the
-- floating-point division by the speed.
unfoldable pub sleep_before : (ℕ → ℕ) → List ℕ → ℕ → ℕ
sleep_before scaled timestamps_ns zero = 0
sleep_before scaled timestamps_ns (suc index) =
    let prev_ts = get_or timestamps_ns index 0 in
    let curr_ts = get_or timestamps_ns (suc index) 0 in
    if ltb prev_ts curr_ts then scaled (curr_ts - prev_ts) else 0

abbrev pub get_elem? {ℓ} : {A : Type ℓ} → List A → ℕ → Option A
get_elem? [] i = none
get_elem? (x ∷ xs) zero = some x
get_elem? (x ∷ xs) (suc i) = get_elem? xs i

unfoldable pub replay_next : {T : Type 0} → (ℕ → ℕ) → Replay T → Replay T × ℕ × Option T
replay_next scaled r = if leb (length r.messages) r.index then (r, 0, none) else (
  record r { index = r.index + 1 },
  sleep_before scaled r.timestamps_ns r.index,
  get_elem? r.messages r.index,
)
