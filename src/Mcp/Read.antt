-- ===== src/Mcp/Read.antt =====
-- src/mcp.rs: the messages that the tool `plasmite_read` gives.
-- A message is whatever the pool gives; its tags, its time and its JSON are parameters, and so is the
-- pool: each sequence number is asked for once, so a function stands for a pool that others change.
pub mod Lists
pub mod Wanted
pub mod Reference
pub mod Finds
pub mod Answer
use plasmite.Prelude.{
  ℕ, zero, suc, ◌+◌, ◌-◌, Bool, true, false, Option, none, some, List, [], ◌∷◌, ◌++◌, max, ltb, leb,
  ◌==◌, ◌&&◌, not, length, if◌then◌else◌, saturating_add,
}
use plasmite.Error.{Error, ErrorKind, Result, ok, err, panic, stuck, failure, ◌>>=◌}
use plasmite.Stream.{any_tag, is_some_and}

unfoldable pub message_has_tags : List (List ℕ) → List (List ℕ) → Bool
message_has_tags message_tags [] = true
message_has_tags message_tags (required ∷ rest) =
    any_tag message_tags required && message_has_tags message_tags rest

abbrev pub is_not_found : ErrorKind → Bool
is_not_found ErrorKind.not_found = true
is_not_found _ = false

-- `messages.remove(0)`
abbrev pub without_first {ℓ} : {A : Type ℓ} → List A → List A
without_first [] = []
without_first (x ∷ xs) = xs

-- `start_seq` of `read_messages_for_tool`
unfoldable pub start_seq : ℕ → Option ℕ → ℕ
start_seq oldest none = oldest
start_seq oldest (some after) = max oldest (saturating_add after 1)

module _ {M : Type 0} (tags_of : M → List (List ℕ)) (time_ns_of : M → Option ℕ)
    (since_ns : Option ℕ) (required_tags : List (List ℕ)) where
  -- The comparison with the time of the message, which may have no sense.
  unfoldable pub is_since : ℕ → Option ℕ → Result Bool
  is_since since none = err (failure ErrorKind.corrupt "stored message has invalid timestamp")
  is_since since (some message_ns) = ok (leb since message_ns)

  unfoldable pub passes_since : M → Option ℕ → Result Bool
  unfolding is_since
  passes_since message none = ok true
  passes_since message (some since) = is_since since (time_ns_of message)

  unfoldable pub is_wanted : M → Result Bool
  unfolding message_has_tags passes_since
  is_wanted message =
      if message_has_tags (tags_of message) required_tags
      then passes_since message since_ns
      else ok false

module _ {M J : Type 0} (tags_of : M → List (List ℕ)) (time_ns_of : M → Option ℕ)
    (message_json_value : M → J) (get_message : ℕ → Result M) (count : ℕ)
    (after_seq since_ns : Option ℕ) (required_tags : List (List ℕ)) where
  -- What is done with a message that is wanted; `next` goes on with the sequence numbers that are left.
  unfoldable pub take_message : Bool → (List J → Result (List J)) → List J → J → Result (List J)
  take_message true next messages value =
      let grown = messages ++ (value ∷ []) in
      if leb count (length grown) then ok grown else next grown
  take_message false next messages value =
      let grown = messages ++ (value ∷ []) in
      next (if ltb count (length grown) then without_first grown else grown)

  unfoldable pub on_message : (List J → Result (List J)) → List J → Result M → Result (List J)
  unfolding is_wanted take_message
  on_message next messages (ok message) =
      is_wanted tags_of time_ns_of since_ns required_tags message >>= λ wanted.
      if wanted
      then take_message (is_some_and (λ _. true) after_seq) next messages
          (message_json_value message)
      else next messages
  on_message next messages (err e) = if is_not_found e.kind then next messages else err e
  on_message next messages panic = panic
  on_message next messages stuck = stuck

  -- The loop over the `left` sequence numbers from `seq` on.
  unfoldable pub read_loop : ℕ → ℕ → List J → Result (List J)
  unfolding on_message
  read_loop zero seq messages = ok messages
  read_loop (suc left) seq messages =
      on_message (read_loop left (seq + 1)) messages (get_message seq)

  unfoldable pub read_between : ℕ → ℕ → Result (List J)
  unfolding read_loop start_seq
  read_between oldest newest =
      let start = start_seq oldest after_seq in
      if count == 0
      then ok []
      else if ltb newest start
      then ok []
      else read_loop (newest + 1 - start) start []

  unfoldable pub read_messages_for_tool : Option ℕ → Option ℕ → Result (List J)
  unfolding read_between
  read_messages_for_tool none newest = ok []
  read_messages_for_tool (some oldest) none = ok []
  read_messages_for_tool (some oldest) (some newest) = read_between oldest newest
