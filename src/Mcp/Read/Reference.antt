-- ===== src/Mcp/Read/Reference.antt =====
-- `read_messages_for_tool` against a description that first finds all messages that are wanted.
use plasmite.Prelude.{
  ℕ, zero, suc, ◌+◌, ◌-◌, ◌≤◌, ◌<◌, ◌≡◌, ◌∙◌, sym, ap, refl, arith, inl, inr, true, false,
  Bool-cases, Option, none, some, List, [], ◌∷◌, ◌++◌, length-append, ltb, leb, ◌==◌, length,
}
use plasmite.Error.{Result, ok}
use plasmite.Mcp.Read.Lists.{
  take_front, last_of, append_nil, append_one, take_front-none, last_of-none, length-without_first,
  last_of-whole, last_of-without_first, take_front-whole, take_front-exact,
}
use plasmite.Mcp.Read.{
  without_first, take_message, read_loop, start_seq, read_between, read_messages_for_tool,
}
use plasmite.Mcp.Read.Wanted.{wanted_from, on_message-Offers, wanted_at-suc}

module _ {M J : Type 0} (tags_of : M → List (List ℕ)) (time_ns_of : M → Option ℕ)
    (message_json_value : M → J) (get_message : ℕ → Result M) (count : ℕ) (since_ns : Option ℕ)
    (required_tags : List (List ℕ)) where
  abbrev wanted_at : ℕ → ℕ → Result (List J)
  wanted_at = wanted_from tags_of time_ns_of message_json_value get_message since_ns required_tags

  take_message-last :
      (next : List J → Result (List J)) (messages rest : List J) (value : J)
      → length messages ≤ count
      → ((ms : List J) → length ms ≤ count → next ms ≡ ok (last_of count (ms ++ rest)))
      → take_message tags_of time_ns_of message_json_value get_message count none since_ns
          required_tags false next messages value
        ≡ ok (last_of count (messages ++ (value ∷ rest)))
  unfolding take_message
  take_message-last next messages rest value few goes_on =
      elim (Bool-cases (ltb count (length (messages ++ (value ∷ []))))) [
        | inl over ↦
            rw over (
              goes_on (without_first (messages ++ (value ∷ []))) (
                omega (
                  arith,
                  length-without_first (messages ++ (value ∷ [])),
                  length-append messages (value ∷ []),
                )))
            ∙ ap ok (
                last_of-without_first count (messages ++ (value ∷ [])) rest (ground (arith, over))
                ∙ ap (λ xs. last_of count xs) (append_one messages value rest))
        | inr fits ↦
            rw fits (goes_on (messages ++ (value ∷ [])) (ground (arith, fits)))
            ∙ ap (λ xs. ok (last_of count xs)) (append_one messages value rest)
      ]

  take_message-first :
      (after : ℕ) (next : List J → Result (List J)) (messages rest : List J) (value : J)
      → length messages < count
      → ((ms : List J) → length ms < count → next ms ≡ ok (take_front count (ms ++ rest)))
      → take_message tags_of time_ns_of message_json_value get_message count
          (some after)
          since_ns
          required_tags
          true
          next
          messages
          value
        ≡ ok (take_front count (messages ++ (value ∷ rest)))
  unfolding take_message
  take_message-first after next messages rest value few goes_on =
      elim (Bool-cases (leb count (length (messages ++ (value ∷ []))))) [
        | inl full ↦
            let exact : length (messages ++ (value ∷ [])) ≡ count =
              ground (arith, full, length-append messages (value ∷ [])) in
            rw full (ap ok (sym (take_front-exact count (messages ++ (value ∷ [])) rest exact)))
            ∙ ap (λ xs. ok (take_front count xs)) (append_one messages value rest)
        | inr room ↦
            rw room (goes_on (messages ++ (value ∷ [])) (ground (arith, room)))
            ∙ ap (λ xs. ok (take_front count xs)) (append_one messages value rest)
      ]

  read_loop-last :
      (left seq : ℕ) (messages found : List J)
      → length messages ≤ count
      → wanted_at left seq ≡ ok found
      → read_loop tags_of time_ns_of message_json_value get_message count none since_ns
          required_tags left seq messages
        ≡ ok (last_of count (messages ++ found))
  unfolding read_loop
  read_loop-last zero seq messages found few finds =
      let none_found : found ≡ [] = ground (arith, finds) in
      rw (none_found, append_nil messages, last_of-whole count messages few) refl
  read_loop-last (suc left) seq messages found few finds =
      let (here, rest, first, second, joined) =
        wanted_at-suc tags_of time_ns_of message_json_value get_message count since_ns required_tags
          left seq found finds in
      let next =
        read_loop tags_of time_ns_of message_json_value get_message count none since_ns
          required_tags left (seq + 1) in
      elim (on_message-Offers tags_of time_ns_of message_json_value get_message count none since_ns
        required_tags next messages here (get_message seq) first) [
          | inl (nothing, passes) ↦
              let same : rest ≡ found = ap (λ xs. xs ++ rest) (sym nothing) ∙ joined in
              passes
              ∙ read_loop-last left (seq + 1) messages rest few second
              ∙ ap (λ xs. ok (last_of count (messages ++ xs))) same
          | inr (value, is_here, takes) ↦
              let same : value ∷ rest ≡ found = ap (λ xs. xs ++ rest) (sym is_here) ∙ joined in
              takes
              ∙ take_message-last next messages rest value few
                  (λ ms few'. read_loop-last left (seq + 1) ms rest few' second)
              ∙ ap (λ xs. ok (last_of count (messages ++ xs))) same
        ]

  read_loop-first :
      (after left seq : ℕ) (messages found : List J)
      → length messages < count
      → wanted_at left seq ≡ ok found
      → read_loop tags_of time_ns_of message_json_value get_message count
          (some after)
          since_ns
          required_tags
          left
          seq
          messages
        ≡ ok (take_front count (messages ++ found))
  unfolding read_loop
  read_loop-first after zero seq messages found few finds =
      let none_found : found ≡ [] = ground (arith, finds) in
      rw (none_found, append_nil messages, take_front-whole count messages (omega arith)) refl
  read_loop-first after (suc left) seq messages found few finds =
      let (here, rest, first, second, joined) =
        wanted_at-suc tags_of time_ns_of message_json_value get_message count since_ns required_tags
          left seq found finds in
      let next =
        read_loop tags_of time_ns_of message_json_value get_message count (some after) since_ns
          required_tags left (seq + 1) in
      elim (on_message-Offers tags_of time_ns_of message_json_value get_message count (some after)
        since_ns required_tags next messages here (get_message seq) first) [
          | inl (nothing, passes) ↦
              let same : rest ≡ found = ap (λ xs. xs ++ rest) (sym nothing) ∙ joined in
              passes
              ∙ read_loop-first after left (seq + 1) messages rest few second
              ∙ ap (λ xs. ok (take_front count (messages ++ xs))) same
          | inr (value, is_here, takes) ↦
              let same : value ∷ rest ≡ found = ap (λ xs. xs ++ rest) (sym is_here) ∙ joined in
              takes
              ∙ take_message-first after next messages rest value few
                  (λ ms few'. read_loop-first after left (seq + 1) ms rest few' second)
              ∙ ap (λ xs. ok (take_front count (messages ++ xs))) same
        ]

-- What is kept of the wanted messages: the newest without `after_seq`, else the oldest behind it.
abbrev pub window {ℓ} : {A : Type ℓ} → Option ℕ → ℕ → List A → List A
window none count found = last_of count found
window (some after) count found = take_front count found

window-none {ℓ} : {A : Type ℓ} (after_seq : Option ℕ) (xs : List A) → window after_seq 0 xs ≡ []
window-none none xs = last_of-none xs
window-none (some after) xs = take_front-none xs

window-nil {ℓ} :
    {A : Type ℓ} (after_seq : Option ℕ) (count : ℕ) → window {A = A} after_seq count [] ≡ []
window-nil none count = last_of-whole count [] (omega arith)
window-nil (some after) count = refl

module _ {M J : Type 0} (tags_of : M → List (List ℕ)) (time_ns_of : M → Option ℕ)
    (message_json_value : M → J) (get_message : ℕ → Result M) (count : ℕ) (since_ns : Option ℕ)
    (required_tags : List (List ℕ)) where
  read_loop-window :
      (after_seq : Option ℕ) (left seq : ℕ) (found : List J)
      → 0 < count
      → wanted_from tags_of time_ns_of message_json_value get_message since_ns required_tags left
          seq
        ≡ ok found
      → read_loop tags_of time_ns_of message_json_value get_message count after_seq since_ns
          required_tags left seq []
        ≡ ok (window after_seq count found)
  read_loop-window none left seq found some_count finds =
      read_loop-last tags_of time_ns_of message_json_value get_message count since_ns required_tags
        left seq [] found (omega arith) finds
  read_loop-window (some after) left seq found some_count finds =
      read_loop-first tags_of time_ns_of message_json_value get_message count since_ns required_tags
        after left seq [] found some_count finds

-- The tool in terms of all the messages that its tests let through.
pub read_messages_for_tool-wanted_from :
    {M J : Type 0} (tags_of : M → List (List ℕ)) (time_ns_of : M → Option ℕ)
    (message_json_value : M → J) (get_message : ℕ → Result M) (count : ℕ)
    (after_seq since_ns : Option ℕ) (required_tags : List (List ℕ)) (oldest newest : ℕ)
    (found : List J)
    → wanted_from tags_of time_ns_of message_json_value get_message since_ns required_tags
        (newest + 1 - start_seq oldest after_seq)
        (start_seq oldest after_seq)
      ≡ ok found
    → read_messages_for_tool tags_of time_ns_of message_json_value get_message count after_seq
        since_ns required_tags
        (some oldest)
        (some newest)
      ≡ ok (window after_seq count found)
unfolding read_messages_for_tool read_between
read_messages_for_tool-wanted_from tags_of time_ns_of message_json_value get_message count after_seq
      since_ns required_tags oldest newest found finds =
    elim (Bool-cases (count == 0)) [
      | inl no_count ↦
          let is_zero : count ≡ 0 = ground (arith, no_count) in
          rw (no_count, is_zero) (ap ok (sym (window-none after_seq found)))
      | inr some_count ↦ elim (Bool-cases (ltb newest (start_seq oldest after_seq))) [
        | inl beyond ↦
            let nothing_left : newest + 1 - start_seq oldest after_seq ≡ 0 =
              ground (arith, beyond) in
            let none_found : found ≡ [] = ground (arith, rw nothing_left at finds) in
            rw (some_count, beyond, none_found) (ap ok (sym (window-nil after_seq count)))
        | inr within ↦
            rw (some_count, within)
              (read_loop-window tags_of time_ns_of message_json_value get_message count since_ns
                required_tags after_seq (newest + 1 - start_seq oldest after_seq)
                (start_seq oldest after_seq) found (ground (arith, some_count)) finds)
      ]
    ]
