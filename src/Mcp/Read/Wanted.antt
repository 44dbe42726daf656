-- ===== src/Mcp/Read/Wanted.antt =====
-- All messages that are wanted, and what one round of the loop does with them.
use plasmite.Prelude.{
  ℕ, zero, suc, ◌+◌, ◌≡◌, sym, refl, arith, ◌⊎◌, inl, inr, Bool, true, false, Option, List, [], ◌∷◌,
  ◌++◌, if◌then◌else◌,
}
use plasmite.Error.{Error, Result, ok, err, panic, stuck, ◌>>=◌}
use plasmite.Error.Laws.{>>=-eq-ok}
use plasmite.Stream.{is_some_and}
use plasmite.Mcp.Read.{is_wanted, is_not_found, take_message, on_message}

module _ {M J : Type 0} (tags_of : M → List (List ℕ)) (time_ns_of : M → Option ℕ)
    (message_json_value : M → J) (get_message : ℕ → Result M) (since_ns : Option ℕ)
    (required_tags : List (List ℕ)) where
  -- What the number contributes: a message that is wanted, or nothing.
  abbrev pub wanted_of : Result M → Result (List J)
  wanted_of (ok message) = is_wanted tags_of time_ns_of since_ns required_tags message >>= λ wanted.
      ok (if wanted then message_json_value message ∷ [] else [])
  wanted_of (err e) = if is_not_found e.kind then ok [] else err e
  wanted_of panic = panic
  wanted_of stuck = stuck

  -- All wanted messages with the `left` sequence numbers from `seq` on.
  abbrev pub wanted_from : ℕ → ℕ → Result (List J)
  wanted_from zero seq = ok []
  wanted_from (suc left) seq = do
    here ← wanted_of (get_message seq)
    rest ← wanted_from left (seq + 1)
    ok (here ++ rest)

module _ {M J : Type 0} (tags_of : M → List (List ℕ)) (time_ns_of : M → Option ℕ)
    (message_json_value : M → J) (get_message : ℕ → Result M) (count : ℕ)
    (after_seq since_ns : Option ℕ) (required_tags : List (List ℕ)) where
  -- A message that contributes nothing is passed over, and one that does is taken.
  abbrev pub Offers : (List J → Result (List J)) → List J → List J → Result (List J) → Type 0
  Offers next messages here answer =
      ((here ≡ []) × (answer ≡ next messages))
      ⊎ ((value : J) × (here ≡ value ∷ [])
          × (answer
              ≡ take_message tags_of time_ns_of message_json_value get_message count after_seq
                  since_ns required_tags (is_some_and (λ _. true) after_seq) next messages value))

  if-Offers :
      (next : List J → Result (List J)) (messages : List J) (wanted : Bool) (value : J)
      → Offers next messages (if wanted then value ∷ [] else []) (
          if wanted
          then take_message tags_of time_ns_of message_json_value get_message count after_seq
              since_ns required_tags
              (is_some_and (λ _. true) after_seq)
              next
              messages
              value
          else next messages)
  if-Offers next messages true value = inr (value, refl, refl)
  if-Offers next messages false value = inl (refl, refl)

  skipped-Offers :
      (next : List J → Result (List J)) (messages here : List J) (e : Error) (skips : Bool)
      → (if skips then ok [] else err e) ≡ ok here
      → Offers next messages here (if skips then next messages else err e)
  skipped-Offers next messages here e true finds = inl (ground (arith, finds), refl)
  skipped-Offers next messages here e false finds = cc

  pub on_message-Offers :
      (next : List J → Result (List J)) (messages here : List J) (r : Result M)
      → wanted_of tags_of time_ns_of message_json_value get_message since_ns required_tags r
        ≡ ok here
      → Offers next messages here (
          on_message tags_of time_ns_of message_json_value get_message count after_seq since_ns
            required_tags next messages r)
  unfolding on_message
  on_message-Offers next messages here (ok message) finds =
      let (wanted, tests, is_here) =
        >>=-eq-ok (is_wanted tags_of time_ns_of since_ns required_tags message)
          (λ wanted. ok (if wanted then message_json_value message ∷ [] else [])) finds in
      let here_is : (if wanted then message_json_value message ∷ [] else []) ≡ here =
        ground (arith, is_here) in
      rw (tests, sym here_is) (if-Offers next messages wanted (message_json_value message))
  on_message-Offers next messages here (err e) finds =
      skipped-Offers next messages here e (is_not_found e.kind) finds
  on_message-Offers next messages here panic finds = cc
  on_message-Offers next messages here stuck finds = cc

module _ {M J : Type 0} (tags_of : M → List (List ℕ)) (time_ns_of : M → Option ℕ)
    (message_json_value : M → J) (get_message : ℕ → Result M) (count : ℕ) (since_ns : Option ℕ)
    (required_tags : List (List ℕ)) where
  abbrev pub wanted_at : ℕ → ℕ → Result (List J)
  wanted_at = wanted_from tags_of time_ns_of message_json_value get_message since_ns required_tags

  -- What one number and those behind it contribute.
  pub wanted_at-suc :
      (left seq : ℕ) (found : List J)
      → wanted_at (suc left) seq ≡ ok found
      → (here : List J) × (rest : List J) × (wanted_of tags_of time_ns_of message_json_value
            get_message since_ns required_tags
            (get_message seq)
          ≡ ok here)
        × (wanted_at left (seq + 1) ≡ ok rest)
        × (here ++ rest ≡ found)
  wanted_at-suc left seq found finds =
      let (here, first, finds') =
        >>=-eq-ok
          (wanted_of tags_of time_ns_of message_json_value get_message since_ns required_tags
            (get_message seq))
          (λ here. wanted_at left (seq + 1) >>= λ rest. ok (here ++ rest)) finds in
      let (rest, second, joined) =
        >>=-eq-ok (wanted_at left (seq + 1)) (λ rest. ok (here ++ rest)) finds' in
      (here, rest, first, second, ground (arith, joined))
