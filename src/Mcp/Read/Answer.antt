-- ===== src/Mcp/Read/Answer.antt =====
-- What `read_messages_for_tool` gives of the messages that it is to find.
use plasmite.Prelude.{
  ℕ, zero, suc, ◌+◌, ◌-◌, ◌^◌, ◌≤◌, ◌<◌, ◌≡◌, ◌∙◌, sym, ap, subst, refl, arith, ◌⊎◌, inl, inr, Bool,
  true, false, Bool-cases, Option, none, some, List, [], ◌++◌, ltb, leb,
}
use plasmite.Error.{Result, ok, err, panic, stuck}
use plasmite.Mcp.Read.{is_wanted, passes_since, is_since, start_seq, read_messages_for_tool}
use plasmite.Mcp.Read.Wanted.{wanted_of, wanted_from}
use plasmite.Mcp.Read.Reference.{window, read_messages_for_tool-wanted_from}
use plasmite.Mcp.Read.Finds.{
  IsBehind, HasTags, IsSince, IsOld, Contributes, Finds, message_has_tags-cases,
}

module _ {M J : Type 0} (tags_of : M → List (List ℕ)) (time_ns_of : M → Option ℕ)
    (message_json_value : M → J) (get_message : ℕ → Result M) (after_seq since_ns : Option ℕ)
    (required_tags : List (List ℕ)) where
  abbrev Contributed : ℕ → Result M → List J → Type 0
  Contributed =
      Contributes tags_of time_ns_of message_json_value get_message after_seq since_ns required_tags

  abbrev Found : ℕ → ℕ → List J → Type 0
  Found = Finds tags_of time_ns_of message_json_value get_message after_seq since_ns required_tags

  passes-IsSince :
      (message : M) (since time_ns : Option ℕ)
      → time_ns_of message ≡ time_ns
      → IsSince since time_ns
      → passes_since tags_of time_ns_of since_ns required_tags message since ≡ ok true
  unfolding passes_since is_since
  passes-IsSince message none time_ns e recent = refl
  passes-IsSince message (some since) none e recent = absurd recent
  passes-IsSince message (some since) (some time_ns) e recent =
      let reached : leb since time_ns ≡ true = ground (arith, recent) in rw (e, reached) refl

  passes-IsOld :
      (message : M) (since time_ns : Option ℕ)
      → time_ns_of message ≡ time_ns
      → IsOld since time_ns
      → passes_since tags_of time_ns_of since_ns required_tags message since ≡ ok false
  unfolding passes_since is_since
  passes-IsOld message none time_ns e old = absurd old
  passes-IsOld message (some since) none e old = absurd old
  passes-IsOld message (some since) (some time_ns) e old =
      let reached : leb since time_ns ≡ false = ground (arith, old) in rw (e, reached) refl

  -- The test of a message comes to what the description says.
  abbrev Tested : M → Bool → Type 0
  Tested message wanted = is_wanted tags_of time_ns_of since_ns required_tags message ≡ ok wanted

  is_wanted-yes :
      (message : M)
      → HasTags required_tags (tags_of message)
      → IsSince since_ns (time_ns_of message)
      → Tested message true
  unfolding is_wanted
  is_wanted-yes message has recent = elim (message_has_tags-cases (tags_of message) required_tags) [
    | inl (_, found) ↦ rw found (passes-IsSince message since_ns _ refl recent)
    | inr (lacks, _) ↦ absurd (lacks has)
  ]

  is_wanted-no :
      (message : M)
      → ¬ HasTags required_tags (tags_of message) ⊎ IsOld since_ns (time_ns_of message)
      → Tested message false
  unfolding is_wanted
  is_wanted-no message unwanted = elim (message_has_tags-cases (tags_of message) required_tags) [
    | inl (has, found) ↦ elim unwanted [
      | inl lacks ↦ absurd (lacks has)
      | inr old ↦ rw found (passes-IsOld message since_ns _ refl old)
    ]
    | inr (_, not_all) ↦ rw not_all refl
  ]

  contributes-wanted_of :
      (seq : ℕ) (r : Result M) (here : List J)
      → IsBehind after_seq seq
      → Contributed seq r here
      → wanted_of tags_of time_ns_of message_json_value get_message since_ns required_tags r
        ≡ ok here
  contributes-wanted_of seq (ok message) here behind (inl (_, has, recent, is_here)) =
      let test = is_wanted-yes message has recent in rw test (ap ok (sym is_here))
  contributes-wanted_of seq (ok message) here behind (inr (inl before, nothing)) =
      absurd (before behind)
  contributes-wanted_of seq (ok message) here behind (inr (inr unwanted, nothing)) =
      let test = is_wanted-no message unwanted in rw test (ap ok (sym nothing))
  contributes-wanted_of seq (err e) here behind (inl before, nothing) = absurd (before behind)
  contributes-wanted_of seq (err e) here behind (inr missing, nothing) = rw (missing, nothing) refl
  contributes-wanted_of seq panic here behind (before, nothing) = absurd (before behind)
  contributes-wanted_of seq stuck here behind (before, nothing) = absurd (before behind)

  passed-nothing :
      (seq : ℕ) (r : Result M) (here : List J)
      → ¬ IsBehind after_seq seq
      → Contributed seq r here
      → here ≡ []
  passed-nothing seq (ok message) here before (inl (behind, _, _, _)) = absurd (before behind)
  passed-nothing seq (ok message) here before (inr (_, nothing)) = nothing
  passed-nothing seq (err e) here before (_, nothing) = nothing
  passed-nothing seq panic here before (_, nothing) = nothing
  passed-nothing seq stuck here before (_, nothing) = nothing

  -- From a number on behind which all others are.
  finds-wanted_from :
      (left seq : ℕ) (found : List J)
      → ((n : ℕ) → seq ≤ n → n < seq + left → IsBehind after_seq n)
      → Found left seq found
      → wanted_from tags_of time_ns_of message_json_value get_message since_ns required_tags left
          seq
        ≡ ok found
  finds-wanted_from zero seq found behind nothing = ap ok (sym nothing)
  finds-wanted_from (suc left) seq found behind (here, rest, contributes, finds, joined) =
      rw
        (
          contributes-wanted_of seq (get_message seq) here (behind seq (omega arith) (omega arith))
              contributes,
          finds-wanted_from left (seq + 1) rest
              (λ n later sooner. behind n (omega arith) (omega arith)) finds,
          joined,
        )
        refl

  -- The numbers up to `after_seq` contribute nothing.
  finds-skip :
      (passed left seq : ℕ) (found : List J)
      → ((n : ℕ) → seq ≤ n → n < seq + passed → ¬ IsBehind after_seq n)
      → Found (passed + left) seq found
      → Found left (seq + passed) found
  finds-skip zero left seq found before finds =
      subst (λ n. Found left n found) (omega arith)
        (subst (λ n. Found n seq found) (omega arith) finds)
  finds-skip (suc passed) left seq found before finds =
      let one_first : suc passed + left ≡ suc (passed + left) = omega arith in
      let (here, rest, contributes, finds', joined) =
        subst (λ n. Found n seq found) one_first finds in
      let nothing =
        passed-nothing seq (get_message seq) here (before seq (omega arith) (omega arith))
          contributes in
      let skipped =
        finds-skip passed left (seq + 1) rest
          (λ n later sooner. before n (omega arith) (omega arith)) finds' in
      subst (λ n. Found left n found) (omega arith)
        (subst (λ xs. Found left (seq + 1 + passed) xs)
          (sym (joined ∙ ap (λ xs. xs ++ rest) nothing)) skipped)

start-IsBehind :
    (after_seq : Option ℕ) (oldest n : ℕ)
    → n < 2 ^ 64 - 1
    → start_seq oldest after_seq ≤ n
    → IsBehind after_seq n
unfolding start_seq
start-IsBehind none oldest n bounded later = tt
start-IsBehind (some after) oldest n bounded later = omega arith

start-passed :
    (after_seq : Option ℕ) (oldest n : ℕ)
    → oldest ≤ n
    → n < start_seq oldest after_seq
    → ¬ IsBehind after_seq n
unfolding start_seq
start-passed none oldest n later sooner behind = absurd (omega arith)
start-passed (some after) oldest n later sooner behind = absurd (omega arith)

start-le : (after_seq : Option ℕ) (oldest : ℕ) → oldest ≤ start_seq oldest after_seq
unfolding start_seq
start-le none oldest = omega arith
start-le (some after) oldest = omega arith

module _ {M J : Type 0} (tags_of : M → List (List ℕ)) (time_ns_of : M → Option ℕ)
    (message_json_value : M → J) (get_message : ℕ → Result M) (after_seq since_ns : Option ℕ)
    (required_tags : List (List ℕ)) (oldest newest : ℕ) (found : List J)
    (bounded : newest < 2 ^ 64 - 1) where
  abbrev start : ℕ
  start = start_seq oldest after_seq

  abbrev left : ℕ
  left = newest + 1 - start

  abbrev passed : ℕ
  passed = newest + 1 - oldest - left

  abbrev FoundAt : ℕ → ℕ → Type 0
  FoundAt n seq =
      Finds tags_of time_ns_of message_json_value get_message after_seq since_ns required_tags n seq
        found

  abbrev wanted_at : ℕ → ℕ → Result (List J)
  wanted_at = wanted_from tags_of time_ns_of message_json_value get_message since_ns required_tags

  all-wanted_from : FoundAt (newest + 1 - oldest) oldest → wanted_at left start ≡ ok found
  all-wanted_from finds =
      let not_before = start-le after_seq oldest in
      let parts : newest + 1 - oldest ≡ passed + left = omega (arith, not_before) in
      let behind_passed =
        finds-skip tags_of time_ns_of message_json_value get_message after_seq since_ns
          required_tags passed left oldest found
          (λ n later sooner. start-passed after_seq oldest n later (omega arith))
          (subst (λ n. FoundAt n oldest) parts finds) in
      elim (Bool-cases (ltb newest start)) [
        | inl beyond ↦
            let nothing_left : left ≡ 0 = ground (arith, beyond) in
            let nothing = subst (λ n. FoundAt n (oldest + passed)) nothing_left behind_passed in
            subst (λ n. wanted_at n start ≡ ok found) (sym nothing_left) (ap ok (sym nothing))
        | inr within ↦
            let at_start : oldest + passed ≡ start = ground (arith, within, not_before) in
            finds-wanted_from tags_of time_ns_of message_json_value get_message after_seq since_ns
              required_tags left start found
              (λ n later sooner. start-IsBehind after_seq oldest n (ground (arith, within)) later)
              (subst (λ seq. FoundAt left seq) at_start behind_passed)
      ]

-- Where every number between the bounds contributes its message, or nothing, as `Contributes` has it,
-- the tool reads the last `count` of the messages, or the first `count` if `after_seq` is given;
-- `newest` is less than 2 ^ 64 - 1.
pub read_messages_for_tool_lem :
    {M J : Type 0} (tags_of : M → List (List ℕ)) (time_ns_of : M → Option ℕ)
    (message_json_value : M → J) (get_message : ℕ → Result M) (count : ℕ)
    (after_seq since_ns : Option ℕ) (required_tags : List (List ℕ)) (oldest newest : ℕ)
    (found : List J)
    → newest < 2 ^ 64 - 1
    → Finds tags_of time_ns_of message_json_value get_message after_seq since_ns required_tags
        (newest + 1 - oldest)
        oldest
        found
    → read_messages_for_tool tags_of time_ns_of message_json_value get_message count after_seq
        since_ns required_tags
        (some oldest)
        (some newest)
      ≡ ok (window after_seq count found)
read_messages_for_tool_lem tags_of time_ns_of message_json_value get_message count after_seq
      since_ns required_tags oldest newest found bounded finds =
    read_messages_for_tool-wanted_from tags_of time_ns_of message_json_value get_message count
      after_seq since_ns required_tags oldest newest found
      (all-wanted_from tags_of time_ns_of message_json_value get_message after_seq since_ns
        required_tags oldest newest found bounded finds)
