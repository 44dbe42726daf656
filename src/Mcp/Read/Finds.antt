-- ===== src/Mcp/Read/Finds.antt =====
-- Which messages `read_messages_for_tool` is to find, from its arguments.
use plasmite.Prelude.{
  ℕ, zero, suc, ◌+◌, ◌≤◌, ◌<◌, ◌≡◌, ◌∙◌, ap, subst, refl, arith, ◌⊎◌, inl, inr, true, false,
  Bool-cases, Option, none, some, List, [], ◌∷◌, ◌++◌, eq_bytes, eq_bytes_refl, ◌==◌,
}
use plasmite.Error.{ErrorKind, Result, ok, err, panic, stuck}
use plasmite.Stream.{any_tag}
use plasmite.Mcp.Read.{message_has_tags}

-- The number follows `after_seq`, if there is one.
abbrev pub IsBehind : Option ℕ → ℕ → Type 0
IsBehind none seq = Unit {0}
IsBehind (some after) seq = after < seq

-- The tag is one of the tags.
abbrev pub Carries : List (List ℕ) → List ℕ → Type 0
Carries [] tag = ⊥
Carries (t ∷ tags) tag = (t ≡ tag) ⊎ Carries tags tag

abbrev pub HasTags : List (List ℕ) → List (List ℕ) → Type 0
HasTags [] tags = Unit {0}
HasTags (required ∷ rest) tags = Carries tags required × HasTags rest tags

-- The time is not before `since`, if there is one.
abbrev pub IsSince : Option ℕ → Option ℕ → Type 0
IsSince none time_ns = Unit {0}
IsSince (some since) none = ⊥
IsSince (some since) (some time_ns) = since ≤ time_ns

abbrev pub IsOld : Option ℕ → Option ℕ → Type 0
IsOld none time_ns = ⊥
IsOld (some since) none = ⊥
IsOld (some since) (some time_ns) = time_ns < since

module _ {M J : Type 0} (tags_of : M → List (List ℕ)) (time_ns_of : M → Option ℕ)
    (message_json_value : M → J) (get_message : ℕ → Result M) (after_seq since_ns : Option ℕ)
    (required_tags : List (List ℕ)) where
  -- What a number contributes, with what the pool gives for it: the message, if it is behind `after_seq`, has the
  -- tags and is not too old, or nothing; a number may be missing in the pool.
  abbrev pub Contributes : ℕ → Result M → List J → Type 0
  Contributes seq (ok message) here =
      (IsBehind after_seq seq
        × HasTags required_tags (tags_of message)
        × IsSince since_ns (time_ns_of message)
        × (here ≡ message_json_value message ∷ []))
      ⊎ ((¬ IsBehind after_seq seq
            ⊎ ¬ HasTags required_tags (tags_of message)
            ⊎ IsOld since_ns (time_ns_of message))
          × (here ≡ []))
  Contributes seq (err e) here =
      (¬ IsBehind after_seq seq ⊎ (e.kind ≡ ErrorKind.not_found)) × (here ≡ [])
  Contributes seq panic here = ¬ IsBehind after_seq seq × (here ≡ [])
  Contributes seq stuck here = ¬ IsBehind after_seq seq × (here ≡ [])

  -- What the `left` numbers from `seq` on contribute.
  abbrev pub Finds : ℕ → ℕ → List J → Type 0
  Finds zero seq found = found ≡ []
  Finds (suc left) seq found =
      (here : List J) × (rest : List J) × Contributes seq (get_message seq) here
      × Finds left (seq + 1) rest
      × (found ≡ here ++ rest)

eq_bytes-eq : (xs ys : List ℕ) → eq_bytes xs ys ≡ true → xs ≡ ys
eq_bytes-eq [] [] e = refl
eq_bytes-eq [] (y ∷ ys) e = cc
eq_bytes-eq (x ∷ xs) [] e = cc
eq_bytes-eq (x ∷ xs) (y ∷ ys) e = elim (Bool-cases (x == y)) [
  | inl same ↦
      let heads : x ≡ y = ground (arith, same) in
      ap (λ h. h ∷ xs) heads ∙ ap (λ t. y ∷ t) (eq_bytes-eq xs ys (rw same at e))
  | inr differs ↦ (let e' = rw differs at e in cc)
]

any_tag-cases :
    (tags : List (List ℕ)) (tag : List ℕ)
    → (Carries tags tag × (any_tag tags tag ≡ true))
      ⊎ (¬ Carries tags tag × (any_tag tags tag ≡ false))
unfolding any_tag
any_tag-cases [] tag = inr (λ c. c, refl)
any_tag-cases (t ∷ tags) tag = elim (Bool-cases (eq_bytes t tag)) [
  | inl same ↦ inl (inl (eq_bytes-eq t tag same), rw same refl)
  | inr differs ↦
      let other : ¬ (t ≡ tag) = λ e.
        (let same : eq_bytes t tag ≡ true = subst (λ x. eq_bytes t x ≡ true) e (eq_bytes_refl t) in
          cc) in
      elim (any_tag-cases tags tag) [
        | inl (carries, found) ↦ inl (inr carries, rw (differs, found) refl)
        | inr (lacks, none_found) ↦
            inr (elim [ inl e ↦ other e | inr c ↦ lacks c ], rw (differs, none_found) refl)
      ]
]

pub message_has_tags-cases :
    (tags required : List (List ℕ))
    → (HasTags required tags × (message_has_tags tags required ≡ true))
      ⊎ (¬ HasTags required tags × (message_has_tags tags required ≡ false))
unfolding message_has_tags
message_has_tags-cases tags [] = inl (tt, refl)
message_has_tags-cases tags (tag ∷ rest) = elim (any_tag-cases tags tag) [
  | inl (carries, found) ↦ elim (message_has_tags-cases tags rest) [
    | inl (has, all_found) ↦ inl ((carries, has), rw (found, all_found) refl)
    | inr (lacks, not_all) ↦ inr (λ has. lacks has.1, rw (found, not_all) refl)
  ]
  | inr (lacks, none_found) ↦ inr (λ has. lacks has.0, rw none_found refl)
]
