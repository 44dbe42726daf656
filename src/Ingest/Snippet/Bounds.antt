-- ===== src/Ingest/Snippet/Bounds.antt =====
-- How long the snippets are, and where the cut panics.
use plasmite.Prelude.{
  ℕ, ◌+◌, ◌-◌, ◌≤◌, ◌<◌, ◌≡◌, refl, arith, ◌∷◌, ◌++◌, Bool-cases, inl, inr, leb, false,
}
use plasmite.Error.{ok, panic}
use plasmite.Error.Laws.{>>=-eq-ok}
use plasmite.Text.{Text, len, width, take_bytes}
use plasmite.Text.Laws.{IsAscii, len-append, take_bytes-front, take_bytes-cut, take_bytes-IsAscii}
use plasmite.Ingest.Snippet.{truncate_snippet, suffix}

len-suffix : len suffix ≡ 3
unfolding len width
len-suffix = refl

-- A snippet that comes back has at most `max` bytes; one of an ASCII text always comes back, and a text
-- of at most `max` bytes is its own snippet.
pub truncate_snippet_lem :
    (input : Text) (max : ℕ)
    → ((r : Text) → truncate_snippet input max ≡ ok r → len r ≤ max)
      × (IsAscii input → (r : Text) × (truncate_snippet input max ≡ ok r))
      × (len input ≤ max → truncate_snippet input max ≡ ok input)
unfolding truncate_snippet
truncate_snippet_lem input max = elim (Bool-cases (leb (len input) max)) [
  | inl short ↦ (
    λ r e. let whole = rw short at e in ground (arith, whole, short),
    λ _. (input, rw short),
    λ _. rw short,
  )
  | inr long ↦ elim (Bool-cases (leb max 3)) [
    | inl dots ↦ (
      λ r e. omega (arith, (take_bytes-front max suffix r (rw (long, dots) at e)).0),
      λ _.
          rw (long, dots)
            (take_bytes-IsAscii max suffix (omega arith) (ground (arith, dots, len-suffix))),
      λ fits. absurd (ground arith),
    )
    | inr room ↦ (
      λ r e.
          let (front, takes, is_r) =
            >>=-eq-ok (take_bytes (max - 3) input) (λ front. ok (front ++ suffix))
              (rw (long, room) at e) in
          let r_eq : r ≡ front ++ suffix = ground (arith, is_r) in
          rw r_eq (
            ground (
              arith,
              room,
              len-append front suffix,
              len-suffix,
              (take_bytes-front (max - 3) input front takes).0,
            )),
      λ ascii.
          let (front, takes) =
            take_bytes-IsAscii (max - 3) input ascii (ground (arith, long, room)) in
          (front ++ suffix, rw (long, room, takes)),
      λ fits. absurd (ground arith),
    )
  ]
]

-- Where a code point stands across the cut, three bytes below `max`, making the snippet panics.
pub truncate_snippet-cut :
    (s : Text) (c : ℕ) (t : Text) (max : ℕ)
    → 3 < max
    → max < len (s ++ (c ∷ t))
    → len s + 3 < max
    → max < len s + width c + 3
    → truncate_snippet (s ++ (c ∷ t)) max ≡ panic
unfolding truncate_snippet
truncate_snippet-cut s c t max room long before behind =
    let too_long : leb (len (s ++ (c ∷ t))) max ≡ false = ground arith in
    let has_room : leb max 3 ≡ false = ground arith in
    rw (too_long, has_room, take_bytes-cut (max - 3) s c t (omega arith) (omega arith))
