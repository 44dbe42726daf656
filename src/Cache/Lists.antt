-- ===== src/Cache/Lists.antt =====
-- Counting what the lists of the cache hold: the map's entries and the order of use.
use plasmite.Prelude.{
  ℕ, suc, ◌+◌, ◌<◌, ◌≡◌, ◌⊎◌, inl, inr, refl, ap, arith, none, some, List, [], ◌∷◌, length, ◌==◌,
  if◌then◌else◌,
}
use plasmite.Cache.{lookup, without, remove_first, pop_back}

-- How often a number is in the order, and how often it is a key.
abbrev pub count : List ℕ → ℕ → ℕ
count [] seq = 0
count (item ∷ rest) seq = (if item == seq then 1 else 0) + count rest seq

abbrev pub count_key : List (ℕ × ℕ) → ℕ → ℕ
count_key [] seq = 0
count_key ((key, offset) ∷ rest) seq = (if key == seq then 1 else 0) + count_key rest seq

pub lookup-none : (es : List (ℕ × ℕ)) (seq : ℕ) → lookup es seq ≡ none → count_key es seq ≡ 0
unfolding lookup
lookup-none [] seq h = refl
lookup-none ((key, offset) ∷ rest) seq h = ground (arith, lookup-none rest seq)

pub lookup-some :
    (es : List (ℕ × ℕ)) (seq offset : ℕ) → lookup es seq ≡ some offset → 0 < count_key es seq
unfolding lookup
lookup-some ((key, _) ∷ rest) seq offset h = ground (arith, lookup-some rest seq offset)
lookup-some [] seq offset h = absurd (ground arith)

-- Removing a key that is there once.
pub count_key-without :
    (es : List (ℕ × ℕ)) (seq other : ℕ)
    → 0 < count_key es seq
    → count_key es other ≡ (if seq == other then 1 else 0) + count_key (without es seq) other
unfolding without
count_key-without [] seq other h = absurd (omega arith)
count_key-without ((key, offset) ∷ rest) seq other h =
    ground (arith, count_key-without rest seq other)

pub length-without :
    (es : List (ℕ × ℕ)) (seq : ℕ) → 0 < count_key es seq → length es ≡ suc (length (without es seq))
unfolding without
length-without [] seq h = absurd (omega arith)
length-without ((key, offset) ∷ rest) seq h = ground (arith, length-without rest seq)

pub count-remove_first :
    (xs : List ℕ) (seq other : ℕ)
    → 0 < count xs seq
    → count xs other ≡ (if seq == other then 1 else 0) + count (remove_first xs seq) other
unfolding remove_first
count-remove_first [] seq other h = absurd (omega arith)
count-remove_first (item ∷ rest) seq other h = ground (arith, count-remove_first rest seq other)

pub length-remove_first :
    (xs : List ℕ) (seq : ℕ) → 0 < count xs seq → length xs ≡ suc (length (remove_first xs seq))
unfolding remove_first
length-remove_first [] seq h = absurd (omega arith)
length-remove_first (item ∷ rest) seq h = ground (arith, length-remove_first rest seq)

-- What `pop_back` takes away is one item of the list.
pub record Popped (xs : List ℕ) : Type 0 where
  pub last : ℕ
  pub left : List ℕ
  pub pops : pop_back xs ≡ some (last, left)
  pub same_count :
      (other : ℕ) → count xs other ≡ (if last == other then 1 else 0) + count left other
  pub one_less : length xs ≡ suc (length left)

pub pop_back_cases : (xs : List ℕ) → ((pop_back xs ≡ none) × (xs ≡ [])) ⊎ Popped xs
unfolding pop_back
pop_back_cases [] = inl (refl, refl)
pop_back_cases (item ∷ rest) = inr (elim (pop_back_cases rest) [
  | inl (empty, nothing) ↦ record {
    last = item;
    left = [];
    pops = rw empty;
    same_count = λ other. rw nothing;
    one_less = ap (λ xs. suc (length xs)) nothing;
  }
  | inr popped ↦ record {
    last = popped.last;
    left = item ∷ popped.left;
    pops = rw popped.pops;
    same_count = λ other. omega (arith, popped.same_count other);
    one_less = ap suc popped.one_less;
  }
])
