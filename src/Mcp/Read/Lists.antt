-- ===== src/Mcp/Read/Lists.antt =====
-- The first and the last elements of a list.
use plasmite.Prelude.{
  ℕ, zero, suc, ◌-◌, ◌≤◌, ◌<◌, ◌≡◌, ◌∙◌, sym, ap, refl, arith, List, [], ◌∷◌, ◌++◌, length,
  length-append,
}
use plasmite.Stream.{drop_front}
use plasmite.Mcp.Read.{without_first}

abbrev pub take_front {ℓ} : {A : Type ℓ} → ℕ → List A → List A
take_front n [] = []
take_front zero (x ∷ xs) = []
take_front (suc n) (x ∷ xs) = x ∷ take_front n xs

-- The last `n`.
abbrev pub last_of {ℓ} : {A : Type ℓ} → ℕ → List A → List A
last_of n xs = drop_front (length xs - n) xs

module _ {ℓ} {A : Type ℓ} where
  pub append_nil : (xs : List A) → xs ++ [] ≡ xs
  append_nil [] = refl
  append_nil (x ∷ xs) = ap (λ ys. x ∷ ys) (append_nil xs)

  pub append_one : (xs : List A) (x : A) (ys : List A) → (xs ++ (x ∷ [])) ++ ys ≡ xs ++ (x ∷ ys)
  append_one [] x ys = refl
  append_one (x' ∷ xs) x ys = ap (λ zs. x' ∷ zs) (append_one xs x ys)

  pub last_of-whole : (n : ℕ) (xs : List A) → length xs ≤ n → last_of n xs ≡ xs
  unfolding drop_front
  last_of-whole n xs few =
      let all : length xs - n ≡ 0 = omega arith in ap (λ k. drop_front k xs) all

  -- One more in front does not matter where enough follow.
  last_of-cons : (n : ℕ) (x : A) (xs : List A) → n ≤ length xs → last_of n (x ∷ xs) ≡ last_of n xs
  unfolding drop_front
  last_of-cons n x xs enough =
      let one_more : suc (length xs) - n ≡ suc (length xs - n) = omega arith in
      ap (λ k. drop_front k (x ∷ xs)) one_more

  pub last_of-without_first :
      (n : ℕ) (xs ys : List A)
      → n < length xs
      → last_of n (without_first xs ++ ys) ≡ last_of n (xs ++ ys)
  last_of-without_first n [] ys many = absurd (omega arith)
  last_of-without_first n (x ∷ xs) ys many =
      sym (last_of-cons n x (xs ++ ys) (omega (arith, length-append xs ys)))

  pub take_front-whole : (n : ℕ) (xs : List A) → length xs ≤ n → take_front n xs ≡ xs
  take_front-whole n [] few = refl
  take_front-whole zero (x ∷ xs) few = absurd (omega arith)
  take_front-whole (suc n) (x ∷ xs) few = ap (λ ys. x ∷ ys) (take_front-whole n xs (omega arith))

  pub take_front-exact : (n : ℕ) (xs ys : List A) → length xs ≡ n → take_front n (xs ++ ys) ≡ xs
  take_front-exact zero [] [] exact = refl
  take_front-exact zero [] (y ∷ ys) exact = refl
  take_front-exact (suc n) [] ys exact = absurd (omega arith)
  take_front-exact zero (x ∷ xs) ys exact = absurd (omega arith)
  take_front-exact (suc n) (x ∷ xs) ys exact =
      ap (λ zs. x ∷ zs) (take_front-exact n xs ys (omega arith))

  pub take_front-none : (xs : List A) → take_front 0 xs ≡ []
  take_front-none [] = refl
  take_front-none (x ∷ xs) = refl

  drop_front-all : (xs : List A) → drop_front (length xs) xs ≡ []
  unfolding drop_front
  drop_front-all [] = refl
  drop_front-all (x ∷ xs) = drop_front-all xs

  pub last_of-none : (xs : List A) → last_of 0 xs ≡ []
  last_of-none xs =
      let all : length xs - 0 ≡ length xs = omega arith in
      ap (λ k. drop_front k xs) all ∙ drop_front-all xs

  pub length-without_first : (xs : List A) → length (without_first xs) ≡ length xs - 1
  length-without_first [] = refl
  length-without_first (x ∷ xs) = omega arith
