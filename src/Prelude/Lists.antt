-- ===== src/Prelude/Lists.antt =====
-- Lists measured and indexed by native numbers, under the library's names.
use Prim.Native.Nat.{ℕ, zero, suc, ◌+◌}
use mathlib.Core.Path.{◌≡◌, refl}
use mathlib.Core.Bool.{Bool, true, false, ◌&&◌}
use mathlib.Core.List.{List, [], ◌∷◌, ◌++◌}
use native.Mathlib.Omega.{arith}
use plasmite.Prelude.Tests.{◌==◌}

module _ {ℓ} {A : Type ℓ} where
  abbrev pub length : List A → ℕ
  length [] = 0
  length (x ∷ xs) = suc (length xs)

  abbrev pub get_or : List A → ℕ → A → A
  get_or [] i d = d
  get_or (x ∷ xs) zero d = x
  get_or (x ∷ xs) (suc i) d = get_or xs i d

  abbrev pub All {κ} : (A → Type κ) → List A → Type κ
  All P [] = Unit {κ}
  All P (x ∷ xs) = P x × All P xs

  pub length-append : (xs ys : List A) → length (xs ++ ys) ≡ length xs + length ys
  length-append [] ys = omega arith
  length-append (x ∷ xs) ys = omega (arith, length-append xs ys)

-- Two byte strings are compared byte by byte.
abbrev pub eq_bytes : List ℕ → List ℕ → Bool
eq_bytes [] [] = true
eq_bytes [] (y ∷ ys) = false
eq_bytes (x ∷ xs) [] = false
eq_bytes (x ∷ xs) (y ∷ ys) = x == y && eq_bytes xs ys

pub eq_bytes_refl : (xs : List ℕ) → eq_bytes xs xs ≡ true
eq_bytes_refl [] = refl
eq_bytes_refl (x ∷ xs) = ground (arith, eq_bytes_refl xs)
