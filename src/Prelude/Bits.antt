-- ===== src/Prelude/Bits.antt =====
-- Exclusive or at variables, from the recursion on binary digits that the native operation stands for.
use Prim.Native.Nat.{
  ℕ, zero, suc, ◌+◌, ◌*◌, ◌/◌, ◌%◌, ◌≤◌, ◌<◌, ◌^◌, bit_xor, digits, differ, bit_xor-bitwise,
}
use mathlib.Core.Path.{◌≡◌, refl, ap, ap₂, ◌∙◌}
use native.Mathlib.Omega.{arith}
use native.Mathlib.Nat.{pow-suc}

abbrev xor_digits : ℕ → ℕ → ℕ → ℕ
xor_digits n a b = digits (λ b. b) differ n a b

xor_digits_fuel : (n m a b : ℕ) → a ≤ n → a ≤ m → xor_digits n a b ≡ xor_digits m a b
xor_digits_fuel zero zero a b p q = refl
xor_digits_fuel zero (suc m) zero b p q = refl
xor_digits_fuel zero (suc m) (suc a) b p q = absurd (omega arith)
xor_digits_fuel (suc n) zero zero b p q = refl
xor_digits_fuel (suc n) zero (suc a) b p q = absurd (omega arith)
xor_digits_fuel (suc n) (suc m) zero b p q = refl
xor_digits_fuel (suc n) (suc m) (suc a) b p q =
    omega (arith, xor_digits_fuel n m (suc a / 2) (b / 2) (omega arith) (omega arith))

pub zero-bit_xor : (b : ℕ) → bit_xor 0 b ≡ b
zero-bit_xor b = bit_xor-bitwise 0 b

-- The law for the lowest digit.
bit_xor_step : (a b : ℕ) → bit_xor a b ≡ bit_xor (a / 2) (b / 2) * 2 + differ (a % 2) (b % 2)
bit_xor_step zero b = omega (arith, zero-bit_xor b, zero-bit_xor (b / 2))
bit_xor_step (suc a) b = omega (
  arith,
  bit_xor-bitwise (suc a) b,
  bit_xor-bitwise (suc a / 2) (b / 2),
  xor_digits_fuel a (suc a / 2) (suc a / 2) (b / 2) (omega arith) (omega arith),
)

digit_cancel : (x y : ℕ) → x < 2 → y < 2 → differ x (differ x y) ≡ y
digit_cancel zero y h k = refl
digit_cancel (suc zero) zero h k = refl
digit_cancel (suc zero) (suc zero) h k = refl
digit_cancel (suc zero) (suc (suc y)) h k = absurd (omega arith)
digit_cancel (suc (suc x)) y h k = absurd (omega arith)

digit_bound : (x y : ℕ) → x < 2 → y < 2 → differ x y < 2
digit_bound zero y h k = k
digit_bound (suc zero) zero h k = h
digit_bound (suc zero) (suc zero) h k = omega arith
digit_bound (suc zero) (suc (suc y)) h k = absurd (omega arith)
digit_bound (suc (suc x)) y h k = absurd (omega arith)

cancel_fuel : (n a b : ℕ) → a ≤ n → bit_xor a (bit_xor a b) ≡ b
cancel_fuel n zero b h = zero-bit_xor (bit_xor 0 b) ∙ zero-bit_xor b
cancel_fuel zero (suc a) b h = absurd (omega arith)
cancel_fuel (suc n) (suc a) b h =
    bit_xor_step (suc a) (bit_xor (suc a) b)
    ∙ ap₂ (λ t u. t * 2 + u)
        (ap (bit_xor (suc a / 2)) upper ∙ cancel_fuel n (suc a / 2) (b / 2) (omega arith))
        (ap (differ (suc a % 2)) lowest
          ∙ digit_cancel (suc a % 2) (b % 2) (omega arith) (omega arith))
    ∙ omega arith
  where
    low : differ (suc a % 2) (b % 2) < 2
    low = digit_bound (suc a % 2) (b % 2) (omega arith) (omega arith)

    upper : bit_xor (suc a) b / 2 ≡ bit_xor (suc a / 2) (b / 2)
    upper = omega (arith, bit_xor_step (suc a) b, low)

    lowest : bit_xor (suc a) b % 2 ≡ differ (suc a % 2) (b % 2)
    lowest = omega (arith, bit_xor_step (suc a) b, low)

-- Exclusive or with one number twice changes nothing.
pub bit_xor_cancel : (a b : ℕ) → bit_xor a (bit_xor a b) ≡ b
bit_xor_cancel a b = cancel_fuel a a b (omega arith)

-- Exclusive or of two `k`-bit numbers is a `k`-bit number.
pub bit_xor-lt : (k a b : ℕ) → a < 2 ^ k → b < 2 ^ k → bit_xor a b < 2 ^ k
bit_xor-lt zero zero b h h' = omega (arith, zero-bit_xor b)
bit_xor-lt zero (suc a) b h h' = absurd (omega arith)
bit_xor-lt (suc k) a b h h' =
    let low = digit_bound (a % 2) (b % 2) (omega arith) (omega arith) in
    let high =
      bit_xor-lt k (a / 2) (b / 2) (omega (arith, pow-suc 2 k)) (omega (arith, pow-suc 2 k)) in
    omega (arith, pow-suc 2 k, bit_xor_step a b)
