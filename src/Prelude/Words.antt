-- ===== src/Prelude/Words.antt =====
-- Unsigned 64-bit arithmetic as the Rust code uses it. `usize` is `u64` on the platforms supported.
-- A release build wraps on overflow; the `checked_` and `saturating_` methods do not.
use Prim.Native.Nat.{ℕ, ◌+◌, ◌-◌, ◌*◌, ◌%◌, ◌^◌, ◌≤◌, ◌<◌, min}
use mathlib.Core.Path.{◌≡◌}
use mathlib.Core.Option.{Option, none, some}
use native.Mathlib.Omega.{arith}
use plasmite.Prelude.Tests.{ltb, if◌then◌else◌}

abbrev pub IsU32 : ℕ → Type 0
IsU32 n = n < 2 ^ 32

abbrev pub IsU64 : ℕ → Type 0
IsU64 n = n < 2 ^ 64

-- `a + b` and `a - b`
abbrev pub add_u64 : ℕ → ℕ → ℕ
add_u64 a b = (a + b) % 2 ^ 64

abbrev pub sub_u64 : ℕ → ℕ → ℕ
sub_u64 a b = (a + 2 ^ 64 - b) % 2 ^ 64

abbrev pub saturating_sub : ℕ → ℕ → ℕ
saturating_sub a b = a - b

abbrev pub saturating_add : ℕ → ℕ → ℕ
saturating_add a b = min (a + b) (2 ^ 64 - 1)

abbrev pub saturating_mul : ℕ → ℕ → ℕ
saturating_mul a b = min (a * b) (2 ^ 64 - 1)

abbrev pub checked_add : ℕ → ℕ → Option ℕ
checked_add a b = if ltb (a + b) (2 ^ 64) then some (a + b) else none

abbrev pub checked_mul : ℕ → ℕ → Option ℕ
checked_mul a b = if ltb (a * b) (2 ^ 64) then some (a * b) else none

pub add_u64_exact : (a b : ℕ) → IsU64 (a + b) → add_u64 a b ≡ a + b
add_u64_exact a b h = omega arith

pub sub_u64_exact : (a b : ℕ) → b ≤ a → IsU64 a → sub_u64 a b ≡ a - b
sub_u64_exact a b h k = omega arith
