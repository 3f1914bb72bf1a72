-- ===== src/Common/Words.antt =====
-- `size_t` on the supported 64-bit platforms: addition and subtraction wrap modulo 2 ^ 64.
use Prim.Native.Nat.{ℕ, ◌+◌, ◌-◌, ◌%◌, ◌^◌, ◌≤◌, ◌<◌}
use mathlib.Core.Path.{◌≡◌}
use native.Mathlib.Omega.{arith}

abbrev pub size_max : ℕ
size_max = 2 ^ 64 - 1

unfoldable pub add64 : ℕ → ℕ → ℕ
add64 a b = (a + b) % 2 ^ 64

unfoldable pub sub64 : ℕ → ℕ → ℕ
sub64 a b = (a + 2 ^ 64 - b) % 2 ^ 64

pub add64-eq : (a b : ℕ) → a + b < 2 ^ 64 → add64 a b ≡ a + b
unfolding add64
add64-eq a b h = omega arith

pub sub64-eq : (a b : ℕ) → b ≤ a → a < 2 ^ 64 → sub64 a b ≡ a - b
unfolding sub64
sub64-eq a b h k = omega arith

-- A subtraction that goes below zero wraps to the top of the range.
pub sub64_wraps : (a b : ℕ) → a < b → b < 2 ^ 64 → sub64 a b ≡ 2 ^ 64 - (b - a)
unfolding sub64
sub64_wraps a b h k = omega arith
