-- ===== src/Base/Words.antt =====
-- `uint64_t` and `uint32_t` arithmetic with its wrap-around, and the ranges in which it is exact.
use Prim.Native.Nat.{ℕ, ◌+◌, ◌-◌, ◌*◌, ◌%◌, ◌^◌, ◌≤◌, ◌<◌}
use mathlib.Core.Path.{◌≡◌}
use native.Mathlib.Omega.{arith}

abbrev pub u64_mod : ℕ
u64_mod = 2 ^ 64

-- The first number that an `int` does not hold.
abbrev pub int_mod : ℕ
int_mod = 2 ^ 31

abbrev pub u32_mod : ℕ
u32_mod = 2 ^ 32

unfoldable pub add64 : ℕ → ℕ → ℕ
add64 a b = (a + b) % u64_mod

unfoldable pub sub64 : ℕ → ℕ → ℕ
sub64 a b = (a + u64_mod - b % u64_mod) % u64_mod

unfoldable pub mul64 : ℕ → ℕ → ℕ
mul64 a b = (a * b) % u64_mod

unfoldable pub add32 : ℕ → ℕ → ℕ
add32 a b = (a + b) % u32_mod

unfoldable pub sub32 : ℕ → ℕ → ℕ
sub32 a b = (a + u32_mod - b % u32_mod) % u32_mod

pub add64-exact : (a b : ℕ) → a + b < u64_mod → add64 a b ≡ a + b
unfolding add64
add64-exact a b h = omega arith

pub sub64-exact : (a b : ℕ) → b ≤ a → a < u64_mod → sub64 a b ≡ a - b
unfolding sub64
sub64-exact a b h k = omega arith

pub sub32-exact : (a b : ℕ) → b ≤ a → a < u32_mod → sub32 a b ≡ a - b
unfolding sub32
sub32-exact a b h k = omega arith

pub add32-exact : (a b : ℕ) → a + b < u32_mod → add32 a b ≡ a + b
unfolding add32
add32-exact a b h = omega arith
