-- ===== src/Shared/Word.antt =====
-- Go's `int` on a 64-bit machine, for operands that are not negative: a sum or a product wraps
-- to a bit pattern, and `<` reads a pattern as a signed number.
use Prim.Native.Nat.{ℕ, ◌+◌, ◌*◌, ◌%◌, ◌^◌, ◌<◌}
use mathlib.Core.Path.{◌≡◌}
use mathlib.Core.Bool.{Bool}
use native.Mathlib.Omega.{arith}
use xtrinode.Shared.Tests.{ltb}

unfoldable pub add64 : ℕ → ℕ → ℕ
add64 a b = (a + b) % 2 ^ 64

unfoldable pub mul64 : ℕ → ℕ → ℕ
mul64 a b = (a * b) % 2 ^ 64

unfoldable pub lt64 : ℕ → ℕ → Bool
lt64 x y = ltb ((x + 2 ^ 63) % 2 ^ 64) ((y + 2 ^ 63) % 2 ^ 64)

pub add64-eq : (a b : ℕ) → a + b < 2 ^ 63 → add64 a b ≡ a + b
unfolding add64
add64-eq a b h = omega arith

pub mul64-eq : (a b : ℕ) → a * b < 2 ^ 63 → mul64 a b ≡ a * b
unfolding mul64
mul64-eq a b h = omega arith

-- Below 2^63 the signed order is the order of the numbers.
pub lt64-eq : (x y : ℕ) → x < 2 ^ 63 → y < 2 ^ 63 → lt64 x y ≡ ltb x y
unfolding lt64
lt64-eq x y p q = ground arith
