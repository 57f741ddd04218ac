-- ===== src/Shared/Int.antt =====
-- Signed integers over the native numbers, as far as the program tests them.
use Prim.Native.Nat.{ℕ}
use mathlib.Core.Bool.{Bool, true, false}
use mathlib.Core.Path.{◌≡◌, refl}
use native.Mathlib.Omega.{arith}
use xtrinode.Shared.Tests.{◌==◌, ltb}

-- `negsuc n` is -(n + 1).
pub data ℤ : Type 0 where
  pos : ℕ → ℤ
  negsuc : ℕ → ℤ

-- `x <= 0`.
abbrev pub non_positive : ℤ → Bool
non_positive (pos n) = n == 0
non_positive (negsuc n) = true

-- `x < 0`.
abbrev pub negative : ℤ → Bool
negative (pos n) = false
negative (negsuc n) = true

abbrev pub to_nat : ℤ → ℕ
to_nat (pos n) = n
to_nat (negsuc n) = 0

-- `x < y`.
abbrev pub int_lt : ℤ → ℤ → Bool
int_lt (pos a) (pos b) = ltb a b
int_lt (pos a) (negsuc b) = false
int_lt (negsuc a) (pos b) = true
int_lt (negsuc a) (negsuc b) = ltb b a

pub int_lt_asym : (x y : ℤ) → int_lt x y ≡ true → int_lt y x ≡ false
int_lt_asym (pos a) (pos b) h = ground (arith, h)
int_lt_asym (pos a) (negsuc b) h = ground (arith, h)
int_lt_asym (negsuc a) (pos b) h = refl
int_lt_asym (negsuc a) (negsuc b) h = ground (arith, h)

pub int_lt_ntrans : (x y z : ℤ) → int_lt x y ≡ false → int_lt y z ≡ false → int_lt x z ≡ false
int_lt_ntrans (pos a) (pos b) (pos c) p q = ground (arith, p, q)
int_lt_ntrans (pos a) y (negsuc c) p q = refl
int_lt_ntrans (pos a) (negsuc b) (pos c) p q = ground (arith, q)
int_lt_ntrans (negsuc a) (pos b) z p q = ground (arith, p)
int_lt_ntrans (negsuc a) (negsuc b) (pos c) p q = ground (arith, q)
int_lt_ntrans (negsuc a) (negsuc b) (negsuc c) p q = ground (arith, p, q)
