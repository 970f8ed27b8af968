-- ===== src/Base/Int64.antt =====
-- Go's `int` on a 64-bit machine, as its two's complement bit pattern below `2 ^ 64`.
use Prim.Native.Nat.{ℕ, ◌+◌, ◌-◌, ◌%◌, ◌^◌, ◌≤◌, ◌<◌}
use mathlib.Core.Path.{◌≡◌}
use mathlib.Core.Bool.{Bool, true, false}
use native.Mathlib.Omega.{arith}
use qa_d.Base.Tests.{ltb}

abbrev pub modulus : ℕ
modulus = 2 ^ 64

-- The patterns from here up are the negative integers.
abbrev pub sign : ℕ
sign = 2 ^ 63

unfoldable pub add_int : ℕ → ℕ → ℕ
add_int a b = (a + b) % modulus

unfoldable pub sub_int : ℕ → ℕ → ℕ
sub_int a b = (a + modulus - b) % modulus

-- `a > b`: with the sign bit flipped the patterns have the order of the integers.
unfoldable pub gt_int : ℕ → ℕ → Bool
gt_int a b = ltb ((b + sign) % modulus) ((a + sign) % modulus)

-- The integer of the pattern where it is not negative, and 0 where it is.
unfoldable pub max_zero : ℕ → ℕ
max_zero a = elim (ltb a sign) [ true ↦ a | false ↦ 0 ]

pub add_int_small : (a b : ℕ) → a + b < sign → add_int a b ≡ a + b
unfolding add_int
add_int_small a b h = omega arith

pub gt_int_small : (a b : ℕ) → a < sign → b < sign → gt_int a b ≡ ltb b a
unfolding gt_int
gt_int_small a b h k = ground arith

pub gt_int_negative : (a b : ℕ) → a < sign → sign ≤ b → b < modulus → gt_int a b ≡ true
unfolding gt_int
gt_int_negative a b h k l = ground arith

pub sub_int_left : (n a b : ℕ) → n ≡ a + b → a + b < sign → sub_int n a ≡ b
unfolding sub_int
sub_int_left n a b e h = omega arith
