-- ===== src/Prelude/Int64.antt =====
-- Go's int64 arithmetic: results wrap around at 64 bits, and division truncates towards zero.
use Prim.Native.Nat.{ℕ, suc, ◌+◌, ◌-◌, ◌*◌, ◌/◌, ◌%◌, ◌≤◌, ◌<◌}
use mathlib.Core.Path.{◌≡◌, refl}
use native.Mathlib.Omega.{arith}
use bindplane_operator.Prelude.Tests.{ltb, leb, if◌then◌else◌}
use bindplane_operator.Prelude.Int.{ℤ, pos, negsuc, pos_part, neg_part}

-- 2 ^ 63
abbrev pub two_63 : ℕ
two_63 = 9223372036854775808

-- a - b, as an integer.
abbrev pub sub_ℕ : ℕ → ℕ → ℤ
sub_ℕ a b = if leb b a then pos (a - b) else negsuc (b - a - 1)

-- The bit pattern of an integer.
abbrev pub residue64 : ℤ → ℕ
residue64 (pos n) = n % (2 * two_63)
residue64 (negsuc n) = 2 * two_63 - 1 - n % (2 * two_63)

unfoldable pub wrap64 : ℤ → ℤ
wrap64 a = let u = residue64 a in if ltb u two_63 then pos u else negsuc (2 * two_63 - 1 - u)

unfoldable pub add64 : ℤ → ℤ → ℤ
unfolding wrap64
add64 a b = wrap64 (sub_ℕ (pos_part a + pos_part b) (neg_part a + neg_part b))

unfoldable pub sub64 : ℤ → ℤ → ℤ
unfolding wrap64
sub64 a b = wrap64 (sub_ℕ (pos_part a + neg_part b) (neg_part a + pos_part b))

unfoldable pub mul64 : ℤ → ℤ → ℤ
unfolding wrap64
mul64 a b = wrap64 (
    sub_ℕ (pos_part a * pos_part b + neg_part a * neg_part b)
      (pos_part a * neg_part b + neg_part a * pos_part b))

-- Division by a positive constant.
unfoldable pub quot : ℤ → ℕ → ℤ
quot (pos n) d = pos (n / d)
quot (negsuc n) d = sub_ℕ 0 (suc n / d)

pub wrap64_of_lt : (n : ℕ) → n < two_63 → wrap64 (pos n) ≡ pos n
unfolding wrap64
wrap64_of_lt n h = ground arith

pub add64_of_lt : (a b : ℕ) → a + b < two_63 → add64 (pos a) (pos b) ≡ pos (a + b)
unfolding add64
add64_of_lt a b h = ground arith

pub sub64_of_le : (a b : ℕ) → b ≤ a → a < two_63 → sub64 (pos a) (pos b) ≡ pos (a - b)
unfolding sub64
sub64_of_le a b h k = ground arith

add64_wraps : add64 (pos 9223372036854775807) (pos 1) ≡ negsuc 9223372036854775807
unfolding add64
add64_wraps = refl
