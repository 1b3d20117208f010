-- ===== src/Base/Ints.antt =====
-- Go's `int64`: integers over the native numbers, and addition with its wrap-around.
use Prim.Native.Nat.{ℕ, ◌+◌, ◌-◌, ◌^◌, ◌%◌, ◌<◌}
use mathlib.Core.Path.{◌≡◌}
use mathlib.Core.Bool.{Bool, true, false}
use native.Mathlib.Omega.{arith}
use elvis.Base.Tests.{ltb, leb, if◌then◌else◌}

pub data ℤ : Type 0 where
  pos negsuc : ℕ → ℤ

-- The number whose bits in two's complement are those of `n`.
unfoldable pub to_int64 : ℕ → ℤ
to_int64 n =
    let bits = n % 2 ^ 64 in if ltb bits (2 ^ 63) then pos bits else negsuc (2 ^ 64 - 1 - bits)

-- A time that the clock shows, plus an integer. The bits of `negsuc m` are those of 2⁶⁴ - 1 - m.
unfoldable pub add_int64 : ℕ → ℤ → ℤ
add_int64 n (pos m) = to_int64 (n + m)
add_int64 n (negsuc m) = to_int64 (n + (2 ^ 64 - 1 - m))

unfoldable pub lt_int : ℤ → ℤ → Bool
lt_int (pos a) (pos b) = ltb a b
lt_int (pos a) (negsuc b) = false
lt_int (negsuc a) (pos b) = true
lt_int (negsuc a) (negsuc b) = ltb b a

unfoldable pub le_int : ℤ → ℤ → Bool
le_int (pos a) (pos b) = leb a b
le_int (pos a) (negsuc b) = false
le_int (negsuc a) (pos b) = true
le_int (negsuc a) (negsuc b) = leb b a

pub le_int_refl : (a : ℤ) → le_int a a ≡ true
unfolding le_int
le_int_refl (pos a) = ground arith
le_int_refl (negsuc a) = ground arith

pub le_int_trans : (a b c : ℤ) → le_int a b ≡ true → le_int b c ≡ true → le_int a c ≡ true
unfolding le_int
le_int_trans (pos a) (pos b) (pos c) h k = ground arith
le_int_trans (pos a) (pos b) (negsuc c) h k = ground arith
le_int_trans (pos a) (negsuc b) c h k = ground arith
le_int_trans (negsuc a) (pos b) (pos c) h k = ground arith
le_int_trans (negsuc a) (pos b) (negsuc c) h k = ground arith
le_int_trans (negsuc a) (negsuc b) (pos c) h k = ground arith
le_int_trans (negsuc a) (negsuc b) (negsuc c) h k = ground arith

pub le-of_lt : (a b : ℤ) → lt_int a b ≡ true → le_int a b ≡ true
unfolding lt_int le_int
le-of_lt (pos a) (pos b) h = ground arith
le-of_lt (pos a) (negsuc b) h = ground arith
le-of_lt (negsuc a) (pos b) h = ground arith
le-of_lt (negsuc a) (negsuc b) h = ground arith

pub le-of_not_lt : (a b : ℤ) → lt_int a b ≡ false → le_int b a ≡ true
unfolding lt_int le_int
le-of_not_lt (pos a) (pos b) h = ground arith
le-of_not_lt (pos a) (negsuc b) h = ground arith
le-of_not_lt (negsuc a) (pos b) h = ground arith
le-of_not_lt (negsuc a) (negsuc b) h = ground arith

pub not_le-of_lt : (a b : ℤ) → lt_int a b ≡ true → le_int b a ≡ false
unfolding lt_int le_int
not_le-of_lt (pos a) (pos b) h = ground arith
not_le-of_lt (pos a) (negsuc b) h = ground arith
not_le-of_lt (negsuc a) (pos b) h = ground arith
not_le-of_lt (negsuc a) (negsuc b) h = ground arith

-- Without overflow the sum is after its first part.
pub add_int64-after :
    (n m : ℕ) → 0 < m → n + m < 2 ^ 63 → lt_int (pos n) (add_int64 n (pos m)) ≡ true
unfolding lt_int add_int64 to_int64
add_int64-after n m h k = ground arith
