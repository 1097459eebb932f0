-- ===== src/Base/Int.antt =====
-- Signed integers (`i32` exit codes, `i64` differences) over the native numbers.
use Prim.Native.Nat.{ℕ, ◌-◌, ◌^◌}
use mathlib.Core.Bool.{Bool, true, false}
use automated_flywheel_setup.Base.Tests.{ltb, leb, eqb, if◌then◌else◌}

-- `negsuc n` is -(n + 1).
pub data ℤ : Type 0 where
  pos : ℕ → ℤ
  negsuc : ℕ → ℤ

-- A test against a literal that is not negative, as `exit_code == 127`.
abbrev pub is_nat : ℤ → ℕ → Bool
is_nat (pos m) n = eqb m n
is_nat (negsuc m) n = false

-- The difference of two natural numbers.
abbrev pub sub_ℕ : ℕ → ℕ → ℤ
sub_ℕ a b = if leb b a then pos (a - b) else negsuc (b - a - 1)

-- Whether the integer is above a natural number.
abbrev pub above_ℕ : ℤ → ℕ → Bool
above_ℕ (pos m) n = ltb n m
above_ℕ (negsuc m) n = false

-- `n as i64`, of an `u64`
abbrev pub as_i64 : ℕ → ℤ
as_i64 n = if ltb n (2 ^ 63) then pos n else negsuc (2 ^ 64 - n - 1)

-- Whether an integer is greater than another.
abbrev pub gtb : ℤ → ℤ → Bool
gtb (pos m) (pos n) = ltb n m
gtb (pos m) (negsuc n) = true
gtb (negsuc m) (pos n) = false
gtb (negsuc m) (negsuc n) = ltb m n
