-- ===== src/Base/Int.antt =====
-- Go's `int` as an integer over the native numbers, under the library's names, with the tests that the
-- code makes. `int` has 64 bits; the code's own bounds are written out where they matter (`atoi`).
use Prim.Native.Nat.{ℕ, zero, suc, ◌-◌}
use mathlib.Core.Bool.{Bool, true, false}
use package.funsip.Base.Tests.{ltb, leb, if◌then◌else◌}

-- `negsuc n` is -(n + 1).
pub data ℤ : Type 0 where
  pos : ℕ → ℤ
  negsuc : ℕ → ℤ

abbrev pub pos_part : ℤ → ℕ
pos_part (pos n) = n
pos_part (negsuc n) = 0

abbrev pub neg_part : ℤ → ℕ
neg_part (pos n) = 0
neg_part (negsuc n) = suc n

-- a - b, as an integer.
abbrev pub sub_ℕ : ℕ → ℕ → ℤ
sub_ℕ a b = if leb b a then pos (a - b) else negsuc (b - a - 1)

-- -n, as an integer.
abbrev pub neg_ℕ : ℕ → ℤ
neg_ℕ zero = pos 0
neg_ℕ (suc n) = negsuc n

-- `x < n`, `x >= n` and `x > n` for a constant n that is not negative.
abbrev pub lt_const : ℤ → ℕ → Bool
lt_const (pos m) n = ltb m n
lt_const (negsuc m) n = true

abbrev pub ge_const : ℤ → ℕ → Bool
ge_const (pos m) n = leb n m
ge_const (negsuc m) n = false

abbrev pub gt_const : ℤ → ℕ → Bool
gt_const (pos m) n = ltb n m
gt_const (negsuc m) n = false

-- `x < 0`
abbrev pub is_negative : ℤ → Bool
is_negative (pos m) = false
is_negative (negsuc m) = true
