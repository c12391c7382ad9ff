-- ===== src/Base/Integers.antt =====
-- The signed integers, for a C `int` that goes below zero.
use Prim.Native.Nat.{ℕ, zero, suc, ◌+◌, ◌^◌}
use mathlib.Core.Bool.{Bool, false}
use osprograms.Base.Tests.{leb}

-- `pos n` is n and `negsuc n` is -(n + 1).
pub data ℤ : Type 0 where
  pos negsuc : ℕ → ℤ

-- `value++`
abbrev pub suc_ℤ : ℤ → ℤ
suc_ℤ (pos n) = pos (suc n)
suc_ℤ (negsuc zero) = pos 0
suc_ℤ (negsuc (suc n)) = negsuc n

-- `value--`
abbrev pub pred_ℤ : ℤ → ℤ
pred_ℤ (pos zero) = negsuc 0
pred_ℤ (pos (suc n)) = pos n
pred_ℤ (negsuc n) = negsuc (suc n)

-- An `int` has a largest value and a smallest one.
abbrev pub is_int_max : ℤ → Bool
is_int_max (pos n) = leb (2 ^ 31) (n + 1)
is_int_max (negsuc n) = false

abbrev pub is_int_min : ℤ → Bool
is_int_min (pos n) = false
is_int_min (negsuc n) = leb (2 ^ 31) (n + 1)
