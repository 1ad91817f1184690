-- ===== src/Common/Integers.antt =====
-- Go's signed integers, where the program reads their sign.
use Prim.Native.Nat.{ℕ}
use mathlib.Core.Bool.{Bool, true}
use signal.Common.Tests.{ltb, leb}

-- `negsuc n` is -(n + 1).
pub data ℤ : Type 0 where
  pos : ℕ → ℤ
  negsuc : ℕ → ℤ

-- z <= 0
abbrev pub is_non_positive : ℤ → Bool
is_non_positive (pos n) = leb n 0
is_non_positive (negsuc n) = true

-- n > z
abbrev pub exceeds : ℕ → ℤ → Bool
exceeds n (pos m) = ltb m n
exceeds n (negsuc m) = true
