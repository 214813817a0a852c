-- ===== src/Common/Int.antt =====
-- Go's signed integers: `negsuc n` is -(n + 1).
use Prim.Native.Nat.{ℕ, zero, suc}
use mathlib.Core.Bool.{Bool, true, false}
use api_security_sdk.Common.Tests.{ltb}

pub data ℤ : Type 0 where
  pos : ℕ → ℤ
  negsuc : ℕ → ℤ

-- A positive number, or the default for zero and the negative ones.
abbrev pub positive_or : ℕ → ℤ → ℕ
positive_or d (pos zero) = d
positive_or d (pos (suc n)) = suc n
positive_or d (negsuc n) = d

-- `a > b`
abbrev pub gt_ℤ : ℤ → ℤ → Bool
gt_ℤ (pos a) (pos b) = ltb b a
gt_ℤ (pos a) (negsuc b) = true
gt_ℤ (negsuc a) (pos b) = false
gt_ℤ (negsuc a) (negsuc b) = ltb a b
