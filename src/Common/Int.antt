-- ===== src/Common/Int.antt =====
-- Signed integers, for the `bigint` values that the source tests for their sign.
use Prim.Native.Nat.{ℕ, ◌+◌}
use mathlib.Core.Bool.{Bool, true, false}
use zephipay_backend.Common.Tests.{ltb, eqb}

-- `negsuc n` is -(n + 1).
pub data ℤ : Type 0 where
  pos : ℕ → ℤ
  negsuc : ℕ → ℤ

abbrev pub is_negative : ℤ → Bool
is_negative (pos n) = false
is_negative (negsuc n) = true

-- `0n < a`
abbrev pub is_positive : ℤ → Bool
is_positive (pos n) = ltb 0 n
is_positive (negsuc n) = false

abbrev pub eq_ℤ : ℤ → ℤ → Bool
eq_ℤ (pos a) (pos b) = eqb a b
eq_ℤ (negsuc a) (negsuc b) = eqb a b
eq_ℤ _ _ = false

-- The number of a value that is not negative.
abbrev pub magnitude : ℤ → ℕ
magnitude (pos n) = n
magnitude (negsuc n) = n + 1
