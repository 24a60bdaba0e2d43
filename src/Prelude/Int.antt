-- ===== src/Prelude/Int.antt =====
-- Integers over the native numbers. `negsuc n` is -(n + 1).
use Prim.Native.Nat.{ℕ, suc, ◌+◌, ◌-◌, max, min}
use mathlib.Core.Bool.{Bool, false}
use inference_lab.Prelude.Tests.{leb, if◌then◌else◌, ◌==◌, ℕ-eq}

pub data ℤ : Type 0 where
  pos : ℕ → ℤ
  negsuc : ℕ → ℤ

-- `n == 0`
abbrev pub is_zero : ℤ → Bool
is_zero (pos n) = n == 0
is_zero (negsuc n) = false

-- Python's `max` of two integers.
abbrev pub max_ℤ : ℤ → ℤ → ℤ
max_ℤ (pos a) (pos b) = pos (max a b)
max_ℤ (pos a) (negsuc b) = pos a
max_ℤ (negsuc a) (pos b) = pos b
max_ℤ (negsuc a) (negsuc b) = negsuc (min a b)

abbrev pub IsNegative : ℤ → Type 0
IsNegative (pos n) = ⊥
IsNegative (negsuc n) = Unit

-- `a - b` of natural numbers, and the sum of integers.
abbrev sub_ℕ : ℕ → ℕ → ℤ
sub_ℕ a b = if leb b a then pos (a - b) else negsuc (b - suc a)

abbrev pub plus_ℤ : ℤ → ℤ → ℤ
plus_ℤ (pos a) (pos b) = pos (a + b)
plus_ℤ (pos a) (negsuc b) = sub_ℕ a (suc b)
plus_ℤ (negsuc a) (pos b) = sub_ℕ b (suc a)
plus_ℤ (negsuc a) (negsuc b) = negsuc (suc (a + b))
