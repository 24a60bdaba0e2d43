-- ===== src/Prelude/Float.antt =====
-- Python's floats, which the model takes as a parameter: a type with the operations that the
-- program uses. The laws that a theorem needs are hypotheses of that theorem.
use Prim.Native.Nat.{ℕ}
use Prim.Native.String.{String}
use mathlib.Core.Path.{◌≡◌}
use mathlib.Core.Bool.{Bool, true, false}
use mathlib.Core.Option.{Option}
use inference_lab.Prelude.Int.{ℤ}

pub record Floats (F : Type 0) : Type 0 where
  -- The literal with the digits of a number and so many digits behind its point: 0.88 is
  -- `literal 88 2`.
  pub literal : ℕ → ℕ → F
  pub of_int : ℤ → F
  -- `float(s)` of a text, which may fail.
  pub of_text : String → Option F
  -- `int(x)` and `str(x)`
  pub to_int : F → ℤ
  pub to_text : F → String
  pub plus : F → F → F
  pub times : F → F → F
  pub over : F → F → F
  -- `round(x, digits)`
  pub round : F → ℕ → F
  pub lt : F → F → Bool
  pub le : F → F → Bool

-- A float that is not NaN: NaN is the only one that is not `<=` itself.
abbrev pub IsNumber : {F : Type 0} → Floats F → F → Type 0
IsNumber fl a = fl.le a a ≡ true

-- The order of floats. With NaN every comparison is false; among numbers, what is not below is at
-- least as large, and that is transitive.
pub record FloatOrder {F : Type 0} (fl : Floats F) : Type 0 where
  pub irrefl : (a : F) → fl.lt a a ≡ false
  pub trans :
      (a b c : F)
      → IsNumber fl a
      → IsNumber fl b
      → IsNumber fl c
      → fl.lt a b ≡ false
      → fl.lt b c ≡ false
      → fl.lt a c ≡ false
  pub asym : (a b : F) → fl.lt a b ≡ true → fl.lt b a ≡ false
