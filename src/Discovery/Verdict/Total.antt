-- ===== src/Discovery/Verdict/Total.antt =====
-- When a discovery returns, and does not raise.
use inference_lab.Prelude.{All, all, ltb, leb, ◌&&◌, length, ◌≡◌, String, true, some, List, map}
use inference_lab.Prelude.Int.{ℤ}
use inference_lab.Prelude.Float.{Floats}
use inference_lab.Prelude.Text.{strip, split_lines, codes}
use inference_lab.Result.{Result, ok}
use inference_lab.Discovery.{PythonText, Results, stdout_of}
use inference_lab.Discovery.Profile.{without_point, split_on}
use inference_lab.Discovery.Verdict.{Discovery}

-- ASCII characters only, and at most 300: Python's `isdigit` also holds of characters that `int`
-- refuses, and longer numbers may be refused by `int` or be too large for a float.
abbrev pub IsPlain : String → Type 0
IsPlain s = (all (λ c. ltb c 128) (codes s) && leb (length (codes s)) 300) ≡ true

-- The numbers that the program parses after its test for digits, in plain texts.
pub record ReadsDigits {F : Type 0} (fl : Floats F) (py : PythonText F) : Type 0 where
  pub int_of : (s : String) → IsPlain s → py.is_digit s ≡ true → (n : ℤ) × (py.to_int s ≡ ok n)
  pub float_of :
      (s : String)
      → IsPlain s
      → py.is_digit (without_point s) ≡ true
      → (x : F) × (fl.of_text s ≡ some x)

abbrev pub cells : String → List String
cells line = map strip (split_on b',' line)

-- The answers that numbers are read from are plain: the stripped one of the memory command, and
-- every cell of the lines of the GPU command.
pub record ArePlain (results : Results) : Type 0 where
  pub memory : IsPlain (strip (stdout_of results "memory"))
  pub gpu : All (λ line. All IsPlain (cells line)) (split_lines (stdout_of results "gpu"))

abbrev Returns : {A : Type 0} → Result A → Type 0
Returns {A = A} r = (a : A) × (r ≡ ok a)
