-- ===== src/Tuning/Loop/Best.antt =====
-- Which candidate the tuning loop reports as the best.
use inference_lab.Prelude.{◌≡◌, false, Option, none, some, List, [], ◌++◌, map, All}
use inference_lab.Prelude.Float.{Floats, IsNumber, FloatOrder}
use inference_lab.Prelude.Json.{Json}
use inference_lab.Result.{Result, ok, err}
use inference_lab.Tuning.{FrameworkParams}
use inference_lab.Tuning.Loop.{Observation}

module _ {F : Type 0} (fl : Floats F) where
  -- No observation has a score above the best one; with none there is no best one.
  abbrev pub IsBest : Option (Observation F) → List (Observation F) → Type 0
  IsBest none seen = seen ≡ []
  IsBest (some best) seen = All (λ o. fl.lt best.score o.score ≡ false) seen

  -- No score of the observations is NaN.
  abbrev pub AreNumbers : List (Observation F) → Type 0
  AreNumbers = All (λ o. IsNumber fl o.score)

  abbrev BestNumber : Option (Observation F) → Type 0
  BestNumber none = Unit
  BestNumber (some best) = IsNumber fl best.score

  -- What holds of the best one so far, if no score is NaN.
  abbrev Kept : Option (Observation F) → List (Observation F) → Type 0
  Kept best seen = AreNumbers seen → IsBest best seen × BestNumber best

  module _ (law : FloatOrder fl) where
    module _ {W : Type 0} (runner : FrameworkParams F → W → Json F × W) where
      -- What the loop has to give from observations `seen` and candidates `more`.
      abbrev Sound :
          List (Observation F)
          → List (FrameworkParams F)
          → Result (List (Observation F) × Option (Observation F))
          → Type 0
      Sound seen more (err e) = Unit
      Sound seen more (ok (all, best)) =
          Kept best all × (map (λ o. o.params) all ≡ map (λ o. o.params) seen ++ more)
