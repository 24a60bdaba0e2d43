-- ===== src/Samples/Plans.antt =====
-- Plans and tuning loops.
use inference_lab.Prelude.{ℕ, ◌≡◌, [], ◌∷◌, take, length, All, none}
use inference_lab.Prelude.Int.{pos, negsuc}
use inference_lab.Tuning.Planning.{plan_candidates}
use inference_lab.Tuning.Matrix.{standard_matrix}
use inference_lab.Tuning.Matrix.Order.{IsSorted}
use inference_lab.Tuning.Bounds.{InMatrix, standard_matrix-InMatrix}
use inference_lab.Tuning.Length.{length-plan_candidates_standard, sliced}
use inference_lab.Tuning.Loop.{TuningResult, run_agent_tuning_loop}
use inference_lab.Result.{Result, ok, err}
use inference_lab.Samples.Values.{millionths, low_draws, score_seqs}

standard_matrix-InMatrix_example :
    All (InMatrix millionths 8) (standard_matrix millionths 8 (pos 7) ((100, 50) ∷ []))
    × IsSorted (standard_matrix millionths 8 (pos 7) ((100, 50) ∷ []))
standard_matrix-InMatrix_example = standard_matrix-InMatrix millionths 8 (pos 7) ((100, 50) ∷ [])

length-plan_candidates_standard_example :
    (length (plan_candidates millionths low_draws 4 (pos 20) [] "standard").1 ≡ 20)
    × ((plan_candidates millionths low_draws 4 (negsuc 2) [] "standard").1
        ≡ take
            (sliced (negsuc 2) 20)
            (plan_candidates millionths low_draws 4 (pos 20) [] "standard").1)
    × (length (plan_candidates millionths low_draws 4 (negsuc 2) [] "standard").1
        ≡ sliced (negsuc 2) 20)
length-plan_candidates_standard_example =
    length-plan_candidates_standard millionths low_draws 4 (negsuc 2) []

abbrev result_or_blank : Result (TuningResult ℕ) → TuningResult ℕ
result_or_blank (ok r) = r
result_or_blank (err e) = record { phases = []; observations = []; best = none; status = "" }

abbrev three_trials : TuningResult ℕ
three_trials =
    result_or_blank
      (run_agent_tuning_loop millionths score_seqs low_draws 2 (pos 3) [] "intelligent" 0).0
