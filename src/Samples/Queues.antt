-- ===== src/Samples/Queues.antt =====
-- Jobs and distributions.
use inference_lab.Prelude.{ℕ, suc, ◌≡◌, refl, String, none, some, List, [], ◌∷◌, ◌++◌, get}
use inference_lab.Prelude.Json.{Json}
use inference_lab.Prelude.Text.{codes}
use inference_lab.Result.{Result, err, other_error, value_error}
use inference_lab.Schemas.{plain_command}
use inference_lab.Shell.Lexer.{shell_words}
use inference_lab.Executor.{fake_executor}
use inference_lab.Steps.Running.{recording}
use inference_lab.Jobs.{JobRecord, JobTable, enqueue, enqueue_importable}
use inference_lab.Jobs.Ends.{EndsWith, enqueue-EndsWith, enqueue_importable_stuck}
use inference_lab.Artifacts.{
  model_distribution_command, model_verification_command, distribute_model,
}
use inference_lab.Artifacts.Distribution.{distribute_model-recording}
use inference_lab.Samples.Values.{millionths}

abbrev no_jobs : JobTable ℕ
no_jobs = record { pending = []; saved = [] }

abbrev refusing : ℕ → Result (List (String × Json ℕ)) × ℕ
refusing w = (err (value_error "no model"), suc w)

enqueue-EndsWith_example :
    (get "j1" (enqueue millionths "j1" "benchmark" refusing no_jobs 0).1.0.saved
      ≡ some (enqueue millionths "j1" "benchmark" refusing no_jobs 0).0)
    × EndsWith millionths (refusing 0).0 (enqueue millionths "j1" "benchmark" refusing no_jobs 0).0
enqueue-EndsWith_example = enqueue-EndsWith millionths "j1" "benchmark" refusing no_jobs 0

abbrev offline : String → ℕ → Result String × ℕ
offline id w = (err (other_error "redis is down"), w)

enqueue_importable_stuck_example :
    ((enqueue_importable millionths "j2" "benchmark" offline no_jobs 0).0
      ≡ err (other_error "redis is down"))
    × ((job : JobRecord ℕ) × (get "j2"
            (enqueue_importable millionths "j2" "benchmark" offline no_jobs 0).1.0.saved
          ≡ some job)
        × (job.status ≡ "queued"))
enqueue_importable_stuck_example =
    enqueue_importable_stuck millionths "j2" "benchmark" offline no_jobs 0
      (other_error "redis is down") refl

distribute_model-recording_example :
    (distribute_model (recording fake_executor) "rsync" "/models/a b" "/data/a b" none ([], []) ≡ (
      (distribute_model fake_executor "rsync" "/models/a b" "/data/a b" none []).0,
      (
        (distribute_model fake_executor "rsync" "/models/a b" "/data/a b" none []).1,
        []
            ++ plain_command (model_distribution_command "rsync" "/models/a b" "/data/a b")
              ∷ plain_command (model_verification_command "/data/a b" none)
              ∷ [],
      ),
    ))
    × (shell_words (codes (model_verification_command "/data/a b" none))
        ≡ some (codes "test" ∷ codes "-e" ∷ codes "/data/a b" ∷ []))
distribute_model-recording_example =
    distribute_model-recording fake_executor "rsync" "/models/a b" "/data/a b" none [] []
