-- ===== src/Jobs.antt =====
-- backend/src/inflab/jobs.py: the queue that runs a job at once, and the one that hands it to Redis.
pub mod Ends
use inference_lab.Prelude.{ℕ, String, Bool, Option, none, some, List, [], ◌∷◌, ◌++◌, put}
use inference_lab.Prelude.Float.{Floats}
use inference_lab.Prelude.Json.{Json, text}
use inference_lab.Result.{Result, ok, err, message}

-- `JobRecord` of db/models.py.
pub record JobRecord (F : Type 0) : Type 0 where
  pub id : String
  pub job_type : String
  pub status : String
  pub progress : F
  pub logs : List String
  pub result : List (String × Json F)
  pub error : Option String

-- The rows that a session sees, and those that are committed.
pub record JobTable (F : Type 0) : Type 0 where
  pub pending : List (String × JobRecord F)
  pub saved : List (String × JobRecord F)

module _ {F : Type 0} (fl : Floats F) where
  abbrev add : JobRecord F → JobTable F → JobTable F
  add job table = record table { pending = put job.id job table.pending }

  abbrev commit : JobTable F → JobTable F
  commit table = record table { saved = table.pending }

  unfoldable pub new_job : String → String → String → F → String → JobRecord F
  new_job id job_type status progress log = record {
    id = id;
    job_type = job_type;
    status = status;
    progress = progress;
    logs = log ∷ [];
    result = [];
    error = none;
  }

  unfoldable pub settled : JobRecord F → Result (List (String × Json F)) → JobRecord F
  settled job (ok result) = record job {
    status = "succeeded";
    progress = fl.literal 1 0;
    logs = job.logs ++ "job completed" ∷ [];
    result = result;
  }
  settled job (err exc) = record job {
    status = "failed";
    progress = fl.literal 1 0;
    logs = job.logs ++ "job failed" ∷ [];
    error = some (message exc);
  }

  module _ {W : Type 0} where
    -- `FakeQueue.enqueue`, for the id that the row gets.
    unfoldable pub enqueue :
        String
        → String
        → (W → Result (List (String × Json F)) × W)
        → JobTable F
        → W
        → JobRecord F × (JobTable F × W)
    enqueue id job_type handler table w =
        let job = new_job id job_type "running" (fl.literal 1 1) "job started" in
        let (outcome, after) = handler w in
        let last = settled job outcome in (last, (commit (add last (add job table)), after))

    submitted :
        JobRecord F → JobTable F → Result String × W → Result (JobRecord F) × (JobTable F × W)
    submitted job table (err exc, after) = (err exc, (table, after))
    submitted job table (ok rq_id, after) =
        let last : JobRecord F = record job { result = ("rq_job_id", text rq_id) ∷ [] } in
        (ok last, (commit (add last table), after))

    -- `RQQueue.enqueue_importable`; `submit` is `Queue.enqueue` with the path of the function.
    unfoldable pub enqueue_importable :
        String
        → String
        → (String → W → Result String × W)
        → JobTable F
        → W
        → Result (JobRecord F) × (JobTable F × W)
    unfolding submitted
    enqueue_importable id job_type submit table w =
        let job = new_job id job_type "queued" (fl.literal 0 1) "job queued" in
        submitted job (commit (add job table)) (submit id w)
