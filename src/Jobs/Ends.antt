-- ===== src/Jobs/Ends.antt =====
-- In which state a queue leaves a job.
use inference_lab.Prelude.{
  ◌≡◌, refl, String, none, some, List, [], ◌∷◌, get, get-put_same, put, ap, ◌∙◌,
}
use inference_lab.Prelude.Float.{Floats}
use inference_lab.Prelude.Json.{Json}
use inference_lab.Result.{Result, ok, err, message, Exception}
use inference_lab.Jobs.{
  JobRecord, JobTable, new_job, settled, enqueue, submitted, enqueue_importable,
}

module _ {F : Type 0} (fl : Floats F) where
  -- How a job ends, by what its handler gave.
  abbrev pub EndsWith : Result (List (String × Json F)) → JobRecord F → Type 0
  EndsWith (ok result) job =
      (job.status ≡ "succeeded")
      × (job.result ≡ result)
      × (job.error ≡ none)
      × (job.logs ≡ "job started" ∷ "job completed" ∷ [])
  EndsWith (err exc) job =
      (job.status ≡ "failed")
      × (job.result ≡ [])
      × (job.error ≡ some (message exc))
      × (job.logs ≡ "job started" ∷ "job failed" ∷ [])

  settled-EndsWith :
      (id job_type : String) (outcome : Result (List (String × Json F)))
      → EndsWith outcome
          (settled fl (new_job fl id job_type "running" (fl.literal 1 1) "job started") outcome)
  unfolding settled new_job
  settled-EndsWith id job_type (ok result) = (refl, refl, refl, refl)
  settled-EndsWith id job_type (err exc) = (refl, refl, refl, refl)

  settled-id :
      (job : JobRecord F) (outcome : Result (List (String × Json F)))
      → (settled fl job outcome).id ≡ job.id
  unfolding settled
  settled-id job (ok result) = refl
  settled-id job (err exc) = refl

  get-committed :
      (id : String) (last : JobRecord F) (rows : List (String × JobRecord F))
      → last.id ≡ id
      → get id (put last.id last rows) ≡ some last
  get-committed id last rows e = ap (λ k. get id (put k last rows)) e ∙ get-put_same id last rows

module _ {F W : Type 0} (fl : Floats F) where
  -- The job that the immediate queue returns is the row that it committed, and it has ended: it
  -- succeeded with the handler's result, or it failed with the text of the handler's exception.
  pub enqueue-EndsWith :
      (id job_type : String) (handler : W → Result (List (String × Json F)) × W)
      (table : JobTable F) (w : W)
      → (get id (enqueue fl id job_type handler table w).1.0.saved
          ≡ some (enqueue fl id job_type handler table w).0)
        × EndsWith fl (handler w).0 (enqueue fl id job_type handler table w).0
  unfolding enqueue
  enqueue-EndsWith id job_type handler table w =
      let job = new_job fl id job_type "running" (fl.literal 1 1) "job started" in
      (
        get-committed fl id (settled fl job (handler w).0) (put job.id job table.pending)
            (settled-id fl job (handler w).0 ∙ new_job-id),
        settled-EndsWith fl id job_type (handler w).0,
      )
    where
      new_job-id : (new_job fl id job_type "running" (fl.literal 1 1) "job started").id ≡ id
      new_job-id = unfold new_job in refl

  -- If Redis refuses a job, the call raises, and the row stays committed as queued.
  pub enqueue_importable_stuck :
      (id job_type : String) (submit : String → W → Result String × W) (table : JobTable F) (w : W)
      (exc : Exception)
      → (submit id w).0 ≡ err exc
      → ((enqueue_importable fl id job_type submit table w).0 ≡ err exc)
        × ((job : JobRecord F) × (get id
                (enqueue_importable fl id job_type submit table w).1.0.saved
              ≡ some job)
            × (job.status ≡ "queued"))
  unfolding enqueue_importable submitted new_job
  enqueue_importable_stuck id job_type submit table w exc h =
      let job = new_job fl id job_type "queued" (fl.literal 0 1) "job queued" in
      rw h (refl, (job, get-put_same id job table.pending, refl))
