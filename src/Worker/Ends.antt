-- ===== src/Worker/Ends.antt =====
-- In which state the worker leaves a job.
use inference_lab.Prelude.{String, ◌≡◌, refl, ◌∙◌, inl, inr, some, get, Bool-cases, String-eq}
use inference_lab.Result.{Result, ok, err, message}
use inference_lab.Benchmark.Plan.{BenchmarkPlanCreate, BenchmarkCommandPlan}
use inference_lab.Benchmark.Remote.{RemoteRun}
use inference_lab.Jobs.{JobRecord}
use inference_lab.Database.Session.{Session}
use inference_lab.Api.{Deployment}
use inference_lab.Api.Experiments.{add_job}
use inference_lab.Api.Persistence.{error_of, persist_remote_benchmark_artifacts, entries}
use inference_lab.Api.Benchmarks.{succeeded_run, with_artifacts}
use inference_lab.Api.Benchmarks.Jobs.{HasEnded, Committed, persist_entries-IsKept, get-committed}
use inference_lab.Worker.{
  started_job, completed_job, failed_job, remote_run, settled_run, run_remote_benchmark_job,
}

module _ {F W : Type 0} (d : Deployment F W) where
  completed_job-HasEnded :
      (job : JobRecord F) (plan : BenchmarkCommandPlan) (run : RemoteRun F)
      → HasEnded d (completed_job d job plan run)
  unfolding completed_job
  completed_job-HasEnded job plan run = elim (Bool-cases (succeeded_run d run)) [
    | inl good ↦ rw good (refl, inl (refl, refl))
    | inr bad ↦ rw bad (refl, inr (refl, (error_of run, refl)))
  ]

  settled_run-Committed :
      (job_id : String) (job : JobRecord F)
      (r : Result (BenchmarkCommandPlan × RemoteRun F) × Session F W)
      → job.id ≡ job_id
      → Committed d job_id (settled_run d job r).1
  unfolding settled_run failed_job persist_remote_benchmark_artifacts
  settled_run-Committed job_id job (err exc, s) e = (
    failed_job d job exc,
    get-committed d job_id (failed_job d job exc) s.pending.jobs e,
    (refl, inr (refl, (message exc, refl))),
  )
  settled_run-Committed job_id job (ok (plan, run), s) e =
      let done = completed_job d job plan run in
      let kept = persist_entries-IsKept d (entries done run) done plan s in
      rw (kept.returns) (
        with_artifacts d kept.next kept.refs,
        get-committed d job_id (with_artifacts d kept.next kept.refs) kept.after.pending.jobs
            (kept.same_id ∙ unfold completed_job in e),
        kept.ends (completed_job-HasEnded job plan run),
      )

  -- Every job that a worker takes up ends: whatever the payload, the machine and the object store
  -- do, the row that is committed last has progress 1 and has either succeeded without an error
  -- or failed with one. The job must be stored under its own id.
  pub run_remote_benchmark_job-HasEnded :
      (job_id : String) (payload : Result (BenchmarkPlanCreate F)) (job : JobRecord F)
      (s : Session F W)
      → get job_id s.pending.jobs ≡ some job
      → job.id ≡ job_id
      → Committed d job_id (run_remote_benchmark_job d job_id payload s).1
  unfolding run_remote_benchmark_job started_job
  run_remote_benchmark_job-HasEnded job_id payload job s there same =
      let now : Session F W = record s {
        pending = add_job (started_job d job) s.pending;
        saved = add_job (started_job d job) s.pending;
      } in
      rw there (settled_run-Committed job_id (started_job d job) (remote_run d payload now) same)
