-- ===== src/Worker.antt =====
-- backend/src/inflab/worker_tasks.py: the task that a worker of the queue runs.
pub mod Ends
use inference_lab.Prelude.{
  ℕ, String, Bool, Option, none, some, List, [], ◌∷◌, ◌++◌, get, if◌then◌else◌,
}
use inference_lab.Prelude.Json.{Json}
use inference_lab.Prelude.Text.{◌<>◌}
use inference_lab.Result.{Result, ok, err, runtime_error, message, Exception}
use inference_lab.Benchmark.Plan.{
  BenchmarkPlanCreate, BenchmarkCommandPlan, build_benchmark_command_plan,
}
use inference_lab.Benchmark.Remote.{RemoteRun, run_remote_benchmark}
use inference_lab.Jobs.{JobRecord}
use inference_lab.Database.{Tables, Machine, ModelRecord}
use inference_lab.Database.Session.{
  Session, Action, ◌>>=◌, ◌>>◌, return, raise, reads, lift, change, commit, outside_or_raise,
}
use inference_lab.Api.{Deployment}
use inference_lab.Api.Machines.{executor_for}
use inference_lab.Api.Experiments.{add_job}
use inference_lab.Api.Persistence.{logs_of, error_of, persist_remote_benchmark_artifacts}
use inference_lab.Api.Benchmarks.{succeeded_run, run_result, with_artifacts}

module _ {F W : Type 0} (d : Deployment F W) where
  unfoldable pub started_job : JobRecord F → JobRecord F
  started_job job = record job {
    status = "running";
    progress = d.floats.literal 1 1;
    logs = job.logs ++ "worker started" ∷ [];
  }

  unfoldable pub completed_job : JobRecord F → BenchmarkCommandPlan → RemoteRun F → JobRecord F
  completed_job job plan run = record job {
    status = if succeeded_run d run then "succeeded" else "failed";
    progress = d.floats.literal 1 0;
    logs = job.logs ++ (logs_of run ++ "worker completed" ∷ []);
    result = run_result d plan run;
    error = if succeeded_run d run then none else some (error_of run);
  }

  unfoldable pub failed_job : JobRecord F → Exception → JobRecord F
  failed_job job exc = record job {
    status = "failed";
    progress = d.floats.literal 1 0;
    logs = job.logs ++ "worker failed" ∷ [];
    error = some (message exc);
  }

  both_found : Option (Machine F) → Option (ModelRecord F) → Result (Machine F × ModelRecord F)
  both_found (some machine) (some model) = ok (machine, model)
  both_found machine model = err (runtime_error "machine or model not found")

  -- The body of the `try` up to the run, for what `model_validate` makes of the payload. What may
  -- raise in the `try` stands here, before anything is written to the job.
  unfoldable pub remote_run :
      Result (BenchmarkPlanCreate F) → Action F W (BenchmarkCommandPlan × RemoteRun F)
  unfolding both_found
  remote_run payload = do
    plan_payload ← lift payload
    machine ← reads (λ t. get plan_payload.run_spec.machine_id t.machines)
    model ← reads (λ t. get plan_payload.run_spec.model_id t.models)
    rows ← lift (both_found machine model)
    plan ← lift (build_benchmark_command_plan d.floats plan_payload rows.1.cache_path)
    executor ← lift (executor_for d rows.0)
    run ← outside_or_raise (run_remote_benchmark d.floats d.reader executor plan 3600)
    return (plan, run)

  -- The rest of the `try`, and the `except`.
  unfoldable pub settled_run :
      JobRecord F
      → Result (BenchmarkCommandPlan × RemoteRun F) × Session F W
      → Result (List (String × Json F)) × Session F W
  unfolding completed_job failed_job
  settled_run job (err exc, s) = (change (add_job (failed_job job exc)) >> commit >> raise exc) s
  settled_run job (ok (plan, run), s) =
      (do
        stored ← persist_remote_benchmark_artifacts d (completed_job job plan run) plan run
        change (add_job (with_artifacts d stored.0 stored.1))
        commit
        return (with_artifacts d stored.0 stored.1).result)
        s

  or_missing : String → Option (JobRecord F) → Action F W (JobRecord F)
  or_missing job_id none = raise (runtime_error ("job " <> (job_id <> " not found")))
  or_missing job_id (some job) = return job

  unfoldable pub run_remote_benchmark_job :
      String → Result (BenchmarkPlanCreate F) → Action F W (List (String × Json F))
  unfolding started_job remote_run settled_run or_missing
  run_remote_benchmark_job job_id payload = do
    row ← reads (λ t. get job_id t.jobs)
    job ← or_missing job_id row
    change (add_job (started_job job))
    commit
    λ s. settled_run (started_job job) (remote_run payload s)
