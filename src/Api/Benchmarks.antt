-- ===== src/Api/Benchmarks.antt =====
-- backend/src/inflab/api/v1.py: the handlers that run benchmarks as jobs, and
-- backend/src/inflab/benchmark_artifacts.py.
pub mod Jobs
use inference_lab.Prelude.{
  ℕ, String, Bool, true, false, Option, none, some, List, [], ◌∷◌, ◌++◌, get, put, if◌then◌else◌,
  ◌==◌, String-eq, map,
}
use inference_lab.Prelude.Int.{ℤ, pos, is_zero}
use inference_lab.Prelude.Json.{Json, null, int, float, text, object, array}
use inference_lab.Prelude.Text.{◌<>◌, is_empty, join}
use inference_lab.Result.{
  Result, ok, err, value_error, http_exception, message, Exception, ◌>>=◌ as bind,
}
use inference_lab.Schemas.{BenchmarkKind}
use inference_lab.Plugins.{RunSpec, build_launch_command}
use inference_lab.Benchmark.{fake_benchmark_result, normalize_metrics}
use inference_lab.Benchmark.Plan.{
  BenchmarkPlanCreate, BenchmarkCommandPlan, build_benchmark_command_plan,
}
use inference_lab.Benchmark.Remote.{RemoteRun, not_started, ran, run_remote_benchmark}
use inference_lab.Jobs.{JobRecord, JobTable, enqueue, enqueue_importable}
use inference_lab.ObjectStore.{StoredObject, upload_bytes}
use inference_lab.Database.{Tables, Machine, ModelRecord, Artifact}
use inference_lab.Database.Session.{
  Session, Action, ◌>>=◌, ◌>>◌, return, raise, reads, lift, change, commit, found, fresh,
  outside_or_raise,
}
use inference_lab.Api.{Deployment}
use inference_lab.Api.Machines.{the_machine, executor_for}
use inference_lab.Api.Trials.{result_json}
use inference_lab.Api.Experiments.{add_job}
use inference_lab.Api.Persistence.{logs_of, status_of, error_of, persist_remote_benchmark_artifacts}

run_json : {F : Type 0} → BenchmarkCommandPlan → RemoteRun F → Json F
run_json plan (not_started stderr) = object (
    ("status", text "failed")
    ∷ ("logs", array [])
    ∷ ("error", text stderr)
    ∷ ("result_path", text plan.result_path)
    ∷ [])
run_json plan (ran status exit_code logs stdout stderr raw_result parsed) = object (
    ("status", text status)
    ∷ ("exit_code", int exit_code)
    ∷ ("logs", array (map text logs))
    ∷ ("stdout", text stdout)
    ∷ ("stderr", text stderr)
    ∷ ("result_path", text plan.result_path)
    ∷ ("raw_result", text raw_result)
    ∷ ("parsed", object parsed)
    ∷ [])

kind_name : BenchmarkKind → String
kind_name BenchmarkKind.serve = "serve"
kind_name BenchmarkKind.throughput = "throughput"

-- `plan.model_dump(mode="json")`
plan_json : {F : Type 0} → BenchmarkCommandPlan → Json F
unfolding kind_name
plan_json plan = object (
    ("framework", text plan.framework)
    ∷ ("kind", text (kind_name plan.kind))
    ∷ ("serve_command", elim plan.serve_command [ none ↦ null | some line ↦ text line ])
    ∷ ("bench_command", text plan.bench_command)
    ∷ ("result_path", text plan.result_path)
    ∷ ("parser", text plan.parser)
    ∷ ("notes", array (map text plan.notes))
    ∷ [])

module _ {F W : Type 0} (d : Deployment F W) where
  abbrev pub with_artifacts : JobRecord F → List (Json F) → JobRecord F
  with_artifacts job refs = record job { result = put "artifacts" (array refs) job.result }

  unfoldable pub run_result : BenchmarkCommandPlan → RemoteRun F → List (String × Json F)
  unfolding run_json plan_json
  run_result plan run = ("plan", plan_json plan) ∷ ("remote_result", run_json plan run) ∷ []

  abbrev pub succeeded_run : RemoteRun F → Bool
  succeeded_run run = status_of run == "succeeded"

  -- The job of a run that was waited for.
  unfoldable pub inline_job : String → BenchmarkCommandPlan → RemoteRun F → JobRecord F
  unfolding run_result
  inline_job id plan run = record {
    id = id;
    job_type = "benchmark";
    status = if succeeded_run run then "succeeded" else "failed";
    progress = d.floats.literal 1 0;
    logs = logs_of run;
    result = run_result plan run;
    error = if succeeded_run run then none else some (error_of run);
  }

  -- `session.get(ModelRecord, model_id)`, and 404 where it finds none.
  abbrev pub the_model : String → Action F W (ModelRecord F)
  the_model model_id = do row ← reads (λ t. get model_id t.models); found "model" row

  unfoldable pub run_inline :
      Machine F → ModelRecord F → BenchmarkPlanCreate F → Action F W (JobRecord F)
  unfolding inline_job persist_remote_benchmark_artifacts
  run_inline machine model payload = do
    plan ← lift (build_benchmark_command_plan d.floats payload model.cache_path)
    executor ← lift (executor_for d machine)
    run ← outside_or_raise (run_remote_benchmark d.floats d.reader executor plan 3600)
    id ← fresh d.new_id
    stored ← persist_remote_benchmark_artifacts d (inline_job id plan run) plan run
    change (add_job (with_artifacts stored.0 stored.1))
    commit
    return (with_artifacts stored.0 stored.1)

pub data ExecutionMode : Type 0 where
  fake remote_rq remote_inline : ExecutionMode

pub record BenchmarkJobCreate (F : Type 0) : Type 0 where
  pub run_spec : RunSpec F
  pub execution_mode : ExecutionMode
  pub benchmark : Option (BenchmarkPlanCreate F)

-- `payload.benchmark or BenchmarkPlanCreate(run_spec=payload.run_spec)`
unfoldable pub benchmark_payload : {F : Type 0} → BenchmarkJobCreate F → BenchmarkPlanCreate F
benchmark_payload payload = elim payload.benchmark [
  | some plan ↦ plan
  | none ↦ record {
    run_spec = payload.run_spec;
    kind = BenchmarkKind.serve;
    host = "127.0.0.1";
    port = 8000;
    dataset_name = "random";
    input_len = 1024;
    output_len = 256;
    num_prompts = 128;
    request_rate = none;
    result_dir = "/data/logs/inflab-bench";
    result_filename = "vllm-bench-result.json";
  }
]

abbrev job_table : {F W : Type 0} → Session F W → JobTable F
job_table s = record { pending = s.pending.jobs; saved = s.saved.jobs }

-- A queue commits the session along with its own rows.
abbrev with_job_table : {F W : Type 0} → Session F W → JobTable F → W → Session F W
with_job_table s table w = record s {
  pending = record s.pending { jobs = table.pending };
  saved = record s.pending { jobs = table.saved };
  world = w;
}

module _ {F W : Type 0} (d : Deployment F W) where
  -- The handler of a fake benchmark, which reaches nothing outside.
  fake_handler : RunSpec F → W → Result (List (String × Json F)) × W
  fake_handler spec w =
      let outcome = fake_benchmark_result d.floats spec in
      (
        bind (build_launch_command d.floats spec) (λ launch_command.
            bind (normalize_metrics d.floats outcome) (λ metrics. ok (
              ("launch_command", text launch_command)
              ∷ ("benchmark_result", result_json d.floats outcome)
              ∷ ("metrics", object (map (λ (e : String × F). (e.0, float e.1)) metrics))
              ∷ []))),
        w,
      )

  -- `fake_queue.enqueue(session, "benchmark", handler)`
  enqueued_fake : RunSpec F → Action F W (JobRecord F)
  unfolding fake_handler
  enqueued_fake spec = do
    id ← fresh d.new_id
    λ s.
        let (job, (table, w)) =
          enqueue d.floats id "benchmark" (fake_handler spec) (job_table s) s.world in
        (ok job, with_job_table s table w)

  -- `RQQueue(settings.redis).enqueue_importable(...)`
  enqueued_remote : BenchmarkPlanCreate F → Action F W (JobRecord F)
  enqueued_remote payload = do
    id ← fresh d.new_id
    λ s.
        let submit = λ (job_id : String).
          d.submit "inflab.worker_tasks.run_remote_benchmark_job" job_id payload in
        let (r, (table, w)) =
          enqueue_importable d.floats id "benchmark" submit (job_table s) s.world in
        (r, with_job_table s table w)

  unfoldable pub by_mode :
      ExecutionMode → Machine F → ModelRecord F → BenchmarkJobCreate F → Action F W (JobRecord F)
  unfolding enqueued_fake enqueued_remote benchmark_payload
  by_mode fake machine model payload = enqueued_fake payload.run_spec
  by_mode remote_rq machine model payload = enqueued_remote (benchmark_payload payload)
  by_mode remote_inline machine model payload =
      run_inline d machine model (benchmark_payload payload)

  unfoldable pub create_benchmark_job : BenchmarkJobCreate F → Action F W (JobRecord F)
  unfolding by_mode
  create_benchmark_job payload = do
    machine ← the_machine d payload.run_spec.machine_id
    model ← the_model d payload.run_spec.model_id
    by_mode payload.execution_mode machine model payload

  as_bad_request : {A : Type 0} → Result A → Result A
  as_bad_request (ok a) = ok a
  as_bad_request (err (value_error s)) = err (http_exception 400 s)
  as_bad_request (err other) = err other

  unfoldable pub plan_benchmark_command : BenchmarkPlanCreate F → Action F W BenchmarkCommandPlan
  unfolding as_bad_request
  plan_benchmark_command payload = do
    model ← reads (λ t. get payload.run_spec.model_id t.models)
    machine ← the_machine d payload.run_spec.machine_id
    row ← found "model" model
    lift (as_bad_request (build_benchmark_command_plan d.floats payload row.cache_path))

  abbrev the_job : String → Action F W (JobRecord F)
  the_job job_id = do row ← reads (λ t. get job_id t.jobs); found "job" row

  unfoldable pub get_job_logs : String → Action F W (List String)
  get_job_logs job_id = do job ← the_job job_id; return job.logs

  unfoldable pub get_job_progress : String → Action F W (String × F)
  get_job_progress job_id = do job ← the_job job_id; return (job.status, job.progress)
