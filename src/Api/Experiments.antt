-- ===== src/Api/Experiments.antt =====
-- backend/src/inflab/api/v1.py: the handlers of `/experiments`.
pub mod Copies
use inference_lab.Prelude.{
  ℕ, ◌*◌, ◌+◌, ◌-◌, String, Bool, true, false, Option, none, some, List, [], ◌∷◌, ◌++◌, map, get,
  put, dict_from, if◌then◌else◌, ◌==◌, String-eq, keep,
}
use inference_lab.Prelude.Int.{ℤ, pos, negsuc, plus_ℤ}
use inference_lab.Prelude.Float.{Floats}
use inference_lab.Prelude.Json.{Json, null, int, float, text, arr, items, object, array}
use inference_lab.Prelude.Text.{◌<>◌, join, show}
use inference_lab.Result.{Result, ok, err, value_error, or_key_error, ◌>>=◌ as bind}
use inference_lab.Schemas.{
  RuntimeMode, runtime_mode_value, ExperimentMode, standard, intelligent, JobStatus,
}
use inference_lab.Jobs.{JobRecord}
use inference_lab.Plugins.{RunSpec, build_launch_command}
use inference_lab.Benchmark.{BenchmarkResult, fake_benchmark_result, normalize_metrics}
use inference_lab.Tuning.{FrameworkParams}
use inference_lab.Tuning.Planning.{Rng}
use inference_lab.Settings.{effective_llm_provider_settings}
use inference_lab.Database.{
  Tables, Machine, ModelRecord, Experiment, ExperimentTrial, MetricsSummary, MetricsSample,
}
use inference_lab.Database.Session.{
  Action, ◌>>=◌, ◌>>◌, return, reads, lift, change, commit, found, fresh, outside_or_raise,
}
use inference_lab.Api.{Deployment}
use inference_lab.Api.Machines.{the_machine, runtime_mode_of}
use inference_lab.Api.Trials.{TrialRows, trial_rows}
use inference_lab.Api.Plans.{
  ExperimentCandidateRead, ExperimentPlanRead, mode_value, params_json, with_params,
  machine_gpu_count, max_trials_of, experiment_plan,
}

pub record ExperimentCreate (F : Type 0) : Type 0 where
  pub name : String
  pub run_spec : RunSpec F
  pub mode : ExperimentMode
  pub goal : String
  pub budget : List (String × Json F)

pub record ExperimentRead (F : Type 0) : Type 0 where
  pub row : Experiment F
  pub mode : ExperimentMode
  pub runtime_mode : RuntimeMode
  pub status : JobStatus

-- `JobStatus(value)` and `ExperimentMode(value)`
unfoldable pub job_status_of : String → Result JobStatus
job_status_of value =
    if value == "queued"
    then ok JobStatus.queued
    else if value == "running"
    then ok JobStatus.running
    else if value == "succeeded"
    then ok JobStatus.succeeded
    else if value == "failed"
    then ok JobStatus.failed
    else if value == "canceled"
    then ok JobStatus.canceled
    else err (value_error (value <> " is not a valid JobStatus"))

experiment_mode_of : {F : Type 0} → Option (Json F) → Result ExperimentMode
experiment_mode_of none = ok standard
experiment_mode_of (some (text value)) =
    if value == "standard"
    then ok standard
    else if value == "intelligent"
    then ok intelligent
    else err (value_error (value <> " is not a valid ExperimentMode"))
experiment_mode_of (some other) = err (value_error "not a valid ExperimentMode")

-- `_experiment_read`: it raises where the mode, the runtime or the status is none of the enumeration.
unfoldable pub experiment_read : {F : Type 0} → Experiment F → Result (ExperimentRead F)
unfolding job_status_of experiment_mode_of
experiment_read x = bind (experiment_mode_of (get "mode" x.reproducibility)) (λ mode.
    bind (runtime_mode_of x.runtime_mode) (λ runtime.
      bind (job_status_of x.status)
        (λ status. ok (record { row = x; mode = mode; runtime_mode = runtime; status = status }))))

abbrev pub add_experiment : {F : Type 0} → Experiment F → Tables F → Tables F
add_experiment x t = record t { experiments = put x.id x t.experiments }

abbrev pub add_trial : {F : Type 0} → TrialRows F → Tables F → Tables F
add_trial rows t = record t {
  trials = put rows.trial.id rows.trial t.trials;
  summaries = put rows.summary.id rows.summary t.summaries;
  samples = put rows.sample.id rows.sample t.samples;
}

abbrev pub add_job : {F : Type 0} → JobRecord F → Tables F → Tables F
add_job job t = record t { jobs = put job.id job t.jobs }

reproducibility_of :
    {F : Type 0} → Machine F → ModelRecord F → ExperimentCreate F → String → List (String × Json F)
reproducibility_of machine model payload launch_command =
    ("machine_profile", object machine.machine_profile)
    ∷ ("mode", text (mode_value payload.mode))
    ∷ ("model_hash", text model.sha256)
    ∷ ("runtime_mode", text (runtime_mode_value payload.run_spec.runtime_mode))
    ∷ ("framework_version", text payload.run_spec.framework_version)
    ∷ ("framework_params", params_json payload.run_spec.framework_params)
    ∷ ("prompt_dataset", text payload.run_spec.prompt_dataset)
    ∷ ("launch_command", text launch_command)
    ∷ []

-- The row of a new experiment.
unfoldable pub new_experiment :
    {F : Type 0} → String → Machine F → ModelRecord F → ExperimentCreate F → String → Experiment F
unfolding reproducibility_of
new_experiment id machine model payload launch_command = record {
  id = id;
  name = payload.name;
  machine_id = machine.id;
  model_id = model.id;
  runtime_mode = runtime_mode_value payload.run_spec.runtime_mode;
  framework = payload.run_spec.framework;
  framework_version = payload.run_spec.framework_version;
  framework_params = params_json payload.run_spec.framework_params;
  prompt_dataset = payload.run_spec.prompt_dataset;
  launch_command = launch_command;
  goal = payload.goal;
  status = "succeeded";
  reproducibility = reproducibility_of machine model payload launch_command;
}

-- The experiment once its trials have run, for the mode of its request.
unfoldable pub planned_experiment :
    {F : Type 0} → String → ExperimentMode → ExperimentPlanRead F → Experiment F → Experiment F
planned_experiment job_id mode plan x = record x {
  reproducibility = dict_from x.reproducibility (
      ("agent_phases", array (map text plan.phases))
      ∷ ("mode", text (mode_value mode))
      ∷ ("candidate_count", int (pos plan.trial_count))
      ∷ ("job_id", text job_id)
      ∷ []);
}

module _ {F W : Type 0} (d : Deployment F W) (rng : Rng F) where
  abbrev pub the_model : String → Action F W (ModelRecord F)
  the_model model_id = do row ← reads (λ t. get model_id t.models); found "model" row

  unfoldable pub experiment_job : String → String → ExperimentPlanRead F → List String → JobRecord F
  experiment_job id experiment_id plan logs = record {
    id = id;
    job_type = "experiment";
    status = "succeeded";
    progress = d.floats.literal 1 0;
    logs = logs ++ "experiment completed" ∷ [];
    result =
        ("experiment_id", text experiment_id) ∷ ("trial_count", int (pos plan.trial_count)) ∷ [];
    error = none;
  }

  unfoldable pub first_logs : String → ExperimentMode → ExperimentPlanRead F → List String
  first_logs experiment_id mode plan =
      ("experiment " <> (experiment_id <> " created"))
      ∷ ("mode: " <> mode_value mode)
      ∷ ("phase order: " <> join ", " plan.phases)
      ∷ ("planned " <> (show plan.trial_count <> " fake trials"))
      ∷ []

  -- The loop over the candidates of the plan; it returns the lines of their logs.
  unfoldable pub run_trials :
      String → RunSpec F → List (ExperimentCandidateRead F) → Action F W (List String)
  run_trials experiment_id spec [] = return []
  run_trials experiment_id spec (candidate ∷ candidates) = do
    trial_id ← fresh d.new_id
    summary_id ← fresh d.new_id
    sample_id ← fresh d.new_id
    rows ← lift (trial_rows d.floats trial_id summary_id sample_id experiment_id spec candidate)
    change (add_trial rows)
    more ← run_trials experiment_id spec candidates
    return (rows.logs ++ more)

  unfoldable pub plan_for :
      Machine F
      → RunSpec F
      → ExperimentMode
      → List (String × Json F)
      → Action F W (ExperimentPlanRead F)
  plan_for machine spec mode budget = do
    max_trials ← lift (max_trials_of d.floats d.python budget)
    gpu_count ← lift (machine_gpu_count d.floats d.python machine.machine_profile)
    row ← reads (λ t. t.agent_settings)
    settings ← lift (effective_llm_provider_settings d.codecs d.app row)
    outside_or_raise
        (experiment_plan d.floats d.python d.llm rng spec max_trials gpu_count mode settings)

  unfoldable pub plan_experiment :
      RunSpec F → ExperimentMode → List (String × Json F) → Action F W (ExperimentPlanRead F)
  unfolding plan_for
  plan_experiment spec mode budget = do
    machine ← the_machine d spec.machine_id
    model ← the_model spec.model_id
    plan_for machine spec mode budget

  -- The end of `create_experiment`, once the trials have run.
  unfoldable pub finish_experiment :
      Experiment F
      → ExperimentMode
      → ExperimentPlanRead F
      → List String
      → Action F W (ExperimentRead F)
  unfolding experiment_job first_logs
  finish_experiment x mode plan logs = do
    job_id ← fresh d.new_id
    change (add_job (experiment_job job_id x.id plan (first_logs x.id mode plan ++ logs)))
    change (add_experiment (planned_experiment job_id mode plan x))
    commit
    lift (experiment_read (planned_experiment job_id mode plan x))

  -- The rest of `create_experiment`, once the trials are planned.
  unfoldable pub run_planned :
      Experiment F
      → RunSpec F
      → ExperimentMode
      → ExperimentPlanRead F
      → Action F W (ExperimentRead F)
  unfolding finish_experiment
  run_planned x spec mode plan = do
    logs ← run_trials x.id spec plan.candidates
    finish_experiment x mode plan logs

  -- What follows the look-ups.
  unfoldable pub launch_experiment :
      Machine F → ModelRecord F → ExperimentCreate F → Action F W (ExperimentRead F)
  launch_experiment machine model payload = do
    launch_command ← lift (build_launch_command d.floats payload.run_spec)
    id ← fresh d.new_id
    change (add_experiment (new_experiment id machine model payload launch_command))
    plan ← plan_for machine payload.run_spec payload.mode payload.budget
    run_planned (new_experiment id machine model payload launch_command) payload.run_spec
        payload.mode plan

  unfoldable pub create_experiment : ExperimentCreate F → Action F W (ExperimentRead F)
  unfolding launch_experiment
  create_experiment payload = do
    machine ← the_machine d payload.run_spec.machine_id
    model ← the_model payload.run_spec.model_id
    launch_experiment machine model payload

  abbrev pub the_experiment : String → Action F W (Experiment F)
  the_experiment experiment_id = do
    row ← reads (λ t. get experiment_id t.experiments)
    found "experiment" row

  unfoldable pub get_experiment : String → Action F W (ExperimentRead F)
  get_experiment experiment_id = do x ← the_experiment experiment_id; lift (experiment_read x)

  unfoldable pub canceled : Experiment F → Experiment F
  canceled x = record x { status = "canceled" }

  unfoldable pub cancel_experiment : String → Action F W (ExperimentRead F)
  unfolding canceled
  cancel_experiment experiment_id = do
    x ← the_experiment experiment_id
    change (add_experiment (canceled x))
    commit
    lift (experiment_read (canceled x))

  mode_kept : List (String × Json F) → Json F
  mode_kept m = elim (get "mode" m) [ none ↦ text "standard" | some v ↦ v ]

  -- The copy of an experiment.
  unfoldable pub clone_of : String → Experiment F → Experiment F
  unfolding mode_kept
  clone_of id x = record x {
    id = id;
    name = x.name <> " copy";
    status = "created";
    reproducibility = put "mode" (mode_kept x.reproducibility) x.reproducibility;
  }

  unfoldable pub copy_experiment : String → Action F W (ExperimentRead F)
  unfolding clone_of
  copy_experiment experiment_id = do
    x ← the_experiment experiment_id
    id ← fresh d.new_id
    change (add_experiment (clone_of id x))
    commit
    lift (experiment_read (clone_of id x))
