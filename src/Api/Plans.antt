-- ===== src/Api/Plans.antt =====
-- backend/src/inflab/api/v1.py: the plan of the trials of an experiment.
pub mod Candidates
use inference_lab.Prelude.{
  ℕ, suc, ◌+◌, max, String, Bool, true, false, Option, none, some, List, [], ◌∷◌, map, length, get,
  if◌then◌else◌, ◌==◌, String-eq,
}
use inference_lab.Prelude.Int.{ℤ, pos, negsuc, plus_ℤ}
use inference_lab.Prelude.Float.{Floats}
use inference_lab.Prelude.Json.{
  Json, null, boolean, int, float, text, arr, obj, items, fields, object,
}
use inference_lab.Prelude.Text.{◌<>◌}
use inference_lab.Result.{Result, ok, err, other_error, ◌>>=◌}
use inference_lab.Schemas.{RuntimeMode, runtime_mode_value, ExperimentMode, standard, intelligent}
use inference_lab.Tuning.{FrameworkParams, AgentPhase, phase_value}
use inference_lab.Tuning.Planning.{Rng, plan_candidates}
use inference_lab.Plugins.{RunSpec, build_launch_command}
use inference_lab.Settings.{LlmProviderSettings}
use inference_lab.Llm.{LlmLibrary, llm_candidates_or_empty}
use inference_lab.Discovery.{PythonText}

abbrev pub mode_value : ExperimentMode → String
mode_value standard = "standard"
mode_value intelligent = "intelligent"

-- `FrameworkParams.model_dump(mode="json")`
unfoldable pub params_json : {F : Type 0} → FrameworkParams F → Json F
params_json p = object (
    ("tensor_parallel_size", int (pos p.tensor_parallel_size))
    ∷ ("pipeline_parallel_size", int (pos p.pipeline_parallel_size))
    ∷ ("gpu_memory_utilization", float p.gpu_memory_utilization)
    ∷ ("max_model_len", int (pos p.max_model_len))
    ∷ ("max_num_seqs", int (pos p.max_num_seqs))
    ∷ ("max_num_batched_tokens", int (pos p.max_num_batched_tokens))
    ∷ ("dtype", text p.dtype)
    ∷ ("quantization", elim p.quantization [ none ↦ null | some q ↦ text q ])
    ∷ ("enable_chunked_prefill", boolean p.enable_chunked_prefill)
    ∷ ("enable_prefix_caching", boolean p.enable_prefix_caching)
    ∷ [])

-- `RunSpec.model_dump(mode="json")`
spec_json : {F : Type 0} → RunSpec F → Json F
spec_json spec = object (
    ("machine_id", text spec.machine_id)
    ∷ ("model_id", text spec.model_id)
    ∷ ("runtime_mode", text (runtime_mode_value spec.runtime_mode))
    ∷ ("framework", text spec.framework)
    ∷ ("framework_version", text spec.framework_version)
    ∷ ("framework_params", params_json spec.framework_params)
    ∷ ("prompt_dataset", text spec.prompt_dataset)
    ∷ ("benchmark_version", text spec.benchmark_version)
    ∷ [])

pub record ExperimentCandidateRead (F : Type 0) : Type 0 where
  pub trial_index : ℕ
  -- the parameters, before they are dumped to JSON
  pub params : FrameworkParams F
  pub launch_command : String
  pub validation : String

pub record ExperimentPlanRead (F : Type 0) : Type 0 where
  pub mode : ExperimentMode
  pub phases : List String
  pub candidates : List (ExperimentCandidateRead F)
  pub trial_count : ℕ
  pub notes : List String

-- `run_spec.model_copy(update={"framework_params": candidate})`
abbrev pub with_params : {F : Type 0} → RunSpec F → FrameworkParams F → RunSpec F
with_params spec candidate = record spec { framework_params = candidate }

module _ {F : Type 0} (fl : Floats F) (py : PythonText F) where
  -- `int(value)` of a JSON value.
  unfoldable pub int_of : Json F → Result ℤ
  int_of null = err (other_error "int() argument must be a string or a number, not 'NoneType'")
  int_of (boolean true) = ok (pos 1)
  int_of (boolean false) = ok (pos 0)
  int_of (int n) = ok n
  int_of (float x) = ok (fl.to_int x)
  int_of (text s) = py.to_int s
  int_of (arr l) = err (other_error "int() argument must be a string or a number, not 'list'")
  int_of (obj m) = err (other_error "int() argument must be a string or a number, not 'dict'")

  gpu_count_of : Json F → Result ℤ
  unfolding int_of
  gpu_count_of (obj gpu) = elim (get "count" (fields gpu)) [
    | none ↦ ok (pos 1)
    | some value ↦ int_of value
  ]
  gpu_count_of other = ok (pos 0)

  -- The sum over the rows of the GPUs; a row that is no dict counts nothing.
  gpu_total : List (Json F) → Result ℤ
  unfolding gpu_count_of
  gpu_total [] = ok (pos 0)
  gpu_total (gpu ∷ rows) = do
    count ← gpu_count_of gpu
    rest ← gpu_total rows
    ok (plus_ℤ count rest)

  -- `max(count, 1)`
  abbrev at_least_one : ℤ → ℕ
  at_least_one (pos n) = max n 1
  at_least_one (negsuc n) = 1

  count_in : Option (Json F) → Result ℕ
  unfolding gpu_total
  count_in none = ok 1
  count_in (some (arr rows)) = do total ← gpu_total (items rows); ok (at_least_one total)
  count_in (some other) = ok 1

  -- `_machine_gpu_count`, for the profile of a machine.
  unfoldable pub machine_gpu_count : List (String × Json F) → Result ℕ
  unfolding count_in
  machine_gpu_count profile = elim (get "hardware" profile) [
    | none ↦ count_in none
    | some (obj hardware) ↦ count_in (get "gpu" (fields hardware))
    | some other ↦ err (other_error "object has no attribute 'get'")
  ]

  -- `int(budget.get("max_trials", 2))`
  unfoldable pub max_trials_of : List (String × Json F) → Result ℤ
  unfolding int_of
  max_trials_of budget = elim (get "max_trials" budget) [ none ↦ ok (pos 2) | some v ↦ int_of v ]

  -- The loop over the candidates, from the index of the first.
  unfoldable pub planned_trials :
      RunSpec F → ℕ → List (FrameworkParams F) → Result (List (ExperimentCandidateRead F))
  planned_trials spec index [] = ok []
  planned_trials spec index (candidate ∷ candidates) =
      let rest = planned_trials spec (suc index) candidates in
      do
        launch_command ← build_launch_command fl (with_params spec candidate)
        more ← rest
        ok (
            record {
              trial_index = index;
              params = candidate;
              launch_command = launch_command;
              validation = "schema_validated_and_heuristic_pruned";
            }
            ∷ more)

  mode_note : ExperimentMode → String
  mode_note standard = "standard mode uses deterministic software-driven matrix planning"
  mode_note intelligent =
      "intelligent mode uses Agent/LLM candidate planning; Deli_AutoResearch protocol integration is planned"

  plan_read :
      ExperimentMode → List AgentPhase → List (ExperimentCandidateRead F) → ExperimentPlanRead F
  unfolding mode_note
  plan_read mode phases candidates = record {
    mode = mode;
    phases = map phase_value phases;
    candidates = candidates;
    trial_count = length candidates;
    notes =
        mode_note mode
        ∷ "default runner remains fake/dry-run unless remote execution is explicitly selected"
        ∷ "candidate params are Pydantic validated before launch command generation"
        ∷ [];
  }

  -- The plan, once the candidates of the language model are known.
  unfoldable pub plan_with :
      RunSpec F
      → ℤ
      → ℕ
      → ExperimentMode
      → List (FrameworkParams F)
      → (rng : Rng F) → Result (ExperimentPlanRead F)
  unfolding planned_trials plan_read
  plan_with spec max_trials gpu_count mode llm_candidates rng =
      let plan = plan_candidates fl rng gpu_count max_trials llm_candidates (mode_value mode) in
      do candidates ← planned_trials spec 1 plan.1; ok (plan_read mode plan.0 candidates)

  module _ {W : Type 0} (llm : LlmLibrary F W) (rng : Rng F) where
    llm_candidates_for :
        ExperimentMode
        → LlmProviderSettings
        → List (String × Json F)
        → W
        → Result (List (FrameworkParams F)) × W
    llm_candidates_for standard settings context w = (ok [], w)
    llm_candidates_for intelligent settings context w =
        llm_candidates_or_empty llm settings context w

    -- `_experiment_plan`
    unfoldable pub experiment_plan :
        RunSpec F
        → ℤ
        → ℕ
        → ExperimentMode
        → LlmProviderSettings
        → W
        → Result (ExperimentPlanRead F) × W
    unfolding llm_candidates_for plan_with spec_json
    experiment_plan spec max_trials gpu_count mode settings w =
        let context =
          ("run_spec", spec_json spec)
          ∷ ("gpu_count", int (pos gpu_count))
          ∷ ("max_trials", int max_trials)
          ∷ [] in
        let (found, after) = llm_candidates_for mode settings context w in
        ((do l ← found; plan_with spec max_trials gpu_count mode l rng), after)
