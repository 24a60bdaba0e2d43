-- ===== src/Api/Bootstrap.antt =====
-- backend/src/inflab/api/v1.py: the handlers that prepare a machine, by the Pi agent or by scripts.
pub mod Outcomes
use inference_lab.Prelude.{
  ℕ, String, Bool, true, false, not, Option, none, some, List, [], ◌∷◌, ◌++◌, if◌then◌else◌, get,
  put, map, any, keep, ◌==◌, String-eq, ℕ-eq, ltb,
}
use inference_lab.Prelude.Int.{ℤ, pos, max_ℤ, is_zero}
use inference_lab.Prelude.Json.{Json, null, text, int, boolean, object, array}
use inference_lab.Prelude.Text.{◌<>◌, show, codes}
use inference_lab.Result.{Result, ok}
use inference_lab.Schemas.{
  BootstrapProfile, EnvironmentSetupStrategy, pi_workflow, scripted, profile_value, StepStatus,
  CommandRecord, CommandResult, plain_command, command_result,
}
use inference_lab.Executor.{ExecutionContext, RemoteExecutor, fake_executor}
use inference_lab.Steps.{ShellRemoteStep, StepResult, run_steps}
use inference_lab.Steps.Catalog.{resolve_bootstrap_steps}
use inference_lab.Agents.{
  AgentExecutorSettings, AgentExecutorPlan, pi_environment_workflow_plan,
  environment_setup_worker_prompt, run_pi_environment_workflow,
}
use inference_lab.Settings.{clean_optional_text, effective_agent_executor_settings}
use inference_lab.Database.{Machine, BootstrapRun, Tables}
use inference_lab.Database.Session.{
  Action, ◌>>=◌, ◌>>◌, return, reads, lift, change, commit, found, fresh, outside,
}
use inference_lab.Api.{Deployment}
use inference_lab.Api.Machines.{the_machine, executor_for, save_machine}
use inference_lab.Api.Discovery.{run_status, if_failed, add_run}

pub record BootstrapRequest : Type 0 where
  pub profile : BootstrapProfile
  pub modules : Option (List String)
  pub dry_run : Bool
  pub strategy : Option EnvironmentSetupStrategy
  pub pi_workflow_goal : Option String

unfoldable pub resolved_strategy : BootstrapRequest → EnvironmentSetupStrategy
resolved_strategy request = elim request.strategy [ none ↦ pi_workflow | some strategy ↦ strategy ]

unfoldable pub default_environment_workflow_goal : {F : Type 0} → Machine F → String
default_environment_workflow_goal m =
    "Prepare this machine for reproducible InferenceLab model inference benchmarking. Discover the actual OS, GPU driver, CUDA or ROCm stack, container runtime, Python runtime, storage, network, package mirrors, permissions, and site policy first. Then choose the smallest idempotent changes needed for container and bare-metal vLLM/SGLang benchmarking, verify readiness, and record every command, version, changed file, unresolved blocker, and manual follow-up. Do not assume one fixed script can configure host "
    <> (m.row.host <> " correctly.")

workflow_goal : {F : Type 0} → Machine F → BootstrapRequest → String
unfolding default_environment_workflow_goal
workflow_goal m payload = elim (clean_optional_text payload.pi_workflow_goal) [
  | none ↦ default_environment_workflow_goal m
  | some goal ↦ goal
]

unfoldable pub workflow_prompt : {F : Type 0} → Machine F → BootstrapRequest → String
unfolding workflow_goal
workflow_prompt m payload =
    environment_setup_worker_prompt
      (("name", m.row.name)
        ∷ ("host", m.row.host)
        ∷ ("port", show m.row.port)
        ∷ ("username", m.row.username)
        ∷ ("runtime_mode", m.row.runtime_mode)
        ∷ [])
      (profile_value payload.profile) (workflow_goal m payload) payload.dry_run

plan_json : {F : Type 0} → AgentExecutorPlan → Json F
plan_json p = object (
    ("provider", text p.provider)
    ∷ ("command", text p.command)
    ∷ ("role", text p.role)
    ∷ ("work_dir", text p.work_dir)
    ∷ ("max_rounds", int (pos p.max_rounds))
    ∷ ("timeout_minutes", int (pos p.timeout_minutes))
    ∷ ("status", text p.status)
    ∷ ("notes", array (map text p.notes))
    ∷ [])

unfoldable pub detected : CommandResult
detected =
    command_result (plain_command "prepare_pi_environment_workflow") (pos 0)
      "Prepared generic environment workflow for Pi agent. Fixed B1-B7 bootstrap scripts are not executed in this strategy."
      ""

unfoldable pub verified : ℤ → CommandResult
verified exit_code =
    if is_zero exit_code
    then command_result (plain_command "record_pi_environment_workflow_verdict") (pos 0)
        "Pi environment workflow accepted. Review Pi output for readiness verdict and blocker details."
        ""
    else command_result (plain_command "record_pi_environment_workflow_verdict") exit_code ""
        "Pi environment workflow did not complete."

-- What `_pi_environment_workflow_step` returns for the result of the agent.
unfoldable pub pi_step_of :
    {F : Type 0}
    → Machine F
    → BootstrapRequest
    → AgentExecutorSettings
    → CommandResult
    → StepResult F
unfolding detected verified plan_json workflow_goal workflow_prompt
pi_step_of m payload settings applied =
    let verdict = verified applied.exit_code in
    let code = max_ℤ (max_ℤ detected.exit_code applied.exit_code) verdict.exit_code in
    record {
      id = "PI_ENV_WORKFLOW";
      name = "Pi agent environment workflow";
      status =
          if is_zero code
          then (if payload.dry_run then StepStatus.unchanged else StepStatus.changed)
          else StepStatus.failed;
      phase_results = ("detect", detected) ∷ ("apply", applied) ∷ ("verify", verdict) ∷ [];
      commands = detected.command ∷ applied.command ∷ verdict.command ∷ [];
      exit_code = code;
      stdout_uri = some ("memory://artifacts/" <> (m.id <> "/PI_ENV_WORKFLOW/stdout.txt"));
      stderr_uri = some ("memory://artifacts/" <> (m.id <> "/PI_ENV_WORKFLOW/stderr.txt"));
      changed_files = [];
      snapshots =
          ("configuration_mode", text "pi_workflow")
          ∷ ("scripted_bootstrap_executed", boolean false)
          ∷ ("automatic_bootstrap_executed", boolean false)
          ∷ ("dry_run", boolean payload.dry_run)
          ∷ ("workflow_goal", text (workflow_goal m payload))
          ∷ ("workflow_prompt", text (workflow_prompt m payload))
          ∷ ("pi_executor_plan", plan_json (pi_environment_workflow_plan settings))
          ∷ [];
      failure_hint =
          if is_zero code
          then none
          else some
              "Check Pi agent command, work directory, access policy, and target-machine access.";
    }

-- `next((result for result in results if result.exit_code != 0), None)`
unfoldable pub first_failed : {F : Type 0} → List (StepResult F) → Option (StepResult F)
first_failed [] = none
first_failed (r ∷ results) =
    let rest = first_failed results in if is_zero r.exit_code then rest else some r

-- The row and the status of the machine after the agent's workflow.
unfoldable pub pi_run :
    {F : Type 0} → String → String → BootstrapRequest → StepResult F → BootstrapRun F
pi_run id machine_id payload step = record {
  id = id;
  machine_id = machine_id;
  profile = profile_value payload.profile;
  status = run_status step.exit_code;
  modules = step.id ∷ [];
  step_results = step ∷ [];
  failure_class = if_failed step.exit_code (some "pi_environment_workflow_failed");
  failure_hint = if_failed step.exit_code step.failure_hint;
}

unfoldable pub pi_machine_status : {F : Type 0} → BootstrapRequest → StepResult F → String
pi_machine_status payload step =
    if is_zero step.exit_code
    then (if payload.dry_run then "agent_workflow_planned" else "ready")
    else "agent_workflow_failed"

-- What depends on the first step that failed.
abbrev pub failure_status : {F : Type 0} → Option (StepResult F) → String
failure_status none = "succeeded"
failure_status (some r) = "failed"

abbrev pub failure_class_of : {F : Type 0} → Option (StepResult F) → Option String
failure_class_of none = none
failure_class_of (some r) = some "remote_step_failed"

abbrev pub failure_hint_of : {F : Type 0} → Option (StepResult F) → Option String
failure_hint_of none = none
failure_hint_of (some r) = r.failure_hint

-- The row and the status of the machine after the scripts.
unfoldable pub scripted_run :
    {F : Type 0}
    → String
    → String
    → BootstrapRequest
    → List ShellRemoteStep
    → List (StepResult F)
    → BootstrapRun F
scripted_run id machine_id payload steps results = record {
  id = id;
  machine_id = machine_id;
  profile = profile_value payload.profile;
  status = failure_status (first_failed results);
  modules = map (λ s. s.id) steps;
  step_results = results;
  failure_class = failure_class_of (first_failed results);
  failure_hint = failure_hint_of (first_failed results);
}

unfoldable pub scripted_machine_status : {F : Type 0} → List (StepResult F) → String
scripted_machine_status results =
    if failure_status (first_failed results) == "succeeded" then "ready" else "bootstrap_failed"

unfoldable pub context : String → Bool → ExecutionContext
context machine_id dry_run = record {
  machine_id = machine_id;
  dry_run = dry_run;
  artifacts_prefix = "memory://artifacts";
  env = [];
}

-- The order of texts by their code points.
unfoldable pub codes_le : List ℕ → List ℕ → Bool
codes_le [] k = true
codes_le (a ∷ l) [] = false
codes_le (a ∷ l) (b ∷ k) = let rest = codes_le l k in if a == b then rest else ltb a b

-- Puts a text into a sorted list of different texts.
inserted : String → List String → List String
unfolding codes_le
inserted s [] = s ∷ []
inserted s (t ∷ l) =
    let later = inserted s l in
    if s == t then t ∷ l else if codes_le (codes s) (codes t) then s ∷ t ∷ l else t ∷ later

-- `sorted(set(l))`
unfoldable pub sorted_set : List String → List String
unfolding inserted
sorted_set [] = []
sorted_set (s ∷ l) = inserted s (sorted_set l)

module _ {F W : Type 0} (d : Deployment F W) where
  -- The workflow of the agent, up to the commit.
  unfoldable pub pi_bootstrap : String → Machine F → BootstrapRequest → Action F W (BootstrapRun F)
  unfolding pi_step_of pi_run pi_machine_status
  pi_bootstrap machine_id machine payload = do
    row ← reads (λ t. t.agent_settings)
    let settings = effective_agent_executor_settings d.codecs d.app row
    applied ← outside (
        run_pi_environment_workflow d.subprocess settings (workflow_prompt machine payload)
          payload.dry_run)
    let step = pi_step_of machine payload settings applied
    id ← fresh d.new_id
    change (save_machine (record machine { status = pi_machine_status payload step }))
    change (add_run (pi_run id machine_id payload step))
    commit
    return (pi_run id machine_id payload step)

  unfoldable pub steps_run :
      (dry_run : Bool)
      → String
      → Machine F
      → List ShellRemoteStep
      → Action F W (List (StepResult F))
  unfolding context
  steps_run true machine_id machine steps =
      return (run_steps (context machine_id true) fake_executor steps []).0
  steps_run false machine_id machine steps = do
    executor ← lift (executor_for d machine)
    outside (run_steps (context machine_id false) executor steps)

  unfoldable pub scripted_bootstrap :
      String → Machine F → BootstrapRequest → Action F W (BootstrapRun F)
  unfolding steps_run scripted_run scripted_machine_status
  scripted_bootstrap machine_id machine payload = do
    steps ← lift (resolve_bootstrap_steps (profile_value payload.profile) payload.modules)
    results ← steps_run payload.dry_run machine_id machine steps
    id ← fresh d.new_id
    change (save_machine (record machine { status = scripted_machine_status results }))
    change (add_run (scripted_run id machine_id payload steps results))
    commit
    return (scripted_run id machine_id payload steps results)

  unfoldable pub by_strategy :
      EnvironmentSetupStrategy → String → Machine F → BootstrapRequest → Action F W (BootstrapRun F)
  by_strategy pi_workflow = pi_bootstrap
  by_strategy scripted = scripted_bootstrap

  unfoldable pub bootstrap_machine : String → BootstrapRequest → Action F W (BootstrapRun F)
  unfolding by_strategy resolved_strategy pi_bootstrap scripted_bootstrap
  bootstrap_machine machine_id payload = do
    machine ← the_machine d machine_id
    by_strategy (resolved_strategy payload) machine_id machine payload

  -- The row after `rerun_bootstrap_module`, which always runs dry.
  unfoldable pub rerun_row : BootstrapRun F → String → List (StepResult F) → BootstrapRun F
  rerun_row run module_id results = record run {
    status = "succeeded";
    modules = sorted_set (module_id ∷ run.modules);
    step_results = run.step_results ++ results;
  }

  unfoldable pub rerun_bootstrap_module : String → String → Action F W (BootstrapRun F)
  unfolding rerun_row context
  rerun_bootstrap_module run_id module_id = do
    row ← reads (λ t. get run_id t.runs)
    run ← found "bootstrap run" row
    steps ← lift (resolve_bootstrap_steps "custom" (some (module_id ∷ [])))
    let results = (run_steps (context run.machine_id true) fake_executor steps []).0
    change (add_run (rerun_row run module_id results))
    commit
    return (rerun_row run module_id results)
