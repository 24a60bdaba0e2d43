-- ===== src/Agents.antt =====
-- backend/src/inflab/agent_executor.py: what is planned for the Pi agent, its prompts, and the run
-- of its command. The process that is started is a parameter.
use inference_lab.Prelude.{
  ℕ, ◌*◌, String, Bool, true, false, none, some, List, [], ◌∷◌, if◌then◌else◌, get, ◌==◌, String-eq,
}
use inference_lab.Prelude.Int.{ℤ, pos}
use inference_lab.Prelude.Text.{◌<>◌, join, show, strip}
use inference_lab.Schemas.{CommandRecord, CommandResult, plain_command, command_result}

-- `AgentExecutorSettings` of config.py.
pub record AgentExecutorSettings : Type 0 where
  pub provider : String
  pub command : String
  pub work_dir : String
  pub max_rounds : ℕ
  pub timeout_minutes : ℕ

pub record AgentExecutorPlan : Type 0 where
  pub provider : String
  pub command : String
  pub role : String
  pub work_dir : String
  pub max_rounds : ℕ
  pub timeout_minutes : ℕ
  pub status : String
  pub notes : List String

plan_of : String → List String → AgentExecutorSettings → AgentExecutorPlan
plan_of role notes settings = record {
  provider = settings.provider;
  command = settings.command;
  role = role;
  work_dir = settings.work_dir;
  max_rounds = settings.max_rounds;
  timeout_minutes = settings.timeout_minutes;
  status = if settings.provider == "pi" then "configured" else "disabled";
  notes = notes;
}

unfoldable pub pi_agent_executor_plan : AgentExecutorSettings → AgentExecutorPlan
unfolding plan_of
pi_agent_executor_plan = plan_of "worker_executor_for_deli_autoresearch_intelligent_mode" (
    "Pi agent executes one bounded worker iteration; it is not the orchestrator."
    ∷ "Deli_AutoResearch owns state files, stall detection, heartbeat, and pivot rules."
    ∷ "Standard mode never depends on Pi agent."
    ∷ "The Pi command is configurable because installation details are environment-specific." ∷ [])

unfoldable pub pi_environment_workflow_plan : AgentExecutorSettings → AgentExecutorPlan
unfolding plan_of
pi_environment_workflow_plan = plan_of "bounded_executor_for_environment_setup_workflow" (
    "Pi agent executes a generic environment setup workflow from a task prompt."
    ∷ "The workflow must discover, plan, apply, verify, and record host changes."
    ∷ "Fixed B1-B7 scripts remain only a reproducible scripted baseline."
    ∷ "Standard-mode benchmark planning remains software-driven and does not depend on Pi." ∷ [])

-- `machine.get(key, default)` as it is printed.
abbrev printed : String → String → List (String × String) → String
printed key default machine = elim (get key machine) [ none ↦ default | some v ↦ v ]

abbrev show_bool : Bool → String
show_bool true = "True"
show_bool false = "False"

-- The values of `machine` are given as they are printed.
unfoldable pub environment_setup_worker_prompt :
    List (String × String) → (profile workflow_goal : String) → (dry_run : Bool) → String
environment_setup_worker_prompt machine profile workflow_goal dry_run = join "\n" (
    "Execute the InferenceLab environment setup workflow for one target machine."
    ∷ ""
    ∷ "Goal:"
    ∷ strip workflow_goal
    ∷ ""
    ∷ "Machine context:"
    ∷ ("- name: " <> printed "name" "unknown" machine)
    ∷ ("- host: " <> printed "host" "unknown" machine)
    ∷ ("- port: " <> printed "port" "unknown" machine)
    ∷ ("- username: " <> printed "username" "unknown" machine)
    ∷ ("- runtime_mode: " <> printed "runtime_mode" "both" machine)
    ∷ ("- bootstrap_profile_context: " <> profile)
    ∷ ("- dry_run: " <> show_bool dry_run)
    ∷ ""
    ∷ "Workflow contract:"
    ∷ "1. Discover OS, GPU, driver, CUDA/ROCm, container runtime, Python, storage, network, package mirrors, permissions, and existing site policy."
    ∷ "2. Produce a concrete plan before changing anything. Prefer minimal, reversible, idempotent changes and reuse existing mirrors, users, directories, and runtimes."
    ∷ "3. Apply changes only when dry_run is false. Do not assume an Ubuntu-only path; adapt to the discovered machine state."
    ∷ "4. Verify container and bare-metal inference prerequisites separately when relevant."
    ∷ "5. Record exact commands, versions, changed files, verification evidence, unresolved blockers, and next manual actions."
    ∷ "6. Do not print or persist secrets. Use preconfigured Pi/SSH access; this prompt does not include platform credentials."
    ∷ ""
    ∷ "Required output:"
    ∷ "- JSONL work log with phases discover, plan, apply, verify, record."
    ∷ "- Final readiness verdict: ready, partially_ready, or blocked."
    ∷ "- Failure hints mapped to permission, package source, driver/runtime, storage, network, or policy blocker."
    ∷ [])

unfoldable pub intelligent_worker_prompt :
    (task_spec_path progress_path directions_path completion_criteria : String) → String
intelligent_worker_prompt task_spec_path progress_path directions_path completion_criteria =
    join "\n" (
      "Run one Deli_AutoResearch worker iteration for InferenceLab intelligent mode."
      ∷ ("Read task spec: " <> task_spec_path)
      ∷ ("Read progress: " <> progress_path)
      ∷ ("Read tried directions: " <> directions_path)
      ∷ "Choose a direction that differs structurally from prior directions."
      ∷ "Write findings to state/findings.jsonl."
      ∷ "Write iteration summary to state/iteration_log.jsonl."
      ∷ "Write decisions to logs/work.jsonl with level=decision."
      ∷ ("Completion criteria: " <> completion_criteria)
      ∷ "Do not ask the user questions. Stop after one bounded iteration."
      ∷ [])

-- How a started process ends: with its return code and its decoded output, by the time limit, or
-- with an `OSError`, the last two with the text of the exception.
pub data PiOutcome : Type 0 where
  exited : (returncode : ℤ) → (stdout stderr : String) → PiOutcome
  timed_out os_error : String → PiOutcome

-- `asyncio.create_subprocess_shell` with `communicate` under `asyncio.wait_for`: the command, its
-- directory, its input and the seconds that it may take.
abbrev pub Subprocess : Type 0 → Type 0
Subprocess W = (command work_dir input : String) → ℕ → W → PiOutcome × W

unfoldable pub pi_result : CommandRecord → AgentExecutorSettings → PiOutcome → CommandResult
pi_result command settings (exited returncode stdout stderr) =
    command_result command returncode stdout stderr
pi_result command settings (timed_out exc) = command_result command (pos 124) "" (
    "Pi environment workflow timed out after " <> (show settings.timeout_minutes <> ("m: " <> exc)))
pi_result command settings (os_error exc) = command_result command (pos 127) "" exc

module _ {W : Type 0} (subprocess : Subprocess W) where
  workflow_command : AgentExecutorSettings → CommandRecord
  workflow_command settings =
      record (plain_command (settings.command <> " < inflab_environment_bootstrap_workflow.md")) {
        cwd = some settings.work_dir;
      }

  unfoldable pub pi_executed : AgentExecutorSettings → String → W → CommandResult × W
  unfolding pi_result workflow_command
  pi_executed settings prompt w =
      let (outcome, after) =
        subprocess settings.command settings.work_dir prompt (settings.timeout_minutes * 60) w in
      (pi_result (workflow_command settings) settings outcome, after)

  unfoldable pub run_pi_environment_workflow :
      AgentExecutorSettings → String → (dry_run : Bool) → W → CommandResult × W
  unfolding workflow_command pi_executed
  run_pi_environment_workflow settings prompt dry_run w =
      if settings.provider == "pi"
      then (if dry_run
          then (
            command_result (workflow_command settings) (pos 0)
                "dry-run: Pi environment workflow prompt prepared; uncheck dry-run to execute the configured Pi command."
                "",
            w,
          )
          else pi_executed settings prompt w)
      else (
        command_result (workflow_command settings) (pos 2) ""
            "Pi agent is disabled; environment workflow cannot execute.",
        w,
      )
