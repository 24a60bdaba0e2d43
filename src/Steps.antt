-- ===== src/Steps.antt =====
-- backend/src/inflab/steps.py: the steps of a scripted bootstrap and their runner.
pub mod Catalog
pub mod Running
pub mod Resolving
use inference_lab.Prelude.{
  dict_from, ℕ, String, Bool, true, false, Option, none, some, List, [], ◌∷◌, ◌++◌, map,
  if◌then◌else◌,
}
use inference_lab.Prelude.Int.{ℤ, pos, max_ℤ, is_zero}
use inference_lab.Prelude.Json.{Json, text}
use inference_lab.Prelude.Text.{◌<>◌}
use inference_lab.Schemas.{CommandRecord, CommandResult, plain_command, StepStatus}
use inference_lab.Executor.{ExecutionContext, RemoteExecutor}

pub record ShellRemoteStep : Type 0 where
  pub id : String
  pub name : String
  pub detect_command : String
  pub apply_command : String
  pub verify_command : String
  pub changed_files : List String
  pub snapshot_keys : List String
  pub failure_hint : String

-- `StepResult` of schemas.py, over the type of floats in its snapshots.
pub record StepResult (F : Type 0) : Type 0 where
  pub id : String
  pub name : String
  pub status : StepStatus
  pub phase_results : List (String × CommandResult)
  pub commands : List CommandRecord
  pub exit_code : ℤ
  pub stdout_uri : Option String
  pub stderr_uri : Option String
  pub changed_files : List String
  pub snapshots : List (String × Json F)
  pub failure_hint : Option String

-- The commands of the three phases.
unfoldable pub detect_record : ShellRemoteStep → CommandRecord
detect_record step = plain_command step.detect_command

unfoldable pub apply_record : ExecutionContext → ShellRemoteStep → CommandRecord
apply_record ctx step =
    let prefix = if ctx.dry_run then "DRY_RUN=1 " else "" in
    record (plain_command (prefix <> step.apply_command)) { sudo = true }

unfoldable pub verify_record : ShellRemoteStep → CommandRecord
verify_record step = plain_command step.verify_command

unfoldable pub snapshot_of :
    {F : Type 0} → ExecutionContext → ShellRemoteStep → String → String × Json F
snapshot_of ctx step key =
    (key, text ("snapshot://" <> (ctx.machine_id <> ("/" <> (step.id <> ("/" <> key))))))

unfoldable pub artifact_uri : ExecutionContext → ShellRemoteStep → String → String
artifact_uri ctx step file = ctx.artifacts_prefix <> ("/" <> (step.id <> ("/" <> file)))

-- What `run_step` returns for the results of its phases.
unfoldable pub step_result :
    {F : Type 0}
    → ShellRemoteStep
    → ExecutionContext
    → (detected applied verified : CommandResult) → StepResult F
unfolding snapshot_of artifact_uri
step_result step ctx detected applied verified =
    let code = max_ℤ (max_ℤ detected.exit_code applied.exit_code) verified.exit_code in
    record {
      id = step.id;
      name = step.name;
      status = if is_zero code then StepStatus.changed else StepStatus.failed;
      phase_results = ("detect", detected) ∷ ("apply", applied) ∷ ("verify", verified) ∷ [];
      commands = detected.command ∷ applied.command ∷ verified.command ∷ [];
      exit_code = code;
      stdout_uri = some (artifact_uri ctx step "stdout.txt");
      stderr_uri = some (artifact_uri ctx step "stderr.txt");
      changed_files = step.changed_files;
      snapshots = dict_from [] (map (snapshot_of ctx step) step.snapshot_keys);
      failure_hint = if is_zero code then none else some step.failure_hint;
    }

module _ {F W : Type 0} (ctx : ExecutionContext) (executor : RemoteExecutor W) where
  unfoldable pub run_step : ShellRemoteStep → W → StepResult F × W
  run_step step w =
      let (detected, w1) = executor.run (detect_record step) 30 w in
      let (applied, w2) = executor.run (apply_record ctx step) 30 w1 in
      let (verified, w3) = executor.run (verify_record step) 30 w2 in
      (step_result step ctx detected applied verified, w3)

  unfoldable pub run_steps : List ShellRemoteStep → W → List (StepResult F) × W
  run_steps [] w = ([], w)
  run_steps (step ∷ steps) w =
      let (r, w1) = run_step step w in let (rs, w2) = run_steps steps w1 in (r ∷ rs, w2)
