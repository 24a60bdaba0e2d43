-- ===== src/Api/Discovery.antt =====
-- backend/src/inflab/api/v1.py: the handler that runs a safe discovery of a machine.
pub mod Outcomes
use inference_lab.Prelude.{
  ℕ, String, Bool, true, false, not, Option, none, some, List, [], ◌∷◌, if◌then◌else◌, get, put,
  map, keep, ◌&&◌,
}
use inference_lab.Prelude.Int.{ℤ, pos, max_ℤ, is_zero}
use inference_lab.Prelude.Json.{Json, null, text, int, boolean, object, array}
use inference_lab.Prelude.Text.{◌<>◌}
use inference_lab.Result.{Result, ok}
use inference_lab.Schemas.{CommandResult, StepStatus, failed, unchanged}
use inference_lab.Steps.{StepResult}
use inference_lab.Discovery.{
  DiscoveryCommand, MachineContext, Results, safe_discovery_commands, result_failed,
}
use inference_lab.Discovery.Profile.{fingerprint, profile_dict}
use inference_lab.Discovery.Verdict.{
  Verdict, ready, partially_ready, blocked, Severity, warning, blocking, Blocker, Discovery,
  run_discovery, fake_discovery,
}
use inference_lab.Database.{Machine, MachineSnapshot, BootstrapRun, Tables}
use inference_lab.Database.Session.{
  Action, ◌>>=◌, ◌>>◌, return, lift, change, commit, fresh, outside_or_raise,
}
use inference_lab.Api.{Deployment}
use inference_lab.Api.Machines.{
  the_machine, executor_for, save_machine, add_snapshot, snapshot_for, profiled_machine,
}

-- `_machine_context`
abbrev pub machine_context : {F : Type 0} → Machine F → MachineContext
machine_context m = record {
  id = m.id;
  name = m.row.name;
  host = m.row.host;
  port = m.row.port;
  username = m.row.username;
  runtime_mode = m.row.runtime_mode;
}

abbrev pub verdict_value : Verdict → String
verdict_value ready = "ready"
verdict_value partially_ready = "partially_ready"
verdict_value blocked = "blocked"

severity_value : Severity → String
severity_value warning = "warning"
severity_value blocking = "blocking"

blocker_json : {F : Type 0} → Blocker → Json F
unfolding severity_value
blocker_json b = object (
    ("key", text b.key)
    ∷ ("severity", text (severity_value b.severity))
    ∷ ("message", text b.message)
    ∷ ("evidence_command", text b.evidence_command)
    ∷ [])

spec_json : {F : Type 0} → DiscoveryCommand → Json F
spec_json c = object (
    ("id", text c.id)
    ∷ ("name", text c.name)
    ∷ ("command", text c.command)
    ∷ ("required", boolean c.required)
    ∷ ("timeout_seconds", int (pos c.timeout_seconds))
    ∷ [])

abbrev pub with_failure : Bool → Option CommandResult → List ℤ → List ℤ
with_failure required none rest = rest
with_failure required (some r) rest =
    if required && not (is_zero r.exit_code) then r.exit_code ∷ rest else rest

-- The exit codes of the required commands that failed. A discovery has a result for every command
-- of its allowlist, so a command without one is not met.
unfoldable pub failed_codes : Results → List DiscoveryCommand → List ℤ
failed_codes results [] = []
failed_codes results (c ∷ commands) =
    with_failure c.required (get c.id results) (failed_codes results commands)

-- `max(codes, default=0)`
abbrev pub largest : List ℤ → ℤ
largest [] = pos 0
largest (x ∷ []) = x
largest (x ∷ y ∷ r) = max_ℤ x (largest (y ∷ r))

abbrev pub is_none_left : List ℤ → Bool
is_none_left [] = true
is_none_left (x ∷ r) = false

unfoldable pub discovery_step_of :
    {F : Type 0} → (profile : List (String × Json F)) → Discovery F → StepResult F
unfolding failed_codes blocker_json spec_json
discovery_step_of profile discovery =
    let failures = failed_codes discovery.command_results safe_discovery_commands in
    record {
      id = "SAFE_DISCOVERY";
      name = "Safe environment discovery";
      status = if is_none_left failures then unchanged else failed;
      phase_results = discovery.command_results;
      commands = map (λ e. e.1.command) discovery.command_results;
      exit_code = largest failures;
      stdout_uri = none;
      stderr_uri = none;
      changed_files = [];
      snapshots =
          ("configuration_mode", text "safe_discovery")
          ∷ ("allowlist", array (map spec_json safe_discovery_commands))
          ∷ ("verdict", text (verdict_value discovery.verdict))
          ∷ ("blockers", array (map blocker_json discovery.blockers))
          ∷ ("profile", object profile)
          ∷ [];
      failure_hint =
          if is_none_left failures
          then none
          else some
              "Required read-only discovery command failed; check SSH access and shell policy.";
    }

-- `_discovery_session_read`, the values of its step as the row keeps them.
pub record DiscoverySessionRead (F : Type 0) : Type 0 where
  pub id : String
  pub machine_id : String
  pub status : String
  pub verdict : Json F
  pub blockers : Json F
  pub profile : Json F
  pub command_results : Results
  pub allowlist : Json F
  pub run : BootstrapRun F
  pub snapshot : Option (MachineSnapshot F)

snapshot_value : {F : Type 0} → String → Json F → List (StepResult F) → Json F
snapshot_value key default [] = default
snapshot_value key default (step ∷ steps) = elim (get key step.snapshots) [
  | none ↦ default
  | some v ↦ v
]

phases_of : {F : Type 0} → List (StepResult F) → Results
phases_of [] = []
phases_of (step ∷ steps) = step.phase_results

unfoldable pub discovery_session_read :
    {F : Type 0} → BootstrapRun F → Option (MachineSnapshot F) → DiscoverySessionRead F
unfolding snapshot_value phases_of
discovery_session_read run snapshot = record {
  id = run.id;
  machine_id = run.machine_id;
  status = run.status;
  verdict = snapshot_value "verdict" (text "blocked") run.step_results;
  blockers = snapshot_value "blockers" (array []) run.step_results;
  profile = snapshot_value "profile" (object []) run.step_results;
  command_results = phases_of run.step_results;
  allowlist = snapshot_value "allowlist" (array []) run.step_results;
  run = run;
  snapshot = snapshot;
}

-- `"failed" if step.exit_code != 0 else "succeeded"`, which three handlers write.
abbrev pub run_status : ℤ → String
run_status exit_code = if is_zero exit_code then "succeeded" else "failed"

abbrev pub if_failed : {A : Type 0} → ℤ → Option A → Option A
if_failed exit_code value = if is_zero exit_code then none else value

abbrev pub add_run : {F : Type 0} → BootstrapRun F → Tables F → Tables F
add_run run t = record t { runs = put run.id run t.runs }

-- The row of a discovery, for its id.
unfoldable pub discovery_run : {F : Type 0} → String → String → StepResult F → BootstrapRun F
discovery_run id machine_id step = record {
  id = id;
  machine_id = machine_id;
  profile = "custom";
  status = run_status step.exit_code;
  modules = step.id ∷ [];
  step_results = step ∷ [];
  failure_class = if_failed step.exit_code (some "safe_discovery_failed");
  failure_hint = if_failed step.exit_code step.failure_hint;
}

module _ {F W : Type 0} (d : Deployment F W) where
  unfoldable pub discovery_of : Machine F → (dry_run : Bool) → Action F W (Discovery F)
  discovery_of machine true = lift (fake_discovery d.floats d.python (machine_context machine))
  discovery_of machine false = do
    executor ← lift (executor_for d machine)
    outside_or_raise (run_discovery d.floats d.python executor (machine_context machine))

  -- What is committed for a discovery, and the answer.
  unfoldable pub recorded : Machine F → Discovery F → Action F W (DiscoverySessionRead F)
  unfolding discovery_step_of discovery_run discovery_session_read
  recorded machine discovery = do
    let profile = profile_dict d.floats d.python discovery.profile
    let print = fingerprint d.floats d.python discovery.profile
    let step = discovery_step_of profile discovery
    snapshot_id ← fresh d.new_id
    run_id ← fresh d.new_id
    let snapshot = snapshot_for snapshot_id profile print "discovery" machine
    let status = "discovery_" <> verdict_value discovery.verdict
    change (save_machine (profiled_machine profile print status machine))
    change (add_snapshot snapshot)
    change (add_run (discovery_run run_id machine.id step))
    commit
    return (discovery_session_read (discovery_run run_id machine.id step) (some snapshot))

  unfoldable pub create_discovery_session :
      String → (dry_run : Bool) → Action F W (DiscoverySessionRead F)
  unfolding discovery_of recorded
  create_discovery_session machine_id dry_run = do
    machine ← the_machine d machine_id
    discovery ← discovery_of machine dry_run
    recorded machine discovery
