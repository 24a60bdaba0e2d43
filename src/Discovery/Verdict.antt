-- ===== src/Discovery/Verdict.antt =====
-- `evaluate_discovery`, `run_safe_environment_discovery` and `fake_safe_environment_discovery` of
-- backend/src/inflab/discovery.py.
pub mod Ready
pub mod Sent
pub mod Total
use Prim.Native.Char.{code}
use Prim.Native.String
use inference_lab.Prelude.{
  ℕ, String, Bool, true, false, not, ◌&&◌, ◌||◌, Option, none, some, List, [], ◌∷◌, ◌++◌, map, any,
  put, ◌==◌, ℕ-eq, String-eq, if◌then◌else◌,
}
use inference_lab.Prelude.Float.{Floats}
use inference_lab.Prelude.Int.{pos}
use inference_lab.Prelude.Text.{◌<>◌, is_empty}
use inference_lab.Result.{Result, ok, err, ◌>>=◌}
use inference_lab.Schemas.{CommandResult, plain_command, command_result}
use inference_lab.Executor.{RemoteExecutor}
use inference_lab.Discovery.{
  DiscoveryCommand, safe_discovery_commands, PythonText, MachineContext, Results, result_failed,
}
use inference_lab.Discovery.Profile.{Profile, build_profile}

pub data Severity : Type 0 where
  warning blocking : Severity

pub record Blocker : Type 0 where
  pub key : String
  pub severity : Severity
  pub message : String
  pub evidence_command : String

pub data Verdict : Type 0 where
  ready partially_ready blocked : Verdict

abbrev blocker : String → Severity → String → String → Blocker
blocker key severity message evidence_command = record {
  key = key;
  severity = severity;
  message = message;
  evidence_command = evidence_command;
}

abbrev when : Bool → Blocker → List Blocker
when true b = b ∷ []
when false b = []

abbrev is_blocking : Blocker → Bool
is_blocking b = elim b.severity [ blocking ↦ true | warning ↦ false ]

-- A required command that failed.
failure_of : DiscoveryCommand → Blocker
failure_of c =
    blocker (c.id <> "_failed") blocking
      ("Required read-only discovery command failed: " <> (c.name <> ".")) c.id

required_failures : Results → List DiscoveryCommand → List Blocker
unfolding failure_of
required_failures results [] = []
required_failures results (c ∷ commands) =
    when (c.required && result_failed results c.id) (failure_of c)
    ++ required_failures results commands

abbrev is_nil : {A : Type 0} → List A → Bool
is_nil [] = true
is_nil (x ∷ l) = false

-- `if runtime_mode in {"container", "both"} and not profile["runtime"]["docker_available"]`
abbrev lacks_docker : String → Bool → Bool
lacks_docker mode docker_available = (mode == "container" || mode == "both") && not docker_available

blockers_of : {F : Type 0} → String → Profile F → Results → List Blocker
unfolding required_failures
blockers_of mode p results =
    required_failures results safe_discovery_commands
    ++ (when (is_nil p.gpu) (
          blocker "gpu_unavailable" blocking "No NVIDIA GPU was discovered through nvidia-smi."
            "gpu")
        ++ (when (is_empty p.python) (
              blocker "python_unavailable" blocking
                "python3 is unavailable or not visible to the SSH user." "python")
            ++ (when (lacks_docker mode p.docker_available) (
                  blocker "container_runtime_unavailable"
                    (if mode == "container" then blocking else warning)
                    "Docker is unavailable or inaccessible to the SSH user." "docker")
                ++ when (not p.data_path_available) (
                    blocker "data_path_missing" warning
                      "/data is not visible in df output; model/cache paths may need review."
                      "storage"))))

abbrev verdict_of : List Blocker → Verdict
verdict_of blockers =
    if any is_blocking blockers
    then blocked
    else elim blockers [ [] ↦ ready | b ∷ more ↦ partially_ready ]

unfoldable pub evaluate_discovery :
    {F : Type 0} → String → Profile F → Results → Verdict × List Blocker
unfolding blockers_of
evaluate_discovery mode p results =
    let blockers = blockers_of mode p results in (verdict_of blockers, blockers)

-- What a discovery returns; its allowlist is always `safe_discovery_commands`.
pub record Discovery (F : Type 0) : Type 0 where
  pub verdict : Verdict
  pub blockers : List Blocker
  pub profile : Profile F
  pub command_results : Results

module _ {F : Type 0} (py : PythonText F) where
  -- `character if character.isalnum() or character in ".-" else "_"`
  safe_key : String → String
  safe_key String.[] = ""
  safe_key (String.◌∷◌ c s) =
      (if py.is_alnum (code c) || (code c == b'.' || code c == b'-') then String.◌∷◌ c "" else "_")
      <> safe_key s

  machine_key : MachineContext → String
  unfolding safe_key
  machine_key m =
      safe_key (if is_empty m.id then (if is_empty m.host then "unknown" else m.host) else m.id)

  unfoldable pub attach_artifact_uris : MachineContext → String → CommandResult → CommandResult
  unfolding machine_key
  attach_artifact_uris m command_id result =
      let prefix = "memory://discovery/" <> (machine_key m <> ("/" <> command_id)) in
      record result {
        stdout_uri = some (prefix <> "/stdout.txt");
        stderr_uri = some (prefix <> "/stderr.txt");
      }

module _ {F : Type 0} (fl : Floats F) (py : PythonText F) where
  discovered : MachineContext → Results → Profile F → Discovery F
  discovered m results p =
      let (verdict, blockers) = evaluate_discovery m.runtime_mode p results in
      record { verdict = verdict; blockers = blockers; profile = p; command_results = results }

  concluded : MachineContext → Results → Result (Discovery F)
  unfolding discovered
  concluded m results = do p ← build_profile fl py m results; ok (discovered m results p)

  module _ {W : Type 0} (executor : RemoteExecutor W) where
    unfoldable pub collect : MachineContext → List DiscoveryCommand → Results → W → Results × W
    unfolding attach_artifact_uris
    collect m [] results w = (results, w)
    collect m (c ∷ commands) results w =
        let (result, after) = executor.run (plain_command c.command) c.timeout_seconds w in
        collect m commands (put c.id (attach_artifact_uris py m c.id result) results) after

    unfoldable pub run_discovery : MachineContext → W → Result (Discovery F) × W
    unfolding concluded collect
    run_discovery m w =
        let (results, after) = collect m safe_discovery_commands [] w in
        (concluded m results, after)

  abbrev answer : MachineContext → String → String → String → String × CommandResult
  answer m command_id command stdout = (
    command_id,
    attach_artifact_uris py m command_id (command_result (plain_command command) (pos 0) stdout ""),
  )

  unfoldable pub fake_results : MachineContext → Results
  unfolding attach_artifact_uris
  fake_results m =
      answer m "identity" "id -un && hostname && uname -srm"
        (m.username <> ("\n" <> (m.host <> "\nLinux mock x86_64\n")))
      ∷ answer m "os_release" "cat /etc/os-release" "ID=ubuntu\nVERSION_ID=\"24.04\"\n"
      ∷ answer m "cpu" "lscpu -J" "{\"lscpu\":[{\"field\":\"Model name:\",\"data\":\"MockCPU\"}]}"
      ∷ answer m "memory" "awk '/MemTotal/ {print $2}' /proc/meminfo" "536870912\n"
      ∷ answer m "gpu"
          "nvidia-smi --query-gpu=index,name,memory.total,driver_version,cuda_version --format=csv,noheader,nounits"
          "0, MockGPU, 81920, 555.55, 12.4\n"
      ∷ answer m "python" "python3 --version" "Python 3.12.0\n"
      ∷ answer m "docker" "docker info --format '{{json .}}'" "{\"ServerVersion\":\"dry-run\"}"
      ∷ answer m "storage" "df -P / /data"
          "Filesystem 1024-blocks Used Available Capacity Mounted on\nmock 1 0 1 0% /data\n"
      ∷ answer m "network" "ip -json addr" "[]"
      ∷ []

  unfoldable pub fake_discovery : MachineContext → Result (Discovery F)
  unfolding concluded
  fake_discovery m = concluded m (fake_results m)
