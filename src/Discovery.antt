-- ===== src/Discovery.antt =====
-- backend/src/inflab/discovery.py: the read-only commands of an environment discovery and what
-- their results are read as. Python's JSON and character tests are a parameter.
pub mod Profile
pub mod Verdict
use inference_lab.Prelude.{
  ℕ, String, Bool, true, false, Option, none, some, List, [], ◌∷◌, get, not, if◌then◌else◌,
}
use inference_lab.Prelude.Int.{ℤ, is_zero}
use inference_lab.Prelude.Json.{Json}
use inference_lab.Result.{Result}
use inference_lab.Schemas.{CommandResult}

pub record DiscoveryCommand : Type 0 where
  pub id : String
  pub name : String
  pub command : String
  pub timeout_seconds : ℕ
  pub required : Bool

abbrev optional_command : String → String → String → DiscoveryCommand
optional_command id name command = record {
  id = id;
  name = name;
  command = command;
  timeout_seconds = 15;
  required = false;
}

unfoldable pub safe_discovery_commands : List DiscoveryCommand
safe_discovery_commands =
    record (optional_command "identity" "Identity and kernel" "id -un && hostname && uname -srm") {
      required = true;
    }
    ∷ optional_command "os_release" "OS release" "cat /etc/os-release"
    ∷ optional_command "cpu" "CPU topology" "lscpu -J"
    ∷ optional_command "memory" "Memory" "awk '/MemTotal/ {print $2}' /proc/meminfo"
    ∷ optional_command "gpu" "NVIDIA GPU"
        "nvidia-smi --query-gpu=index,name,memory.total,driver_version,cuda_version --format=csv,noheader,nounits"
    ∷ optional_command "python" "Python runtime" "python3 --version"
    ∷ optional_command "docker" "Docker runtime" "docker info --format '{{json .}}'"
    ∷ optional_command "storage" "Storage" "df -P / /data"
    ∷ optional_command "network" "Network interfaces" "ip -json addr"
    ∷ []

-- What the program uses of Python on texts and JSON values.
pub record PythonText (F : Type 0) : Type 0 where
  -- `json.loads`, which may raise a `JSONDecodeError`
  pub loads : String → Option (Json F)
  -- `json.dumps(value, sort_keys=True, default=str)`
  pub dumps : Json F → String
  -- `s.isdigit()`, `int(s)`, which may raise a `ValueError`, and `c.isalnum()`
  pub is_digit : String → Bool
  pub to_int : String → Result ℤ
  pub is_alnum : ℕ → Bool
  -- `hashlib.sha256(s.encode()).hexdigest()`
  pub sha256_hex : String → String
  -- `str(value)`
  pub show_value : Json F → String

-- The machine that is discovered: the dict that the API makes of its row.
pub record MachineContext : Type 0 where
  pub id : String
  pub name : String
  pub host : String
  pub port : ℕ
  pub username : String
  pub runtime_mode : String

abbrev pub Results : Type 0
Results = List (String × CommandResult)

abbrev stdout_if : Option CommandResult → String
stdout_if none = ""
stdout_if (some r) = if is_zero r.exit_code then r.stdout else ""

abbrev failed_if : Option CommandResult → Bool
failed_if none = true
failed_if (some r) = not (is_zero r.exit_code)

unfoldable pub stdout_of : Results → String → String
stdout_of results command_id = stdout_if (get command_id results)

unfoldable pub result_failed : Results → String → Bool
result_failed results command_id = failed_if (get command_id results)
