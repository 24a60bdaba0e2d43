-- ===== src/Discovery/Profile.antt =====
-- `build_discovery_profile` of backend/src/inflab/discovery.py, and `parse_nvidia_smi_csv` of
-- backend/src/inflab/probe.py.
use Prim.Native.Char.{code}
use inference_lab.Prelude.{
  ℕ, String, Bool, not, Option, none, some, List, [], ◌∷◌, ◌++◌, map, ◌==◌, ℕ-eq, String-eq,
  if◌then◌else◌, put,
}
use inference_lab.Prelude.Int.{pos}
use inference_lab.Prelude.Float.{Floats}
use inference_lab.Prelude.Json.{Json, null, boolean, int, float, text, object, array}
use inference_lab.Prelude.Text.{◌<>◌, is_empty, strip, rstrip_by, lstrip_by, contains, split_lines}
use inference_lab.Result.{Result, ok, err, value_error, ◌>>=◌}
use inference_lab.Discovery.{PythonText, MachineContext, Results, stdout_of}

-- `s.split(sep)` for a separator of one character, given the part being read.
split_from : ℕ → String → String → List String
split_from sep part String.[] = part ∷ []
split_from sep part (String.◌∷◌ c s) =
    let here = split_from sep "" s in
    let more = split_from sep (part <> String.◌∷◌ c "") s in
    if code c == sep then part ∷ here else more

unfoldable pub split_on : ℕ → String → List String
unfolding split_from
split_on sep s = split_from sep "" s

-- `s.replace(".", "", 1)`
unfoldable pub without_point : String → String
without_point String.[] = ""
without_point (String.◌∷◌ c s) =
    let rest = without_point s in if code c == b'.' then s else String.◌∷◌ c rest

-- `line.split("=", 1)`, none where the line has no such character.
split_pair : String → String → Option (String × String)
split_pair key String.[] = none
split_pair key (String.◌∷◌ c s) =
    let more = split_pair (key <> String.◌∷◌ c "") s in
    if code c == b'=' then some (key, s) else more

abbrev unquoted : String → String
unquoted raw = rstrip_by (λ c. c == b'"') (lstrip_by (λ c. c == b'"') (strip raw))

os_release_from : List (String × String) → List String → List (String × String)
os_release_from parsed [] = parsed
os_release_from parsed (line ∷ lines) = elim (split_pair "" line) [
  | none ↦ os_release_from parsed lines
  | some (key, raw) ↦ os_release_from (put key (unquoted raw) parsed) lines
]

unfoldable pub parse_os_release : String → List (String × String)
unfolding os_release_from split_pair
parse_os_release value = os_release_from [] (split_lines value)

-- `[*lines, "", "", ""][:3]`
unfoldable pub identity : String → String × String × String
identity value = elim (split_lines value) [
  | [] ↦ ("", "", "")
  | a ∷ [] ↦ (a, "", "")
  | a ∷ b ∷ [] ↦ (a, b, "")
  | a ∷ b ∷ c ∷ more ↦ (a, b, c)
]

module _ {F : Type 0} (fl : Floats F) (py : PythonText F) where
  parsed_or_raw : String → Option (Json F) → Json F
  parsed_or_raw value none = text value
  parsed_or_raw value (some j) = j

  unfoldable pub json_or_raw : String → Json F
  unfolding parsed_or_raw
  json_or_raw value =
      let s = strip value in if is_empty s then object [] else parsed_or_raw s (py.loads s)

  -- `round(int(stripped) / 1024 / 1024, 2)`, none where the text is no number.
  unfoldable pub memory_gb : String → Result (Option F)
  memory_gb value =
      let s = strip value in
      let kib = fl.of_int (pos 1024) in
      if py.is_digit s
      then (do n ← py.to_int s; ok (some (fl.round (fl.over (fl.over (fl.of_int n) kib) kib) 2)))
      else ok none

  unfoldable pub index_of : String → Result (Json F)
  index_of s = if py.is_digit s then (do n ← py.to_int s; ok (int n)) else ok (text s)

  unfoldable pub parsed_float : Option F → Result (Json F)
  parsed_float none = err (value_error "could not convert string to float")
  parsed_float (some x) = ok (float x)

  unfoldable pub memory_mb : String → Result (Json F)
  unfolding without_point parsed_float
  memory_mb s = if py.is_digit (without_point s) then parsed_float (fl.of_text s) else ok (text s)

  -- The row of a line, none where the line has less than five parts.
  unfoldable pub gpu_row : List String → Result (List (Json F))
  unfolding index_of memory_mb
  gpu_row (index ∷ name ∷ memory_total ∷ driver_version ∷ cuda_version ∷ more) = do
    i ← index_of index
    memory ← memory_mb memory_total
    ok (
        object (
          ("index", i)
          ∷ ("vendor", text "nvidia")
          ∷ ("model", text name)
          ∷ ("memory_mb", memory)
          ∷ ("driver_version", text driver_version)
          ∷ ("cuda_version", text cuda_version)
          ∷ [])
        ∷ [])
  gpu_row _ = ok []

  unfoldable pub gpu_rows : List String → Result (List (Json F))
  unfolding gpu_row
  gpu_rows [] = ok []
  gpu_rows (line ∷ lines) = do
    row ← gpu_row (map strip (split_on b',' line))
    rows ← gpu_rows lines
    ok (row ++ rows)

  unfoldable pub parse_nvidia_smi_csv : String → Result (List (Json F))
  unfolding gpu_rows
  parse_nvidia_smi_csv value = gpu_rows (split_lines value)

pub record Profile (F : Type 0) : Type 0 where
  pub machine : MachineContext
  pub identity : String × String × String
  pub os_release : List (String × String)
  pub cpu : Json F
  pub memory_gb : Option F
  pub gpu : List (Json F)
  pub python : String
  pub docker_available : Bool
  pub docker_info : Json F
  pub data_path_available : Bool
  pub df : String
  pub interfaces : Json F

-- The dict of a profile, without its fingerprint.
unfoldable pub profile_fields : {F : Type 0} → Profile F → List (String × Json F)
profile_fields p =
    ("host", text p.machine.host)
    ∷ ("port", int (pos p.machine.port))
    ∷ ("username", text p.machine.username)
    ∷ ("runtime_mode", text p.machine.runtime_mode)
    ∷ ("access_mode", text "safe_discovery")
    ∷ ("discovery_version", text "safe-readonly-v1")
    ∷ (
      "identity",
      object (
          ("user", text p.identity.0)
          ∷ ("hostname", text p.identity.1)
          ∷ ("kernel", text p.identity.2)
          ∷ []),
    )
    ∷ ("system", object (("os_release", object (map (λ e. (e.0, text e.1)) p.os_release)) ∷ []))
    ∷ (
      "hardware",
      object (
          ("cpu", p.cpu)
          ∷ ("memory_gb", elim p.memory_gb [ none ↦ null | some x ↦ float x ])
          ∷ ("gpu", array p.gpu)
          ∷ []),
    )
    ∷ (
      "runtime",
      object (
          ("python", text p.python)
          ∷ ("docker_available", boolean p.docker_available)
          ∷ ("docker_info", p.docker_info)
          ∷ []),
    )
    ∷ (
      "storage",
      object (("data_path_available", boolean p.data_path_available) ∷ ("df", text p.df) ∷ []),
    )
    ∷ ("network", object (("interfaces", p.interfaces) ∷ []))
    ∷ []

module _ {F : Type 0} (fl : Floats F) (py : PythonText F) where
  unfoldable pub build_profile : MachineContext → Results → Result (Profile F)
  build_profile machine results = do
    memory ← memory_gb fl py (stdout_of results "memory")
    gpu ← parse_nvidia_smi_csv fl py (stdout_of results "gpu")
    ok (record {
      machine = machine;
      identity = identity (stdout_of results "identity");
      os_release = parse_os_release (stdout_of results "os_release");
      cpu = json_or_raw fl py (stdout_of results "cpu");
      memory_gb = memory;
      gpu = gpu;
      python = strip (stdout_of results "python");
      docker_available = not (is_empty (strip (stdout_of results "docker")));
      docker_info = json_or_raw fl py (stdout_of results "docker");
      data_path_available = contains "/data" (stdout_of results "storage");
      df = stdout_of results "storage";
      interfaces = json_or_raw fl py (stdout_of results "network");
    })

  -- `profile["fingerprint"]`
  unfoldable pub fingerprint : Profile F → String
  unfolding profile_fields
  fingerprint p = py.sha256_hex (py.dumps (object (profile_fields p)))

  -- The dict that `build_discovery_profile` returns.
  unfoldable pub profile_dict : Profile F → List (String × Json F)
  unfolding profile_fields fingerprint
  profile_dict p = profile_fields p ++ ("fingerprint", text (fingerprint p)) ∷ []
