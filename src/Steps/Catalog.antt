-- ===== src/Steps/Catalog.antt =====
-- `BOOTSTRAP_STEPS` and `PROFILE_MODULES` of backend/src/inflab/steps.py, and the choice of steps.
use inference_lab.Prelude.{String, Option, none, some, List, [], ◌∷◌, get, String-eq}
use inference_lab.Prelude.Text.{◌<>◌}
use inference_lab.Result.{Result, ok, or_key_error, ◌>>=◌}
use inference_lab.Steps.{ShellRemoteStep}

abbrev pub b1 : ShellRemoteStep
b1 = record {
  id = "B1";
  name = "Access Bootstrap";
  detect_command = "id inflab || true";
  apply_command =
      "id inflab >/dev/null 2>&1 || useradd -m inflab; install -d -m 700 -o inflab -g "
      <> ("inflab /home/inflab/.ssh; printf 'inflab ALL=(ALL) NOPASSWD:ALL\\n' > "
          <> "/etc/sudoers.d/inflab; chmod 440 /etc/sudoers.d/inflab");
  verify_command = "test -d /home/inflab/.ssh";
  changed_files = "/etc/sudoers.d/inflab" ∷ "/home/inflab/.ssh/authorized_keys" ∷ [];
  snapshot_keys = "sshd_config" ∷ "users" ∷ [];
  failure_hint = "Check SSH credentials and sudo permissions.";
}

abbrev pub b2 : ShellRemoteStep
b2 = record {
  id = "B2";
  name = "Source Bootstrap";
  detect_command = "test -f /etc/apt/sources.list || true";
  apply_command =
      "install -d /etc/pip.conf.d /etc/docker; printf '[global]\\ntimeout = 60\\nretries "
      <> ("= 5\\n' > /etc/pip.conf; touch /etc/apt/sources.list; printf "
          <> "'{\"features\":{\"buildkit\":true}}\\n' > /etc/docker/daemon.json");
  verify_command = "test -f /etc/apt/sources.list";
  changed_files = "/etc/apt/sources.list" ∷ "/etc/docker/daemon.json" ∷ [];
  snapshot_keys = "sources" ∷ [];
  failure_hint = "Check mirror URLs and network reachability.";
}

abbrev pub b3 : ShellRemoteStep
b3 = record {
  id = "B3";
  name = "Package Bootstrap";
  detect_command = "command -v jq && command -v rsync || true";
  apply_command =
      "export DEBIAN_FRONTEND=noninteractive; apt-get update && apt-get install -y jq "
      <> "rsync curl git python3 python3-venv python3-pip";
  verify_command = "command -v jq && command -v rsync";
  changed_files = "/var/lib/dpkg/status" ∷ [];
  snapshot_keys = "packages" ∷ [];
  failure_hint = "Check apt source configuration and package locks.";
}

abbrev pub b4 : ShellRemoteStep
b4 = record {
  id = "B4";
  name = "Storage Bootstrap";
  detect_command = "lsblk --json || true";
  apply_command = "mkdir -p /data/models /data/images /data/workspace /data/logs";
  verify_command = "test -d /data/models && test -d /data/logs";
  changed_files = "/data/models" ∷ "/data/images" ∷ "/data/workspace" ∷ "/data/logs" ∷ [];
  snapshot_keys = "lsblk" ∷ "mounts" ∷ [];
  failure_hint = "Check filesystem permissions and NAS dry-run settings.";
}

abbrev pub b5 : ShellRemoteStep
b5 = record {
  id = "B5";
  name = "Container Bootstrap";
  detect_command = "docker info || true";
  apply_command =
      "install -d /etc/docker; printf "
      <> ("'{\"features\":{\"buildkit\":true},\"default-runtime\":\"nvidia\",\"runtimes\":{\"nvidia\":{"
          <> ("\"path\":\"nvidia-container-runtime\",\"runtimeArgs\":[]}}}\\n' > "
              <> "/etc/docker/daemon.json; systemctl restart docker || true"));
  verify_command = "test -f /etc/docker/daemon.json";
  changed_files = "/etc/docker/daemon.json" ∷ [];
  snapshot_keys = "docker_info" ∷ [];
  failure_hint = "Check Docker installation or dry-run runtime settings.";
}

abbrev pub b6 : ShellRemoteStep
b6 = record {
  id = "B6";
  name = "Baseline Tuning Record";
  detect_command = "sysctl -a | head || true";
  apply_command =
      "install -d /data/logs; sysctl -a > /data/logs/inflab-sysctl-baseline.txt "
      <> "2>/dev/null || true; ulimit -a > /data/logs/inflab-ulimit-baseline.txt || true";
  verify_command = "test -f /data/logs/inflab-sysctl-baseline.txt";
  changed_files =
      "/data/logs/inflab-sysctl-baseline.txt" ∷ "/data/logs/inflab-ulimit-baseline.txt" ∷ [];
  snapshot_keys = "sysctl_baseline" ∷ [];
  failure_hint = "Check host sysctl read permissions.";
}

abbrev pub b7 : ShellRemoteStep
b7 = record {
  id = "B7";
  name = "Bare-Metal Runtime Bootstrap";
  detect_command = "python3 --version || true";
  apply_command =
      "mkdir -p /data/workspace; test -d /data/workspace/inflab-venv || python3 -m "
      <> ("venv /data/workspace/inflab-venv; /data/workspace/inflab-venv/bin/python -m pip "
          <> "install -U pip wheel");
  verify_command = "test -d /data/workspace/inflab-venv";
  changed_files = "/data/workspace/inflab-venv" ∷ [];
  snapshot_keys = "python" ∷ "pip_freeze" ∷ [];
  failure_hint = "Check Python and venv availability.";
}

unfoldable pub bootstrap_steps : List (String × ShellRemoteStep)
bootstrap_steps =
    ("B1", b1) ∷ ("B2", b2) ∷ ("B3", b3) ∷ ("B4", b4) ∷ ("B5", b5) ∷ ("B6", b6) ∷ ("B7", b7) ∷ []

abbrev pub minimal_modules : List String
minimal_modules = "B1" ∷ "B2" ∷ []

abbrev pub standard_container_modules : List String
standard_container_modules = "B1" ∷ "B2" ∷ "B3" ∷ "B4" ∷ "B5" ∷ "B6" ∷ []

abbrev pub standard_bare_metal_modules : List String
standard_bare_metal_modules = "B1" ∷ "B2" ∷ "B3" ∷ "B4" ∷ "B6" ∷ "B7" ∷ []

abbrev pub full_modules : List String
full_modules = "B1" ∷ "B2" ∷ "B3" ∷ "B4" ∷ "B5" ∷ "B6" ∷ "B7" ∷ []

abbrev pub profile_modules : List (String × List String)
profile_modules =
    ("minimal", minimal_modules)
    ∷ ("standard_container", standard_container_modules)
    ∷ ("standard_bare_metal", standard_bare_metal_modules)
    ∷ ("full", full_modules)
    ∷ []

-- `modules or PROFILE_MODULES.get(profile, PROFILE_MODULES["full"])`
profile_default : Option (List String) → List String
profile_default none = full_modules
profile_default (some modules) = modules

unfoldable pub selected : String → Option (List String) → List String
unfolding profile_default
selected profile none = profile_default (get profile profile_modules)
selected profile (some []) = profile_default (get profile profile_modules)
selected profile (some (m ∷ modules)) = m ∷ modules

-- `BOOTSTRAP_STEPS[module]`
unfoldable pub find_step : String → Result ShellRemoteStep
find_step module_id = or_key_error module_id (get module_id bootstrap_steps)

unfoldable pub lookup_steps : List String → Result (List ShellRemoteStep)
lookup_steps [] = ok []
lookup_steps (m ∷ modules) = do step ← find_step m; steps ← lookup_steps modules; ok (step ∷ steps)

unfoldable pub resolve_bootstrap_steps :
    String → Option (List String) → Result (List ShellRemoteStep)
unfolding selected lookup_steps
resolve_bootstrap_steps profile modules = lookup_steps (selected profile modules)
