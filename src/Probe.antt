-- ===== src/Probe.antt =====
-- `probe_remote_machine` of backend/src/inflab/probe.py.
use inference_lab.Prelude.{String, List, [], ◌∷◌, ◌++◌, if◌then◌else◌}
use inference_lab.Prelude.Int.{is_zero}
use inference_lab.Prelude.Float.{Floats}
use inference_lab.Prelude.Json.{Json, text, object, array}
use inference_lab.Prelude.Text.{strip}
use inference_lab.Result.{Result, ok, ◌>>=◌}
use inference_lab.Schemas.{plain_command}
use inference_lab.Executor.{RemoteExecutor}
use inference_lab.Discovery.{PythonText}
use inference_lab.Discovery.Profile.{json_or_raw, parse_nvidia_smi_csv}

module _ {F W : Type 0} (fl : Floats F) (py : PythonText F) (executor : RemoteExecutor W) where
  run_probe_command : String → W → String × W
  run_probe_command command w =
      let (result, after) = executor.run (plain_command command) 30 w in
      (if is_zero result.exit_code then result.stdout else "", after)

  -- The dict of a probe, for the outputs of its commands and the rows of the GPUs.
  probe_fields :
      (host runtime_mode lscpu lsblk docker network df uname : String)
      → List (Json F)
      → List (String × Json F)
  probe_fields host runtime_mode lscpu lsblk docker network df uname gpu =
      ("host", text host)
      ∷ ("runtime_mode", text runtime_mode)
      ∷ ("access_mode", text "ssh")
      ∷ ("hardware", object (("cpu", json_or_raw fl py lscpu) ∷ ("gpu", array gpu) ∷ []))
      ∷ ("system", object (("uname", text (strip uname)) ∷ []))
      ∷ ("container", json_or_raw fl py docker)
      ∷ ("network", json_or_raw fl py network)
      ∷ ("storage", object (("lsblk", json_or_raw fl py lsblk) ∷ ("df", text df) ∷ []))
      ∷ []

  with_fingerprint : List (String × Json F) → List (String × Json F)
  with_fingerprint profile =
      profile ++ ("fingerprint", text (py.sha256_hex (py.dumps (object profile)))) ∷ []

  unfoldable pub probe_remote_machine :
      (host runtime_mode : String) → W → Result (List (String × Json F)) × W
  unfolding run_probe_command probe_fields with_fingerprint
  probe_remote_machine host runtime_mode w =
      let (lscpu, w1) = run_probe_command "lscpu -J || true" w in
      let (lsblk, w2) = run_probe_command "lsblk --json || true" w1 in
      let (docker, w3) = run_probe_command "docker info --format '{{json .}}' || true" w2 in
      let (network, w4) = run_probe_command "ip -json addr || true" w3 in
      let (df, w5) = run_probe_command "df -P / /data 2>/dev/null || df -P / || true" w4 in
      let (csv, w6) =
        run_probe_command
          "nvidia-smi --query-gpu=index,name,memory.total,driver_version,cuda_version --format=csv,noheader,nounits || true"
          w5 in
      let (uname, w7) = run_probe_command "uname -a || true" w6 in
      (
        (do
          gpu ← parse_nvidia_smi_csv fl py csv
          ok (
              with_fingerprint
                (probe_fields host runtime_mode lscpu lsblk docker network df uname gpu))),
        w7,
      )
