-- ===== src/Samples/Deployments.antt =====
-- A small deployment, and a database with one machine.
use inference_lab.Prelude.{ℕ, suc, true, none, [], ◌∷◌}
use inference_lab.Prelude.Int.{negsuc}
use inference_lab.Prelude.Text.{◌<>◌, show}
use inference_lab.Result.{ok, err, other_error}
use inference_lab.Schemas.{container}
use inference_lab.Agents.{exited}
use inference_lab.Plugins.{RunSpec}
use inference_lab.Settings.{AppSettings}
use inference_lab.Tuning.{default_params}
use inference_lab.Database.{Tables, no_tables, Machine, ModelRecord, Experiment}
use inference_lab.Database.Session.{Session}
use inference_lab.Prelude.Json.{text}
use inference_lab.Api.{Deployment}
use inference_lab.Samples.Values.{millionths, quiet_ssh}
use inference_lab.Samples.Machines.{wordy}
use inference_lab.Samples.Benchmarks.{silent}
use inference_lab.Samples.Secrets.{plain_codecs}

abbrev pub lab_app : AppSettings
lab_app = record {
  secret_key = "master";
  llm_provider = record { provider = "disabled"; base_url = none; model = none; api_key = none };
  agent_executor = record {
    provider = "pi";
    command = "pi";
    work_dir = "/data";
    max_rounds = 15;
    timeout_minutes = 30;
  };
  known_hosts_policy = "strict";
  default_timeout_seconds = 10;
}

-- Its Pi agent is always ended by signal 9, and its object store refuses every upload.
abbrev pub lab : Deployment ℕ ℕ
lab = record {
  app = lab_app;
  codecs = plain_codecs;
  floats = millionths;
  python = wordy;
  show_items = λ _. "[]";
  ssh = quiet_ssh;
  subprocess = λ _ _ _ _ w. (exited (negsuc 8) "" "killed", suc w);
  llm = record { completion = λ _ _ _ _ w. (ok "{}", suc w); candidates_of = λ _. ok [] };
  s3 = record {
    bucket_name = "lab";
    put_object = λ _ _ _ w. (err (other_error "no bucket"), suc w);
    presign_get = λ key w. (ok key, w);
  };
  reader = silent;
  submit = λ _ job_id _ w. (ok job_id, suc w);
  new_id = λ n. "id-" <> show n;
  enforces_keys = true;
}

abbrev pub box : Machine ℕ
box = record {
  id = "m1";
  row = record {
    name = "lab";
    host = "gpu-1";
    port = 22;
    username = "root";
    credential_type = "ssh_agent";
    encrypted_credential = none;
    runtime_mode = "container";
  };
  status = "created";
  machine_profile = [];
  fingerprint = none;
}

abbrev pub qwen : ModelRecord ℕ
qwen = record {
  id = "q1";
  name = "qwen";
  source = "mock";
  format = "safetensors";
  sha256 = "00";
  cache_path = "/data/models/qwen";
  metadata_json = [];
}

abbrev pub lab_spec : RunSpec ℕ
lab_spec = record {
  machine_id = "m1";
  model_id = "q1";
  runtime_mode = container;
  framework = "vllm";
  framework_version = "1";
  framework_params = default_params millionths;
  prompt_dataset = "p";
  benchmark_version = "b";
}

abbrev pub trial_run : Experiment ℕ
trial_run = record {
  id = "x1";
  name = "first";
  machine_id = "m1";
  model_id = "q1";
  runtime_mode = "container";
  framework = "vllm";
  framework_version = "1";
  framework_params = text "{}";
  prompt_dataset = "p";
  launch_command = "vllm serve";
  goal = "max_throughput";
  status = "succeeded";
  reproducibility = [];
}

abbrev pub lab_tables : Tables ℕ
lab_tables = record (no_tables {F = ℕ}) {
  machines = ("m1", box) ∷ [];
  models = ("q1", qwen) ∷ [];
  experiments = ("x1", trial_run) ∷ [];
}

abbrev pub lab_session : Session ℕ ℕ
lab_session = record { pending = lab_tables; saved = lab_tables; made = 0; world = 0 }
