-- ===== src/Database.antt =====
-- backend/src/inflab/db/models.py: the rows of the tables, without their time stamps. A JSON column
-- that holds an object is a list of its fields.
pub mod Session
use inference_lab.Prelude.{ℕ, String, Bool, true, none, Option, List, []}
use inference_lab.Prelude.Int.{ℤ}
use inference_lab.Prelude.Json.{Json}
use inference_lab.Jobs.{JobRecord}
use inference_lab.Machines.{MachineRow}
use inference_lab.Steps.{StepResult}

-- `Machine`: the columns that `create_machine` sets are those of `row`.
pub record Machine (F : Type 0) : Type 0 where
  pub id : String
  pub row : MachineRow
  pub status : String
  pub machine_profile : List (String × Json F)
  pub fingerprint : Option String

pub record MachineSnapshot (F : Type 0) : Type 0 where
  pub id : String
  pub machine_id : String
  pub profile : List (String × Json F)
  pub fingerprint : String
  pub artifact_uri : Option String

-- `BootstrapRun`: the results of its steps stand for the JSON that they are dumped to.
pub record BootstrapRun (F : Type 0) : Type 0 where
  pub id : String
  pub machine_id : String
  pub profile : String
  pub status : String
  pub modules : List String
  pub step_results : List (StepResult F)
  pub failure_class : Option String
  pub failure_hint : Option String

pub record ModelRecord (F : Type 0) : Type 0 where
  pub id : String
  pub name : String
  pub source : String
  pub format : String
  pub sha256 : String
  pub cache_path : String
  pub metadata_json : List (String × Json F)

pub record Artifact (F : Type 0) : Type 0 where
  pub id : String
  pub kind : String
  pub name : String
  pub uri : String
  pub sha256 : Option String
  pub size_bytes : ℤ
  pub metadata_json : List (String × Json F)

-- `AgentRuntimeSettings`, of which only the row with the key `default` is used.
pub record AgentRuntimeSettings : Type 0 where
  pub llm_provider : String
  pub llm_base_url : Option String
  pub llm_model : Option String
  pub encrypted_llm_api_key : Option String
  pub pi_enabled : Bool
  pub pi_command : String
  pub pi_work_dir : String
  pub pi_max_rounds : ℕ
  pub pi_timeout_minutes : ℕ

-- A new row, with the defaults of its columns.
abbrev pub default_settings : AgentRuntimeSettings
default_settings = record {
  llm_provider = "disabled";
  llm_base_url = none;
  llm_model = none;
  encrypted_llm_api_key = none;
  pi_enabled = true;
  pi_command = "pi";
  pi_work_dir = "/data/workspace/inflab-autoresearch";
  pi_max_rounds = 15;
  pi_timeout_minutes = 30;
}

pub record Experiment (F : Type 0) : Type 0 where
  pub id : String
  pub name : String
  pub machine_id : String
  pub model_id : String
  pub runtime_mode : String
  pub framework : String
  pub framework_version : String
  pub framework_params : Json F
  pub prompt_dataset : String
  pub launch_command : String
  pub goal : String
  pub status : String
  pub reproducibility : List (String × Json F)

pub record ExperimentTrial (F : Type 0) : Type 0 where
  pub id : String
  pub experiment_id : String
  pub trial_index : ℕ
  pub params : Json F
  pub launch_command : String
  pub status : String
  pub result : List (String × Json F)
  pub failure_category : Option String

-- `MetricsSummary`: the six columns of numbers are fields of `summary`.
pub record MetricsSummary (F : Type 0) : Type 0 where
  pub id : String
  pub experiment_id : String
  pub trial_id : Option String
  pub summary : List (String × F)
  pub metrics : List (String × Json F)

pub record MetricsSample (F : Type 0) : Type 0 where
  pub id : String
  pub experiment_id : String
  pub trial_id : Option String
  pub metrics : List (String × Json F)

pub record ReportRecord : Type 0 where
  pub id : String
  pub experiment_id : String
  pub template : String
  pub status : String
  pub markdown : String
  pub artifact_id : Option String

-- The tables, each from the id of a row to the row, in the order of insertion.
pub record Tables (F : Type 0) : Type 0 where
  pub agent_settings : Option AgentRuntimeSettings
  pub machines : List (String × Machine F)
  pub snapshots : List (String × MachineSnapshot F)
  pub runs : List (String × BootstrapRun F)
  pub models : List (String × ModelRecord F)
  pub artifacts : List (String × Artifact F)
  pub jobs : List (String × JobRecord F)
  pub experiments : List (String × Experiment F)
  pub trials : List (String × ExperimentTrial F)
  pub summaries : List (String × MetricsSummary F)
  pub samples : List (String × MetricsSample F)
  pub reports : List (String × ReportRecord)

abbrev pub no_tables : {F : Type 0} → Tables F
no_tables = record {
  agent_settings = none;
  machines = [];
  snapshots = [];
  runs = [];
  models = [];
  artifacts = [];
  jobs = [];
  experiments = [];
  trials = [];
  summaries = [];
  samples = [];
  reports = [];
}
