-- ===== src/Schemas.antt =====
-- backend/src/inflab/schemas.py: the enumerations and the records of commands and their results.
use inference_lab.Prelude.{String, Bool, false, Option, none, List, []}
use inference_lab.Prelude.Int.{ℤ}

pub data RuntimeMode : Type 0 where
  container bare_metal both : RuntimeMode

pub data ExperimentMode : Type 0 where
  standard intelligent : ExperimentMode

pub data JobStatus : Type 0 where
  queued running succeeded failed canceled : JobStatus

pub data BootstrapProfile : Type 0 where
  minimal standard_container standard_bare_metal full custom : BootstrapProfile

pub data EnvironmentSetupStrategy : Type 0 where
  pi_workflow scripted : EnvironmentSetupStrategy

pub data BenchmarkKind : Type 0 where
  serve throughput : BenchmarkKind

pub data StepStatus : Type 0 where
  skipped unchanged changed failed : StepStatus

pub data LlmProviderName : Type 0 where
  disabled openai_compatible anthropic : LlmProviderName

pub data ValidationStatus : Type 0 where
  passed warning failed : ValidationStatus

pub record CommandRecord : Type 0 where
  pub command : String
  pub cwd : Option String
  pub env : List (String × String)
  pub sudo : Bool

-- `CommandRecord(command=text)`, with the defaults of the other fields.
abbrev pub plain_command : String → CommandRecord
plain_command text = record { command = text; cwd = none; env = []; sudo = false }

pub record CommandResult : Type 0 where
  pub command : CommandRecord
  pub exit_code : ℤ
  pub stdout : String
  pub stderr : String
  pub stdout_uri : Option String
  pub stderr_uri : Option String

-- A result with no artifact addresses, as every executor returns it.
abbrev pub command_result : CommandRecord → ℤ → String → String → CommandResult
command_result command exit_code stdout stderr = record {
  command = command;
  exit_code = exit_code;
  stdout = stdout;
  stderr = stderr;
  stdout_uri = none;
  stderr_uri = none;
}

-- The values of a `StrEnum`.
abbrev pub runtime_mode_value : RuntimeMode → String
runtime_mode_value container = "container"
runtime_mode_value bare_metal = "bare_metal"
runtime_mode_value both = "both"

abbrev pub profile_value : BootstrapProfile → String
profile_value minimal = "minimal"
profile_value standard_container = "standard_container"
profile_value standard_bare_metal = "standard_bare_metal"
profile_value full = "full"
profile_value custom = "custom"

abbrev pub llm_provider_value : LlmProviderName → String
llm_provider_value disabled = "disabled"
llm_provider_value openai_compatible = "openai_compatible"
llm_provider_value anthropic = "anthropic"
