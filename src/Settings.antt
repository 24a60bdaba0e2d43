-- ===== src/Settings.antt =====
-- backend/src/inflab/api/v1.py: the settings of the LLM provider and of the Pi agent, kept in one
-- row over the defaults of the deployment.
pub mod Validation
pub mod Keys
use inference_lab.Prelude.{
  ℕ, String, Bool, true, false, not, Option, none, some, if◌then◌else◌, ◌==◌, String-eq,
}
use inference_lab.Prelude.Text.{◌<>◌, is_empty, strip}
use inference_lab.Result.{Result, ok, err, ◌>>=◌ as bind}
use inference_lab.Schemas.{LlmProviderName, llm_provider_value}
use inference_lab.Machines.{SshSettings}
use inference_lab.Security.{Codecs, encrypt_secret, decrypt_secret}
use inference_lab.Agents.{AgentExecutorSettings, AgentExecutorPlan, pi_agent_executor_plan}
use inference_lab.Agents.{intelligent_worker_prompt}
use inference_lab.Database.{AgentRuntimeSettings, Tables, default_settings}
use inference_lab.Database.Session.{Action, ◌>>=◌, ◌>>◌, return, reads, lift, change, commit}

-- `LLMProviderSettings` of config.py, its key not masked.
pub record LlmProviderSettings : Type 0 where
  pub provider : String
  pub base_url : Option String
  pub model : Option String
  pub api_key : Option String

-- What `get_settings()` gives to these handlers.
pub record AppSettings : Type 0 where
  pub secret_key : String
  pub llm_provider : LlmProviderSettings
  pub agent_executor : AgentExecutorSettings
  pub known_hosts_policy : String
  pub default_timeout_seconds : ℕ

-- The part of the settings that a connection reads.
abbrev pub ssh_settings : AppSettings → SshSettings
ssh_settings app = record {
  secret_key = app.secret_key;
  known_hosts_policy = app.known_hosts_policy;
  default_timeout_seconds = app.default_timeout_seconds;
}

pub record AgentSettingsLlmUpdate : Type 0 where
  pub provider : LlmProviderName
  pub base_url : Option String
  pub model : Option String
  pub api_key : Option String
  pub clear_api_key : Bool

pub record AgentSettingsPiUpdate : Type 0 where
  pub enabled : Bool
  pub command : String
  pub work_dir : String
  pub max_rounds : ℕ
  pub timeout_minutes : ℕ

pub record AgentSettingsUpdate : Type 0 where
  pub llm : AgentSettingsLlmUpdate
  pub pi : AgentSettingsPiUpdate

pub record AgentSettingsLlmRead : Type 0 where
  pub provider : String
  pub base_url : Option String
  pub model : Option String
  pub api_key_configured : Bool

pub record AgentSettingsRead : Type 0 where
  pub llm : AgentSettingsLlmRead
  pub pi : AgentSettingsPiUpdate
  pub pi_executor_plan : AgentExecutorPlan
  pub worker_prompt : String
  pub standard_mode_note : String

-- `bool(value)` of an optional text.
abbrev pub is_given : Option String → Bool
is_given none = false
is_given (some s) = not (is_empty s)

unfoldable pub clean_optional_text : Option String → Option String
clean_optional_text none = none
clean_optional_text (some value) =
    let stripped = strip value in if is_empty stripped then none else some stripped

-- The row's key decrypted, if it has one, and else the key of the deployment.
api_key_from : Codecs → AppSettings → Option String → Result (Option String)
api_key_from c app none = ok app.llm_provider.api_key
api_key_from c app (some stored) =
    if is_empty stored
    then ok app.llm_provider.api_key
    else bind (decrypt_secret c stored app.secret_key) (λ key. ok (some key))

module _ (c : Codecs) (app : AppSettings) where
  -- `_effective_llm_provider_settings`, for the row that `_settings_record` finds.
  unfoldable pub effective_llm_provider_settings :
      Option AgentRuntimeSettings → Result LlmProviderSettings
  unfolding api_key_from
  effective_llm_provider_settings none = ok app.llm_provider
  effective_llm_provider_settings (some row) =
      bind (api_key_from c app row.encrypted_llm_api_key) (λ api_key. ok (record {
        provider = row.llm_provider;
        base_url = row.llm_base_url;
        model = row.llm_model;
        api_key = api_key;
      }))

  unfoldable pub effective_agent_executor_settings :
      Option AgentRuntimeSettings → AgentExecutorSettings
  effective_agent_executor_settings none = app.agent_executor
  effective_agent_executor_settings (some row) = record {
    provider = if row.pi_enabled then "pi" else "disabled";
    command = row.pi_command;
    work_dir = row.pi_work_dir;
    max_rounds = row.pi_max_rounds;
    timeout_minutes = row.pi_timeout_minutes;
  }

  unfoldable pub has_llm_api_key : LlmProviderSettings → Bool
  has_llm_api_key settings = is_given settings.api_key

  worker_prompt : String
  worker_prompt =
      intelligent_worker_prompt "state/task_spec.md" "state/progress.json"
        "state/directions_tried.json"
        "produce at least one verifiable benchmark optimization finding or document why the search should pivot"

  unfoldable pub agent_settings_read : Option AgentRuntimeSettings → Result AgentSettingsRead
  unfolding has_llm_api_key worker_prompt
  agent_settings_read row = bind (effective_llm_provider_settings row) (λ llm.
      let pi = effective_agent_executor_settings row in
      ok (record {
        llm = record {
          provider = llm.provider;
          base_url = llm.base_url;
          model = llm.model;
          api_key_configured = has_llm_api_key llm;
        };
        pi = record {
          enabled = pi.provider == "pi";
          command = pi.command;
          work_dir = pi.work_dir;
          max_rounds = pi.max_rounds;
          timeout_minutes = pi.timeout_minutes;
        };
        pi_executor_plan = pi_agent_executor_plan pi;
        worker_prompt = worker_prompt;
        standard_mode_note =
            "Standard mode does not depend on LLM or Pi agent settings; only intelligent mode uses this configuration.";
      }))

  -- The key that the update stores.
  key_for : AgentSettingsLlmUpdate → Option String → Result (Option String)
  key_for llm stored = if llm.clear_api_key then ok none else (elim llm.api_key [
    | none ↦ ok stored
    | some key ↦
        (if is_empty (strip key)
          then ok stored
          else bind (encrypt_secret c (strip key) app.secret_key) (λ e. ok (some e)))
  ])

  row_or_new : Option AgentRuntimeSettings → AgentRuntimeSettings
  row_or_new none = default_settings
  row_or_new (some row) = row

  settings_row : AgentSettingsUpdate → Option String → AgentRuntimeSettings
  unfolding clean_optional_text
  settings_row payload key = record {
    llm_provider = llm_provider_value payload.llm.provider;
    llm_base_url = clean_optional_text payload.llm.base_url;
    llm_model = clean_optional_text payload.llm.model;
    encrypted_llm_api_key = key;
    pi_enabled = payload.pi.enabled;
    pi_command = strip payload.pi.command;
    pi_work_dir = strip payload.pi.work_dir;
    pi_max_rounds = payload.pi.max_rounds;
    pi_timeout_minutes = payload.pi.timeout_minutes;
  }

  -- The row that `update_agent_settings` writes.
  unfoldable pub updated_settings :
      AgentSettingsUpdate → Option AgentRuntimeSettings → Result AgentRuntimeSettings
  unfolding key_for row_or_new settings_row
  updated_settings payload before =
      bind (key_for payload.llm (row_or_new before).encrypted_llm_api_key)
        (λ key. ok (settings_row payload key))

  module _ {F W : Type 0} where
    unfoldable pub get_agent_settings : Action F W AgentSettingsRead
    unfolding agent_settings_read
    get_agent_settings = do row ← reads (λ t. t.agent_settings); lift (agent_settings_read row)

    unfoldable pub update_agent_settings : AgentSettingsUpdate → Action F W AgentSettingsRead
    unfolding updated_settings agent_settings_read
    update_agent_settings payload = do
      before ← reads (λ t. t.agent_settings)
      row ← lift (updated_settings payload before)
      change (λ t. record t { agent_settings = some row })
      commit
      lift (agent_settings_read (some row))
