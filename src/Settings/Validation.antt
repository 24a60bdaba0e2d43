-- ===== src/Settings/Validation.antt =====
-- The checks of `_validate_agent_settings_payload` of backend/src/inflab/api/v1.py.
use inference_lab.Prelude.{
  String, Bool, true, false, not, Option, none, some, List, [], ◌∷◌, ◌++◌, any, if◌then◌else◌,
}
use inference_lab.Prelude.Text.{◌<>◌, is_empty, show, strip, begins_with}
use inference_lab.Result.{Result, ok, ◌>>=◌}
use inference_lab.Schemas.{
  ValidationStatus, passed, warning, failed, LlmProviderName, disabled, openai_compatible,
  anthropic,
}
use inference_lab.Security.{Codecs}
use inference_lab.Database.{AgentRuntimeSettings}
use inference_lab.Settings.{
  AppSettings, AgentSettingsUpdate, AgentSettingsLlmUpdate, AgentSettingsPiUpdate, is_given,
  clean_optional_text, effective_llm_provider_settings, has_llm_api_key,
}

pub record AgentSettingsValidationCheck : Type 0 where
  pub key : String
  pub status : ValidationStatus
  pub message : String

pub record AgentSettingsValidationRead : Type 0 where
  pub status : String
  pub checks : List AgentSettingsValidationCheck

abbrev check : String → ValidationStatus → String → AgentSettingsValidationCheck
check key status message = record { key = key; status = status; message = message }

abbrev is_failed : AgentSettingsValidationCheck → Bool
is_failed c = elim c.status [ failed ↦ true | _ ↦ false ]

abbrev pub is_text : Option String → Bool
is_text none = false
is_text (some s) = not (is_empty (strip s))

module _ (c : Codecs) (app : AppSettings) where
  unfoldable pub agent_settings_payload_has_key :
      AgentSettingsUpdate → Option AgentRuntimeSettings → Result Bool
  agent_settings_payload_has_key payload row =
      if is_text payload.llm.api_key
      then ok true
      else if payload.llm.clear_api_key
      then ok false
      else effective_llm_provider_settings c app row >>= (λ llm. ok (has_llm_api_key c app llm))

  model_check : AgentSettingsLlmUpdate → AgentSettingsValidationCheck
  model_check llm =
      if is_given (clean_optional_text llm.model)
      then check "llm.model" passed "LLM model is configured."
      else check "llm.model" failed "LLM model is required when the provider is enabled."

  key_check : Bool → AgentSettingsValidationCheck
  key_check has_key =
      if has_key
      then check "llm.api_key" passed
          "LLM API key is configured or preserved from the current settings."
      else check "llm.api_key" warning
          "No API key is configured; this only works for providers that do not require one."

  url_checks : LlmProviderName → Option String → List AgentSettingsValidationCheck
  url_checks openai_compatible base_url =
      if is_given (clean_optional_text base_url)
      then []
      else check "llm.base_url" warning
          "Base URL is usually required for OpenAI-compatible non-default endpoints."
        ∷ []
  url_checks disabled base_url = []
  url_checks anthropic base_url = []

  enabled_checks :
      AgentSettingsUpdate → Option AgentRuntimeSettings → Result (List AgentSettingsValidationCheck)
  unfolding model_check key_check url_checks
  enabled_checks payload row = do
    has_key ← agent_settings_payload_has_key payload row
    ok (
        model_check payload.llm
        ∷ key_check has_key
        ∷ url_checks payload.llm.provider payload.llm.base_url)

  llm_checks :
      LlmProviderName
      → AgentSettingsUpdate
      → Option AgentRuntimeSettings
      → Result (List AgentSettingsValidationCheck)
  unfolding enabled_checks
  llm_checks disabled payload row = ok (
      check "llm.provider" passed "LLM provider is disabled; standard mode remains fully available."
      ∷ [])
  llm_checks openai_compatible payload row = enabled_checks payload row
  llm_checks anthropic payload row = enabled_checks payload row

  work_dir_check : AgentSettingsPiUpdate → AgentSettingsValidationCheck
  work_dir_check pi =
      if begins_with "/" pi.work_dir
      then check "pi.work_dir" passed "Pi work directory is absolute."
      else check "pi.work_dir" warning
          "Pi work directory is relative; prefer an absolute path for reproducibility."

  pi_checks : AgentSettingsPiUpdate → List AgentSettingsValidationCheck
  unfolding work_dir_check
  pi_checks pi =
      if pi.enabled
      then check "pi.command" passed "Pi command is configured."
        ∷ work_dir_check pi
        ∷ check "pi.limits" passed (
            "Pi worker cap is "
            <> (show pi.max_rounds <> (" rounds and " <> (show pi.timeout_minutes <> " minutes."))))
        ∷ []
      else check "pi.enabled" passed
          "Pi agent is disabled; intelligent mode will skip Pi worker execution."
        ∷ []

  unfoldable pub validate_agent_settings_payload :
      AgentSettingsUpdate → Option AgentRuntimeSettings → Result AgentSettingsValidationRead
  unfolding llm_checks pi_checks
  validate_agent_settings_payload payload row = do
    llm ← llm_checks payload.llm.provider payload row
    let checks = llm ++ pi_checks payload.pi
    ok (record { status = if any is_failed checks then "invalid" else "valid"; checks = checks })

  -- Whether the model that the provider needs is missing.
  abbrev pub lacks_model : LlmProviderName → Option String → Bool
  lacks_model disabled model = false
  lacks_model openai_compatible model = not (is_given (clean_optional_text model))
  lacks_model anthropic model = not (is_given (clean_optional_text model))
