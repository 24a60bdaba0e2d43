-- ===== src/Settings/Keys.antt =====
-- What an update of the agent settings makes of the effective LLM settings.
use inference_lab.Prelude.{
  String, ◌≡◌, refl, Bool, true, false, Option, none, some, if◌then◌else◌, Bool-cases, inl, inr, ap,
}
use inference_lab.Prelude.Text.{is_empty, strip}
use inference_lab.Result.{ok, >>=-eq-ok, ok_inj}
use inference_lab.Schemas.{llm_provider_value}
use inference_lab.Security.{Codecs, CodecLaws, IsEncodable, encrypt_secret}
use inference_lab.Security.RoundTrip.{decrypt_secret-encrypt_secret}
use inference_lab.Database.{AgentRuntimeSettings}
use inference_lab.Database.Session.{Session}
use inference_lab.Settings.{
  AppSettings, LlmProviderSettings, AgentSettingsUpdate, AgentSettingsLlmUpdate,
  clean_optional_text, api_key_from, key_for, row_or_new, effective_llm_provider_settings,
  settings_row, updated_settings, update_agent_settings,
}

-- The key after an update, given the one of the deployment and the one before.
abbrev pub set_key : AgentSettingsLlmUpdate → Option String → Option String → Option String
set_key llm deployed current = if llm.clear_api_key then deployed else (elim llm.api_key [
  | none ↦ current
  | some key ↦ (if is_empty (strip key) then current else some (strip key))
])

-- The settings after an update, without a word on how the key is stored.
abbrev pub set_llm :
    AgentSettingsLlmUpdate → LlmProviderSettings → LlmProviderSettings → LlmProviderSettings
set_llm llm deployed current = record {
  provider = llm_provider_value llm.provider;
  base_url = clean_optional_text llm.base_url;
  model = clean_optional_text llm.model;
  api_key = set_key llm deployed.api_key current.api_key;
}

module _ (c : Codecs) (laws : CodecLaws c) (app : AppSettings) where
  -- A key that can be encoded, and whose encryption is not an empty text.
  pub record IsStorable (key : String) : Type 0 where
    pub encodable : IsEncodable c key
    pub kept :
        (stored : String)
        → encrypt_secret c key app.secret_key ≡ ok stored
        → is_empty stored ≡ false

  abbrev pub IsUpdatable : AgentSettingsLlmUpdate → Type 0
  IsUpdatable llm =
      (key : String)
      → llm.clear_api_key ≡ false
      → llm.api_key ≡ some key
      → is_empty (strip key) ≡ false
      → IsStorable (strip key)

  Kept : AgentSettingsLlmUpdate → Option String → Option String → Type 0
  Kept llm stored current =
      (key : Option String) × (key_for c app llm stored ≡ ok key)
      × (api_key_from c app key ≡ ok (set_key llm app.llm_provider.api_key current))

  key_for-new :
      (key : String) (llm : AgentSettingsLlmUpdate) (stored current : Option String)
      → llm.clear_api_key ≡ false
      → llm.api_key ≡ some key
      → is_empty (strip key) ≡ false
      → IsStorable (strip key)
      → Kept llm stored current
  unfolding Kept key_for api_key_from
  key_for-new key llm stored current kept given full storable =
      let (e, there, back) =
        decrypt_secret-encrypt_secret c laws (strip key) app.secret_key storable.encodable in
      (
        some e,
        rw (kept, given, full, there) refl,
        rw (kept, given, full, storable.kept e there, back) refl,
      )

  key_for-old :
      (key : String) (llm : AgentSettingsLlmUpdate) (stored current : Option String)
      → llm.clear_api_key ≡ false
      → llm.api_key ≡ some key
      → is_empty (strip key) ≡ true
      → api_key_from c app stored ≡ ok current
      → Kept llm stored current
  unfolding Kept key_for
  key_for-old key llm stored current kept given blank before =
      (stored, rw (kept, given, blank) refl, rw (kept, given, blank) before)

  Kept-cases :
      (clear : Bool) (api_key : Option String) (llm : AgentSettingsLlmUpdate)
      (stored current : Option String)
      → llm.clear_api_key ≡ clear
      → llm.api_key ≡ api_key
      → IsUpdatable llm
      → api_key_from c app stored ≡ ok current
      → Kept llm stored current
  unfolding Kept key_for api_key_from
  Kept-cases true api_key llm stored current clear given h before =
      (none, rw clear refl, rw clear refl)
  Kept-cases false none llm stored current kept given h before =
      (stored, rw (kept, given) refl, rw (kept, given) before)
  Kept-cases false (some key) llm stored current kept given h before =
      elim (Bool-cases (is_empty (strip key))) [
        | inl blank ↦ key_for-old key llm stored current kept given blank before
        | inr full ↦ key_for-new key llm stored current kept given full (h key kept given full)
      ]

  api_key_before :
      (row : Option AgentRuntimeSettings) (llm : LlmProviderSettings)
      → effective_llm_provider_settings c app row ≡ ok llm
      → api_key_from c app (row_or_new c app row).encrypted_llm_api_key ≡ ok llm.api_key
  unfolding effective_llm_provider_settings row_or_new api_key_from
  api_key_before none llm h = ap (λ (r : LlmProviderSettings). ok r.api_key) (ok_inj h)
  api_key_before (some row) llm h =
      let (key, read, built) = >>=-eq-ok (api_key_from c app row.encrypted_llm_api_key) _ h in
      rw read (ap (λ (r : LlmProviderSettings). ok r.api_key) (ok_inj built))

  module _ {F W : Type 0} where
    -- An update commits a row, and the settings in effect under it are the abstract update of
    -- those in effect before: the new provider, address and model, and as key the one of the
    -- deployment if the payload clears it, else the payload's if it has a visible character,
    -- else the one before. The settings before must be readable, and a key to store must be
    -- encodable with a non-empty encryption.
    pub update_agent_settings-set_llm :
        (payload : AgentSettingsUpdate) (s : Session F W) (llm : LlmProviderSettings)
        → effective_llm_provider_settings c app s.pending.agent_settings ≡ ok llm
        → IsUpdatable payload.llm
        → (row : AgentRuntimeSettings) × ((update_agent_settings c app payload
              s).1.saved.agent_settings
            ≡ some row)
          × (effective_llm_provider_settings c app (some row)
              ≡ ok (set_llm payload.llm app.llm_provider llm))
    unfolding Kept settings_row update_agent_settings updated_settings
        effective_llm_provider_settings
    update_agent_settings-set_llm payload s llm before h =
        let (key, stored, read) =
          Kept-cases payload.llm.clear_api_key payload.llm.api_key payload.llm _ llm.api_key refl
            refl h (api_key_before s.pending.agent_settings llm before) in
        (settings_row c app payload key, rw stored refl, rw read refl)
