-- ===== src/Llm.antt =====
-- backend/src/inflab/llm_provider.py: the candidates that a language model proposes. The call of
-- the model and the validation of its candidates are parameters.
use inference_lab.Prelude.{
  String, Option, none, some, List, [], if◌then◌else◌, ◌==◌, ℕ-eq, String-eq,
}
use inference_lab.Prelude.Json.{Json}
use inference_lab.Prelude.Text.{◌<>◌, is_empty, strip, rstrip_by, lstrip_by, begins_with}
use inference_lab.Result.{Result, ok, err, value_error, message}
use inference_lab.Tuning.{FrameworkParams}
use inference_lab.Settings.{LlmProviderSettings}

drop_first : String → String
drop_first String.[] = ""
drop_first (String.◌∷◌ c s) = s

-- `text[4:]`
without_four : String → String
unfolding drop_first
without_four s = drop_first (drop_first (drop_first (drop_first s)))

-- The text that `_json_from_content` hands to `json.loads`.
unfoldable pub json_text : String → String
unfolding without_four
json_text content =
    let text = strip content in
    if begins_with "```" text
    then (let inner = rstrip_by (λ c. c == b'`') (lstrip_by (λ c. c == b'`') text) in
        strip (if begins_with "json" inner then without_four inner else inner))
    else text

-- LiteLLM and pydantic: the completion for the model, its address, the variable of the environment
-- that is set for it and the context of the request, the answer being its content; and
-- `CandidateSet.model_validate(json.loads(text)).candidates`.
pub record LlmLibrary (F W : Type 0) : Type 0 where
  pub completion :
      (model : String)
      → (base_url : Option String) → (environment : Option (String × String))
      → (context : List (String × Json F)) → W
      → Result String × W
  pub candidates_of : String → Result (List (FrameworkParams F))

module _ {F W : Type 0} (llm : LlmLibrary F W) where
  key_variable : LlmProviderSettings → Option (String × String)
  key_variable settings = elim settings.api_key [
    | none ↦ none
    | some key ↦
        (if is_empty key
          then none
          else if settings.provider == "anthropic"
          then some ("ANTHROPIC_API_KEY", key)
          else some ("OPENAI_API_KEY", key))
  ]

  read_candidates : Result String → Result (List (FrameworkParams F))
  unfolding json_text
  read_candidates (err exc) = err exc
  read_candidates (ok content) = elim (llm.candidates_of (json_text content)) [
    | ok candidates ↦ ok candidates
    | err exc ↦ err (value_error ("LLM candidate response failed validation: " <> message exc))
  ]

  requested :
      String
      → LlmProviderSettings
      → List (String × Json F)
      → W
      → Result (List (FrameworkParams F)) × W
  unfolding key_variable read_candidates
  requested model settings context w =
      let (answer, after) =
        llm.completion model settings.base_url (key_variable settings) context w in
      (read_candidates answer, after)

  no_model : Result (List (FrameworkParams F))
  no_model = err (value_error "LLM model is required when provider is enabled")

  for_model :
      Option String
      → LlmProviderSettings
      → List (String × Json F)
      → W
      → Result (List (FrameworkParams F)) × W
  unfolding no_model requested
  for_model none settings context w = (no_model, w)
  for_model (some model) settings context w =
      if is_empty model then (no_model, w) else requested model settings context w

  unfoldable pub llm_candidates_or_empty :
      LlmProviderSettings → List (String × Json F) → W → Result (List (FrameworkParams F)) × W
  unfolding for_model
  llm_candidates_or_empty settings context w =
      if settings.provider == "disabled"
      then (ok [], w)
      else for_model settings.model settings context w
