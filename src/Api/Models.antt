-- ===== src/Api/Models.antt =====
-- backend/src/inflab/api/v1.py: the handlers of `/models` and `/artifacts`.
pub mod Created
use inference_lab.Prelude.{
  String, Bool, true, false, not, ◌&&◌, Option, none, some, List, [], ◌∷◌, get, put, if◌then◌else◌,
}
use inference_lab.Prelude.Json.{Json, text}
use inference_lab.Prelude.Text.{◌<>◌, is_empty}
use inference_lab.Artifacts.{DistributionResult, distribution_plan, distribute_model}
use inference_lab.Database.{Tables, Machine, ModelRecord}
use inference_lab.Database.Session.{
  Action, ◌>>=◌, ◌>>◌, return, reads, lift, change, commit, found, fresh, outside,
}
use inference_lab.Api.{Deployment}
use inference_lab.Api.Machines.{the_machine, executor_for}
use inference_lab.Api.Benchmarks.{the_model}

pub record ModelCreate (F : Type 0) : Type 0 where
  pub name : String
  pub source : String
  pub format : String
  pub sha256 : Option String
  pub cache_path : String
  pub metadata : List (String × Json F)

pub record ModelDistributeRequest : Type 0 where
  pub machine_id : String
  pub target_path : Option String
  pub dry_run : Bool

-- The `result` of a dry run is its plan, and else what `distribute_model` returns.
pub data Distribution : Type 0 where
  dry_plan : List (String × String) → Distribution
  distributed : DistributionResult → Distribution

pub record ModelDistributeRead : Type 0 where
  pub model_id : String
  pub machine_id : String
  pub source : String
  pub target_path : String
  pub result : Distribution

-- `a or b`, for a text that may be absent
unfoldable pub text_or : Option String → String → String
text_or none other = other
text_or (some s) other = if is_empty s then other else s

-- `distribution_plan(source, path)`
plan_fields : String → String → List (String × String)
plan_fields source path = ("source", source) ∷ ("plan", distribution_plan source path) ∷ []

abbrev pub add_model : {F : Type 0} → ModelRecord F → Tables F → Tables F
add_model m t = record t { models = put m.id m t.models }

module _ {F W : Type 0} (d : Deployment F W) where
  -- The checksum that a model is stored with.
  unfoldable pub checksum : ModelCreate F → String
  unfolding text_or
  checksum payload =
      text_or payload.sha256 (d.python.sha256_hex (payload.name <> (":" <> payload.cache_path)))

  abbrev pub new_model : String → ModelCreate F → ModelRecord F
  new_model id payload = record {
    id = id;
    name = payload.name;
    source = payload.source;
    format = payload.format;
    sha256 = checksum payload;
    cache_path = payload.cache_path;
    metadata_json = payload.metadata;
  }

  unfoldable pub create_model : ModelCreate F → Action F W (ModelRecord F)
  create_model payload = do
    id ← fresh d.new_id
    change (add_model (new_model id payload))
    commit
    return (new_model id payload)

  unfoldable pub get_model : String → Action F W (ModelRecord F)
  get_model model_id = the_model d model_id

  -- `verify` of the plugin `sha256`
  unfoldable pub verify : (path expected_sha256 : String) → Bool
  verify path expected_sha256 = not (is_empty path) && not (is_empty expected_sha256)

  unfoldable pub verify_model : String → Action F W Bool
  unfolding verify
  verify_model model_id = do
    model ← the_model d model_id
    return (verify model.cache_path model.sha256)

  unfoldable pub model_distribution_plan : String → Action F W (List (String × String))
  unfolding plan_fields
  model_distribution_plan model_id = do
    model ← the_model d model_id
    return (plan_fields model.source model.cache_path)

  unfoldable pub distribution :
      (target_path : String)
      → (dry_run : Bool) → ModelRecord F
      → Machine F
      → Action F W Distribution
  unfolding plan_fields
  distribution target true model machine =
      return (dry_plan (put "target_path" target (plan_fields model.source model.cache_path)))
  distribution target false model machine = do
    executor ← lift (executor_for d machine)
    result ←
        outside (distribute_model executor model.source model.cache_path target (some model.sha256))
    return (distributed result)

  unfoldable pub distribute_model_to_machine :
      String → ModelDistributeRequest → Action F W ModelDistributeRead
  unfolding text_or distribution
  distribute_model_to_machine model_id payload = do
    row ← reads (λ t. get model_id t.models)
    other ← reads (λ t. get payload.machine_id t.machines)
    model ← found "model" row
    machine ← found "machine" other
    result ←
        distribution (text_or payload.target_path model.cache_path) payload.dry_run model machine
    return (record {
      model_id = model.id;
      machine_id = machine.id;
      source = model.source;
      target_path = text_or payload.target_path model.cache_path;
      result = result;
    })
