-- ===== src/Api/Models/Created.antt =====
-- What a distribution of a model sends that `create_model` of backend/src/inflab/api/v1.py stored.
use inference_lab.Prelude.{
  String, ◌≡◌, refl, false, Option, none, some, get, get-put_same, ◌⊎◌, inl, inr,
}
use inference_lab.Prelude.Text.{◌<>◌, is_empty}
use inference_lab.Schemas.{plain_command}
use inference_lab.Result.{ok}
use inference_lab.Executor.{RemoteExecutor}
use inference_lab.Artifacts.{
  distribute_model, model_distribution_command, model_verification_command,
}
use inference_lab.Database.{Machine, ModelRecord}
use inference_lab.Database.Session.{Session}
use inference_lab.Api.{Deployment}
use inference_lab.Api.Machines.{executor_for}
use inference_lab.Api.Models.{
  ModelCreate, ModelDistributeRequest, distributed, text_or, checksum, create_model,
  distribute_model_to_machine, distribution, new_model,
}

module _ {F W : Type 0} (d : Deployment F W) where
  -- On a model and a machine that are there, a distribution that is not dry runs.
  distribute_found :
      (id : String) (request : ModelDistributeRequest) (model : ModelRecord F) (m : Machine F)
      (executor : RemoteExecutor W) (s : Session F W)
      → get id s.pending.models ≡ some model
      → get request.machine_id s.pending.machines ≡ some m
      → request.dry_run ≡ false
      → executor_for d m ≡ ok executor
      → let target = text_or request.target_path model.cache_path in
        let (result, w) =
          distribute_model executor model.source model.cache_path target
            (some model.sha256)
            s.world in
        distribute_model_to_machine d id request s ≡ (
          ok (record {
            model_id = model.id;
            machine_id = m.id;
            source = model.source;
            target_path = target;
            result = distributed result;
          }),
          record s { world = w },
        )
  unfolding distribute_model_to_machine distribution
  distribute_found id request model m executor s known there real made =
      rw (known, there, real, made) refl

  -- The text that is used where one may be given: it if it is there and not empty, else another.
  abbrev pub IsChosen : (given : Option String) → (other chosen : String) → Type 0
  IsChosen given other chosen =
      ((given ≡ none) × (chosen ≡ other))
      ⊎ ((given ≡ some "") × (chosen ≡ other))
      ⊎ ((t : String) × (given ≡ some t) × (is_empty t ≡ false) × (chosen ≡ t))

  text_or-IsChosen :
      (given : Option String) (other : String) → IsChosen given other (text_or given other)
  unfolding text_or
  text_or-IsChosen none other = inl (refl, refl)
  text_or-IsChosen (some String.[]) other = inr (inl (refl, refl))
  text_or-IsChosen (some (String.◌∷◌ c t)) other = inr (inr (String.◌∷◌ c t, refl, refl, refl))

  -- The answer to a distribution of a new model, and what the machine was sent: the command that
  -- brings the source to the target, and then the one that verifies the target.
  pub record IsDistributed (payload : ModelCreate F) (request : ModelDistributeRequest)
      (m : Machine F) (executor : RemoteExecutor W) (s : Session F W) : Type 0 where
    pub target : String
    pub sum : String
    pub target_chosen : IsChosen request.target_path payload.cache_path target
    pub sum_chosen :
        IsChosen payload.sha256
          (d.python.sha256_hex (payload.name <> (":" <> payload.cache_path)))
          sum
    pub answers :
        let t = (create_model d payload s).1 in
        let (sent, w1) =
          executor.run
            (plain_command (model_distribution_command payload.source payload.cache_path target))
            3600
            s.world in
        let (checked, w2) =
          executor.run (plain_command (model_verification_command target (some sum))) 600 w1 in
        distribute_model_to_machine d (d.new_id s.made) request t ≡ (
          ok (record {
            model_id = d.new_id s.made;
            machine_id = m.id;
            source = payload.source;
            target_path = target;
            result = distributed (record {
              command = sent.command.command;
              exit_code = sent.exit_code;
              verify_command = checked.command.command;
              verify_exit_code = checked.exit_code;
              stdout = sent.stdout;
              stderr = sent.stderr;
              expected_sha256 = some sum;
            });
          }),
          record t { world = w2 },
        )

  -- A model that was just stored is distributed, by a request that is not dry to a machine that
  -- is there and whose credential can be read. The target is the path of the request or, if that
  -- is absent or empty, the path of the model; the checksum is that of the payload or, if that is
  -- absent or empty, the hash of the model's name and path. The machine gets the command that
  -- brings the source to the target, and then the one that verifies the target against the
  -- checksum; the answer has the exit codes of both and the output of the first. Only the machine
  -- changes.
  pub distribute_model_to_machine-create_model :
      (payload : ModelCreate F) (request : ModelDistributeRequest) (m : Machine F)
      (executor : RemoteExecutor W) (s : Session F W)
      → get request.machine_id s.pending.machines ≡ some m
      → request.dry_run ≡ false
      → executor_for d m ≡ ok executor
      → IsDistributed payload request m executor s
  unfolding create_model checksum distribute_model
  distribute_model_to_machine-create_model payload request m executor s there real made =
      let id = d.new_id s.made in
      let model = new_model d id payload in
      record {
        target = text_or request.target_path payload.cache_path;
        sum = checksum d payload;
        target_chosen = text_or-IsChosen request.target_path payload.cache_path;
        sum_chosen = text_or-IsChosen payload.sha256 _;
        answers =
            distribute_found id request model m executor (create_model d payload s).1
              (get-put_same id model s.pending.models) there real made;
      }
