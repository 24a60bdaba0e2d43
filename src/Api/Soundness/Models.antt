-- ===== src/Api/Soundness/Models.antt =====
-- The handlers of models and artifacts keep the tables sound.
use inference_lab.Prelude.{
  ◌≡◌, refl, true, Option, none, some, List, All-weaken, has-put_more, put, String, inl, inr, get,
  Bool-cases, Option-cases,
}
use inference_lab.Result.{Result-cases}
use inference_lab.Database.{ModelRecord, Artifact, Tables}
use inference_lab.Database.Session.{Session, Holds}
use inference_lab.Api.{Deployment}
use inference_lab.Api.Machines.{executor_for}
use inference_lab.Api.Models.{
  ModelCreate, ModelDistributeRequest, add_model, new_model, distribution, create_model,
  distribute_model_to_machine,
}
use inference_lab.ObjectStore.{upload_bytes}
use inference_lab.Api.Persistence.{add_artifact}
use inference_lab.Api.Artifacts.{
  ArtifactCreate, ArtifactUploadText, new_artifact, uploaded_artifact, object_key, create_artifact,
  upload_text_artifact,
}
use inference_lab.Api.Soundness.{IsSound, has_or_none}

module _ {F W : Type 0} (d : Deployment F W) where
  add_model-IsSound : (m : ModelRecord F) (t : Tables F) → IsSound t → IsSound (add_model m t)
  add_model-IsSound m t h = record {
    keyed = h.keyed;
    snapshots = h.snapshots;
    runs = h.runs;
    experiments = h.experiments;
    ended = h.ended;
    named = h.named;
    reports = h.reports;
    filed = h.filed;
  }

  pub create_model-IsSound :
      (payload : ModelCreate F) (s : Session F W)
      → Holds IsSound s
      → Holds IsSound (create_model d payload s).1
  unfolding create_model
  create_model-IsSound payload s h =
      let kept = add_model-IsSound (new_model d (d.new_id s.made) payload) s.pending h.0 in
      (kept, kept)

  pub distribute_model_to_machine-IsSound :
      (id : String) (request : ModelDistributeRequest) (s : Session F W)
      → Holds IsSound s
      → Holds IsSound (distribute_model_to_machine d id request s).1
  unfolding distribute_model_to_machine distribution
  distribute_model_to_machine-IsSound id request s h =
      elim (Option-cases (get id s.pending.models)) [
        | inl e ↦ rw e h
        | inr (model, e) ↦ elim (Option-cases (get request.machine_id s.pending.machines)) [
          | inl f ↦ rw (e, f) h
          | inr (m, f) ↦ elim (Bool-cases request.dry_run) [
            | inl dry ↦ rw (e, f, dry) h
            | inr real ↦ elim (Result-cases (executor_for d m)) [
              | inl (executor, x) ↦ rw (e, f, real, x) h
              | inr (exc, x) ↦ rw (e, f, real, x) h
            ]
          ]
        ]
      ]

  has_or_none-put :
      (link : Option String) (x : Artifact F) (m : List (String × Artifact F))
      → has_or_none link m ≡ true
      → has_or_none link (put x.id x m) ≡ true
  has_or_none-put none x m h = refl
  has_or_none-put (some id) x m h = has-put_more id x.id x m h

  pub add_artifact-IsSound :
      (x : Artifact F) (t : Tables F) → IsSound t → IsSound (add_artifact x t)
  add_artifact-IsSound x t h = record {
    keyed = h.keyed;
    snapshots = h.snapshots;
    runs = h.runs;
    experiments = h.experiments;
    ended = h.ended;
    named = h.named;
    reports = h.reports;
    filed = All-weaken _ _ (λ e. has_or_none-put e.1.artifact_id x t.artifacts) t.reports h.filed;
  }

  pub create_artifact-IsSound :
      (payload : ArtifactCreate F) (s : Session F W)
      → Holds IsSound s
      → Holds IsSound (create_artifact d payload s).1
  unfolding create_artifact
  create_artifact-IsSound payload s h =
      let kept = add_artifact-IsSound (new_artifact d (d.new_id s.made) payload) s.pending h.0 in
      (kept, kept)

  pub upload_text_artifact-IsSound :
      (payload : ArtifactUploadText F) (s : Session F W)
      → Holds IsSound s
      → Holds IsSound (upload_text_artifact d payload s).1
  unfolding upload_text_artifact
  upload_text_artifact-IsSound payload s h =
      elim (Result-cases
        (upload_bytes d.s3 d.python.sha256_hex d.codecs (object_key d payload) payload.content
          payload.content_type s.world).0) [
            | inl (stored, e) ↦
                let kept =
                  add_artifact-IsSound (uploaded_artifact d (d.new_id s.made) payload stored)
                    s.pending h.0 in
                rw e (kept, kept)
            | inr (exc, e) ↦ rw e h
          ]
