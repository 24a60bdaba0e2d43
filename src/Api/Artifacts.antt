-- ===== src/Api/Artifacts.antt =====
-- backend/src/inflab/api/v1.py: the handlers of `/artifacts`.
use inference_lab.Prelude.{String, Option, none, some, List, put}
use inference_lab.Prelude.Int.{ℤ, pos}
use inference_lab.Prelude.Json.{Json, null, text}
use inference_lab.Prelude.Text.{◌<>◌, first_chars}
use inference_lab.ObjectStore.{StoredObject, upload_bytes}
use inference_lab.Database.{Artifact}
use inference_lab.Database.Session.{
  Action, ◌>>=◌, ◌>>◌, return, change, commit, fresh, outside_or_raise,
}
use inference_lab.Api.{Deployment}
use inference_lab.Api.Persistence.{add_artifact}

pub record ArtifactCreate (F : Type 0) : Type 0 where
  pub kind : String
  pub name : String
  pub uri : String
  pub sha256 : Option String
  pub size_bytes : ℤ
  pub metadata : List (String × Json F)

pub record ArtifactUploadText (F : Type 0) : Type 0 where
  pub kind : String
  pub name : String
  pub content : String
  pub content_type : String
  pub metadata : List (String × Json F)

module _ {F W : Type 0} (d : Deployment F W) where
  abbrev pub new_artifact : String → ArtifactCreate F → Artifact F
  new_artifact id payload = record {
    id = id;
    kind = payload.kind;
    name = payload.name;
    uri = payload.uri;
    sha256 = payload.sha256;
    size_bytes = payload.size_bytes;
    metadata_json = payload.metadata;
  }

  unfoldable pub create_artifact : ArtifactCreate F → Action F W (Artifact F)
  create_artifact payload = do
    id ← fresh d.new_id
    change (add_artifact (new_artifact id payload))
    commit
    return (new_artifact id payload)

  -- The key that the object store gets.
  unfoldable pub object_key : ArtifactUploadText F → String
  object_key payload =
      payload.kind
      <> ("/" <> (first_chars 12 (d.python.sha256_hex payload.name) <> ("-" <> payload.name)))

  abbrev pub uploaded_artifact : String → ArtifactUploadText F → StoredObject → Artifact F
  uploaded_artifact id payload stored = record {
    id = id;
    kind = payload.kind;
    name = payload.name;
    uri = stored.uri;
    sha256 = some stored.sha256;
    size_bytes = pos stored.size_bytes;
    metadata_json =
        put "presigned_url" (elim stored.presigned_url [ none ↦ null | some url ↦ text url ])
          payload.metadata;
  }

  unfoldable pub upload_text_artifact : ArtifactUploadText F → Action F W (Artifact F)
  unfolding object_key
  upload_text_artifact payload = do
    stored ← outside_or_raise (
        upload_bytes d.s3 d.python.sha256_hex d.codecs (object_key payload) payload.content
          payload.content_type)
    id ← fresh d.new_id
    change (add_artifact (uploaded_artifact id payload stored))
    commit
    return (uploaded_artifact id payload stored)
