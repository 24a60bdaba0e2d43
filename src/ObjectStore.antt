-- ===== src/ObjectStore.antt =====
-- The upload of a text by `S3ObjectStore` of backend/src/inflab/object_store.py. The client is a
-- parameter.
use inference_lab.Prelude.{ℕ, String, Option, List, length}
use inference_lab.Prelude.Text.{◌<>◌}
use inference_lab.Result.{Result, ok, err}
use inference_lab.Security.{Codecs}

-- The bucket, `put_object` for a key, a body and its type, and the URL that `presign_get` makes.
pub record S3Client (W : Type 0) : Type 0 where
  pub bucket_name : String
  pub put_object : (key : String) → List ℕ → (content_type : String) → W → Result (Unit {0}) × W
  pub presign_get : (key : String) → W → Result String × W

pub record StoredObject : Type 0 where
  pub bucket : String
  pub key : String
  pub uri : String
  pub size_bytes : ℕ
  pub sha256 : String
  pub presigned_url : Option String

module _ {W : Type 0} (client : S3Client W) (sha256_hex : String → String) (c : Codecs) where
  stored : String → String → String → StoredObject
  stored key content url = record {
    bucket = client.bucket_name;
    key = key;
    uri = "s3://" <> (client.bucket_name <> ("/" <> key));
    size_bytes = length (c.encode content);
    sha256 = sha256_hex content;
    presigned_url = Option.some url;
  }

  presigned : String → String → Result (Unit {0}) × W → Result StoredObject × W
  unfolding stored
  presigned key content (err exc, w) = (err exc, w)
  presigned key content (ok done, w) =
      let (url, after) = client.presign_get key w in
      (elim url [ err exc ↦ err exc | ok u ↦ ok (stored key content u) ], after)

  -- `upload_bytes(key, content.encode(), content_type=...)`
  unfoldable pub upload_bytes : (key content content_type : String) → W → Result StoredObject × W
  unfolding presigned
  upload_bytes key content content_type w =
      presigned key content (client.put_object key (c.encode content) content_type w)
