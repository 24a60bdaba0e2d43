-- ===== src/Api/Persistence.antt =====
-- backend/src/inflab/benchmark_artifacts.py: the outputs of a remote run, as artifacts.
use inference_lab.Prelude.{String, none, some, List, [], ◌∷◌, ◌++◌, put, if◌then◌else◌, String-eq}
use inference_lab.Prelude.Int.{pos}
use inference_lab.Prelude.Json.{Json, null, text, object}
use inference_lab.Prelude.Text.{◌<>◌, is_empty, join}
use inference_lab.Result.{Result, ok, err, message}
use inference_lab.Benchmark.Plan.{BenchmarkCommandPlan}
use inference_lab.Benchmark.Remote.{RemoteRun, not_started, ran}
use inference_lab.Jobs.{JobRecord}
use inference_lab.ObjectStore.{StoredObject, upload_bytes}
use inference_lab.Database.{Tables, Artifact}
use inference_lab.Database.Session.{Action, ◌>>=◌, ◌>>◌, return, change, fresh}
use inference_lab.Api.{Deployment}

-- The dict of a remote run: the lines, the texts that are uploaded, its status and its error.
abbrev pub logs_of : {F : Type 0} → RemoteRun F → List String
logs_of (not_started stderr) = []
logs_of (ran status exit_code logs stdout stderr raw_result parsed) = logs

abbrev pub status_of : {F : Type 0} → RemoteRun F → String
status_of (not_started stderr) = "failed"
status_of (ran status exit_code logs stdout stderr raw_result parsed) = status

-- `str(raw_result or stdout or "")`
raw_of : {F : Type 0} → RemoteRun F → String
raw_of (not_started stderr) = ""
raw_of (ran status exit_code logs stdout stderr raw_result parsed) =
    if is_empty raw_result then stdout else raw_result

-- `str(result.get("error") or result.get("stderr"))`: a run that did not start has no `stderr`.
abbrev pub error_of : {F : Type 0} → RemoteRun F → String
error_of (not_started stderr) = if is_empty stderr then "None" else stderr
error_of (ran status exit_code logs stdout stderr raw_result parsed) = stderr

abbrev pub add_artifact : {F : Type 0} → Artifact F → Tables F → Tables F
add_artifact x t = record t { artifacts = put x.id x t.artifacts }

-- An entry of `entries`, whose content type is always `text/plain`.
pub record ArtifactEntry : Type 0 where
  pub kind : String
  pub name : String
  pub content : String

unfoldable pub entries : {F : Type 0} → JobRecord F → RemoteRun F → List ArtifactEntry
unfolding raw_of
entries job run =
    record {
      kind = "log";
      name = "benchmark-" <> (job.id <> ".log");
      content = join "\n" (logs_of run);
    }
    ∷ record {
      kind = "metrics";
      name = "benchmark-" <> (job.id <> "-raw-result.txt");
      content = raw_of run;
    }
    ∷ []

artifact_row :
    {F : Type 0}
    → String
    → String
    → BenchmarkCommandPlan
    → ArtifactEntry
    → StoredObject
    → Artifact F
artifact_row id job_id plan entry stored = record {
  id = id;
  kind = entry.kind;
  name = entry.name;
  uri = stored.uri;
  sha256 = some stored.sha256;
  size_bytes = pos stored.size_bytes;
  metadata_json =
      ("job_id", text job_id)
      ∷ ("result_path", text plan.result_path)
      ∷ ("presigned_url", elim stored.presigned_url [ none ↦ null | some url ↦ text url ])
      ∷ [];
}

reference : {F : Type 0} → Artifact F → Json F
reference x = object (("artifact_id", text x.id) ∷ ("kind", text x.kind) ∷ ("uri", text x.uri) ∷ [])

module _ {F W : Type 0} (d : Deployment F W) where
  -- What follows an upload: a failed one leaves a line in the logs of the job.
  unfoldable pub uploaded :
      ArtifactEntry
      → JobRecord F
      → BenchmarkCommandPlan
      → Result StoredObject
      → Action F W (JobRecord F × List (Json F))
  unfolding artifact_row reference
  uploaded entry job plan (err exc) = return (
    record job {
      logs =
          job.logs ++ ("artifact upload failed for " <> (entry.name <> (": " <> message exc))) ∷ [];
    },
    [],
  )
  uploaded entry job plan (ok stored) = do
    id ← fresh d.new_id
    change (add_artifact (artifact_row id job.id plan entry stored))
    return (job, reference (artifact_row {F = F} id job.id plan entry stored) ∷ [])

  -- `upload_bytes`, its exception as a value, since it is caught.
  unfoldable pub attempt : (key content content_type : String) → Action F W (Result StoredObject)
  attempt key content content_type s =
      let (r, w) =
        upload_bytes d.s3 d.python.sha256_hex d.codecs key content content_type s.world in
      (ok r, record s { world = w })

  unfoldable pub persist_entries :
      List ArtifactEntry
      → JobRecord F
      → BenchmarkCommandPlan
      → Action F W (JobRecord F × List (Json F))
  unfolding uploaded attempt
  persist_entries [] job plan = return (job, [])
  persist_entries (entry ∷ rest) job plan =
      if is_empty entry.content then persist_entries rest job plan else (do
        outcome ←
            attempt ("benchmarks/" <> (job.id <> ("/" <> entry.name))) entry.content "text/plain"
        here ← uploaded entry job plan outcome
        more ← persist_entries rest here.0 plan
        return (more.0, here.1 ++ more.1))

  -- The job with what the uploads wrote into its logs, and the references.
  unfoldable pub persist_remote_benchmark_artifacts :
      JobRecord F → BenchmarkCommandPlan → RemoteRun F → Action F W (JobRecord F × List (Json F))
  unfolding persist_entries entries
  persist_remote_benchmark_artifacts job plan run = persist_entries (entries job run) job plan
