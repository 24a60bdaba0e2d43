-- ===== src/Api.antt =====
-- backend/src/inflab/api/v1.py: the handlers of requests, as actions on a session of the database.
pub mod Machines
pub mod Discovery
pub mod Bootstrap
pub mod Plans
pub mod Trials
pub mod Experiments
pub mod Models
pub mod Artifacts
pub mod Reports
pub mod Persistence
pub mod Benchmarks
pub mod Soundness
use inference_lab.Prelude.{ℕ, String, Bool, List}
use inference_lab.Prelude.Float.{Floats}
use inference_lab.Prelude.Json.{Json}
use inference_lab.Security.{Codecs}
use inference_lab.Settings.{AppSettings}
use inference_lab.Discovery.{PythonText}
use inference_lab.Executor.Ssh.{SshLibrary}
use inference_lab.Result.{Result}
use inference_lab.ObjectStore.{S3Client}
use inference_lab.Benchmark.Plan.{BenchmarkPlanCreate}
use inference_lab.Benchmark.Remote.{OutputReader}
use inference_lab.Llm.{LlmLibrary}
use inference_lab.Agents.{Subprocess}

-- What the handlers have around them: the settings, libraries, and the database, of which they
-- need the ids of new rows and whether it enforces foreign keys.
pub record Deployment (F W : Type 0) : Type 0 where
  pub app : AppSettings
  pub codecs : Codecs
  pub floats : Floats F
  pub python : PythonText F
  -- `str(sorted(profile.items()))`
  pub show_items : List (String × Json F) → String
  pub ssh : SshLibrary W
  pub subprocess : Subprocess W
  pub llm : LlmLibrary F W
  pub s3 : S3Client W
  pub reader : OutputReader F
  -- `Queue.enqueue` with the path of a function, the id of the job and its payload
  pub submit : (path job_id : String) → BenchmarkPlanCreate F → W → Result String × W
  -- `new_id`, for the number of ids made before
  pub new_id : ℕ → String
  pub enforces_keys : Bool
