-- ===== src/Api/Soundness/Requests.antt =====
-- Sequences of requests to backend/src/inflab/api/v1.py, each in a session of its own.
use inference_lab.Prelude.{String, Bool, true, ◌≡◌, refl}
use inference_lab.Machines.{MachineCreate}
use inference_lab.Tuning.Planning.{Rng}
use inference_lab.Database.Session.{Session, Holds, closed_session}
use inference_lab.Api.{Deployment}
use inference_lab.Api.Machines.{
  MachineUpdate, create_machine, update_machine, delete_machine, probe_machine,
}
use inference_lab.Api.Discovery.{create_discovery_session}
use inference_lab.Api.Bootstrap.{BootstrapRequest, bootstrap_machine, rerun_bootstrap_module}
use inference_lab.Api.Experiments.{
  ExperimentCreate, create_experiment, cancel_experiment, copy_experiment,
}
use inference_lab.Api.Models.{
  ModelCreate, ModelDistributeRequest, create_model, distribute_model_to_machine,
}
use inference_lab.Api.Artifacts.{
  ArtifactCreate, ArtifactUploadText, create_artifact, upload_text_artifact,
}
use inference_lab.Api.Reports.{generate_report}
use inference_lab.Api.Soundness.Reports.{generate_report-IsSound}
use inference_lab.Settings.{AgentSettingsUpdate, update_agent_settings}
use inference_lab.Api.Benchmarks.{BenchmarkJobCreate, create_benchmark_job}
use inference_lab.Api.Soundness.Jobs.{update_agent_settings-IsSound, create_benchmark_job-IsSound}
use inference_lab.Api.Soundness.{IsSound}
use inference_lab.Api.Soundness.Handlers.{
  create_machine-IsSound, update_machine-IsSound, delete_machine-IsSound, probe_machine-IsSound,
}
use inference_lab.Api.Soundness.Runs.{
  create_discovery_session-IsSound, bootstrap_machine-IsSound, rerun_bootstrap_module-IsSound,
}
use inference_lab.Api.Soundness.Models.{
  create_model-IsSound, distribute_model_to_machine-IsSound, create_artifact-IsSound,
  upload_text_artifact-IsSound,
}
use inference_lab.Api.Soundness.Trials.{
  create_experiment-IsSound, cancel_experiment-IsSound, copy_experiment-IsSound,
}

module _ {F W : Type 0} (d : Deployment F W) (rng : Rng F) where
  -- A request, from the session that it starts in to the one it leaves when it is closed, whether
  -- it returned or raised. These are the requests that can change the database, except those that
  -- create an image (`create_image`) or seed demo data (`seed_demo_database`).
  pub data Request (s : Session F W) : Session F W → Type 0 where
    create : (p : MachineCreate) → Request s (closed_session (create_machine d p s).1)
    update :
        (id : String) (p : MachineUpdate) → Request s (closed_session (update_machine d id p s).1)
    delete : (id : String) → Request s (closed_session (delete_machine d id s).1)
    probe : (id : String) (dry : Bool) → Request s (closed_session (probe_machine d id dry s).1)
    discover :
        (id : String) (dry : Bool)
        → Request s (closed_session (create_discovery_session d id dry s).1)
    bootstrap :
        (id : String) (p : BootstrapRequest)
        → Request s (closed_session (bootstrap_machine d id p s).1)
    rerun :
        (run module_id : String)
        → Request s (closed_session (rerun_bootstrap_module d run module_id s).1)
    experiment :
        (p : ExperimentCreate F) → Request s (closed_session (create_experiment d rng p s).1)
    cancel : (id : String) → Request s (closed_session (cancel_experiment d rng id s).1)
    copy : (id : String) → Request s (closed_session (copy_experiment d rng id s).1)
    model : (p : ModelCreate F) → Request s (closed_session (create_model d p s).1)
    distribute :
        (id : String) (p : ModelDistributeRequest)
        → Request s (closed_session (distribute_model_to_machine d id p s).1)
    artifact : (p : ArtifactCreate F) → Request s (closed_session (create_artifact d p s).1)
    upload : (p : ArtifactUploadText F) → Request s (closed_session (upload_text_artifact d p s).1)
    report : (id template : String) → Request s (closed_session (generate_report d id template s).1)
    settings :
        (p : AgentSettingsUpdate)
        → Request s (closed_session (update_agent_settings d.codecs d.app p s).1)
    benchmark :
        (p : BenchmarkJobCreate F) → Request s (closed_session (create_benchmark_job d p s).1)

  pub data Reach (s : Session F W) : Session F W → Type 0 where
    here : Reach s s
    next : {t u : Session F W} → Reach s t → Request t u → Reach s u

  abbrev pub IsStart : Session F W → Type 0
  IsStart s = (s.pending ≡ s.saved) × Holds IsSound s

  closed_session-IsStart : (s : Session F W) → Holds IsSound s → IsStart (closed_session s)
  unfolding closed_session
  closed_session-IsStart s h = (refl, (h.1, h.1))

  Request-IsStart :
      {s t : Session F W} → d.enforces_keys ≡ true → Request s t → IsStart s → IsStart t
  Request-IsStart {s} enforced (create p) h =
      closed_session-IsStart _ (create_machine-IsSound d p s h.1)
  Request-IsStart {s} enforced (update id p) h =
      closed_session-IsStart _ (update_machine-IsSound d id p s h)
  Request-IsStart {s} enforced (delete id) h =
      closed_session-IsStart _ (delete_machine-IsSound d id s enforced h)
  Request-IsStart {s} enforced (probe id dry) h =
      closed_session-IsStart _ (probe_machine-IsSound d id dry s h)
  Request-IsStart {s} enforced (discover id dry) h =
      closed_session-IsStart _ (create_discovery_session-IsSound d id dry s h)
  Request-IsStart {s} enforced (bootstrap id p) h =
      closed_session-IsStart _ (bootstrap_machine-IsSound d id p s h)
  Request-IsStart {s} enforced (rerun run module_id) h =
      closed_session-IsStart _ (rerun_bootstrap_module-IsSound d run module_id s h.1)
  Request-IsStart {s} enforced (experiment p) h =
      closed_session-IsStart _ (create_experiment-IsSound d rng p s h)
  Request-IsStart {s} enforced (cancel id) h =
      closed_session-IsStart _ (cancel_experiment-IsSound d rng id s h.1)
  Request-IsStart {s} enforced (copy id) h =
      closed_session-IsStart _ (copy_experiment-IsSound d rng id s h.1)
  Request-IsStart {s} enforced (model p) h =
      closed_session-IsStart _ (create_model-IsSound d p s h.1)
  Request-IsStart {s} enforced (distribute id p) h =
      closed_session-IsStart _ (distribute_model_to_machine-IsSound d id p s h.1)
  Request-IsStart {s} enforced (artifact p) h =
      closed_session-IsStart _ (create_artifact-IsSound d p s h.1)
  Request-IsStart {s} enforced (upload p) h =
      closed_session-IsStart _ (upload_text_artifact-IsSound d p s h.1)
  Request-IsStart {s} enforced (report id template) h =
      closed_session-IsStart _ (generate_report-IsSound d id template s h.1)
  Request-IsStart {s} enforced (settings p) h =
      closed_session-IsStart _ (update_agent_settings-IsSound d p s h.1)
  Request-IsStart {s} enforced (benchmark p) h =
      closed_session-IsStart _ (create_benchmark_job-IsSound d p s h.1)

  Reach-IsStart : {s t : Session F W} → d.enforces_keys ≡ true → Reach s t → IsStart s → IsStart t
  Reach-IsStart enforced here h = h
  Reach-IsStart enforced (next r q) h = Request-IsStart enforced q (Reach-IsStart enforced r h)

  -- On a database that enforces foreign keys, and for the requests that change machines, runs,
  -- models, artifacts, experiments, reports, benchmark jobs or the agent settings, in whatever
  -- number and order and whether they return or raise, but not for the seeding of demo data and
  -- the creation of images: the committed tables stay sound if they were at the start. Each
  -- machine and experiment is under its own id; each snapshot, run and experiment refers to a
  -- machine that is there; each run has succeeded or failed; and each report refers to an
  -- experiment that is there and to no artifact but one that is there.
  pub Reach-IsSound :
      {s t : Session F W} → d.enforces_keys ≡ true → Reach s t → IsStart s → IsSound t.saved
  Reach-IsSound enforced r h = (Reach-IsStart enforced r h).1.1
