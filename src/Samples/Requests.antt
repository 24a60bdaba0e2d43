-- ===== src/Samples/Requests.antt =====
-- Settings, machines, experiments and jobs in the lab.
use inference_lab.Prelude.{
  subst, arith, ℕ, true, false, ◌≡◌, refl, none, some, [], ◌∷◌, get, length,
}
use inference_lab.Prelude.Int.{pos}
use inference_lab.Prelude.Text.{show, strip, lstrip_by, rstrip_by}
use inference_lab.Result.{ok, err, Exception, value_error}
use inference_lab.Schemas.{standard, JobStatus, openai_compatible}
use inference_lab.Settings.{
  AgentSettingsUpdate, effective_llm_provider_settings, update_agent_settings,
}
use inference_lab.Settings.Keys.{set_llm, IsUpdatable, IsStorable, update_agent_settings-set_llm}
use inference_lab.Database.{AgentRuntimeSettings}
use inference_lab.Database.Session.{Session, closed_session}
use inference_lab.Jobs.{JobRecord}
use inference_lab.Tuning.Planning.{plan_candidates}
use inference_lab.Api.Machines.{machine_read, delete_machine}
use inference_lab.Api.Machines.Masked.{with_credential, machine_read_masked}
use inference_lab.Api.Plans.{ExperimentPlanRead, experiment_plan}
use inference_lab.Api.Plans.Candidates.{IsPlanned, experiment_plan-IsPlanned}
use inference_lab.Api.Experiments.{
  copy_experiment, get_experiment, clone_of, experiment_read, planned_experiment, new_experiment,
  ExperimentCreate,
}
use inference_lab.Api.Experiments.Copies.{
  copy_experiment_refused, experiment_read-planned_experiment,
}
use inference_lab.Api.Soundness.{IsSound}
use inference_lab.Api.Soundness.Requests.{Reach, here, next, copy, delete, Reach-IsSound}
use inference_lab.Worker.{run_remote_benchmark_job}
use inference_lab.Api.Benchmarks.{BenchmarkJobCreate, remote_inline, create_benchmark_job}
use inference_lab.Api.Benchmarks.Jobs.{Committed, IsSettled, create_benchmark_job-IsSettled}
use inference_lab.Worker.Ends.{run_remote_benchmark_job-HasEnded}
use inference_lab.Samples.Values.{millionths, low_draws}
use inference_lab.Samples.Machines.{wordy}
use inference_lab.Samples.Secrets.{plain_codecs, plain_codecs-CodecLaws, stored_pw}
use inference_lab.Samples.Deployments.{
  lab, lab_app, lab_session, lab_tables, lab_spec, box, qwen, trial_run,
}

abbrev enabling : AgentSettingsUpdate
enabling = record {
  llm = record {
    provider = openai_compatible;
    base_url = none;
    model = some "  ";
    api_key = some " pw ";
    clear_api_key = false;
  };
  pi = record {
    enabled = true;
    command = "pi";
    work_dir = "data";
    max_rounds = 3;
    timeout_minutes = 5;
  };
}

pw-IsStorable : IsStorable plain_codecs plain_codecs-CodecLaws lab_app (strip " pw ")
unfolding strip lstrip_by rstrip_by
pw-IsStorable = record {
  encodable = record { encode-AreBytes = (omega arith, (omega arith, tt)); decode-encode = refl };
  kept = stored_pw;
}

enabling-IsUpdatable : IsUpdatable plain_codecs plain_codecs-CodecLaws lab_app enabling.llm
enabling-IsUpdatable key kept given full =
    subst (λ k. IsStorable plain_codecs plain_codecs-CodecLaws lab_app (strip k)) (inner given)
      pw-IsStorable
  where
    inner : some " pw " ≡ some key → " pw " ≡ key
    inner e = cc

update_agent_settings-set_llm_example :
    (row : AgentRuntimeSettings) × ((update_agent_settings plain_codecs lab_app enabling
        lab_session).1.saved.agent_settings
      ≡ some row)
    × (effective_llm_provider_settings plain_codecs lab_app (some row)
        ≡ ok (set_llm enabling.llm lab_app.llm_provider lab_app.llm_provider))
update_agent_settings-set_llm_example =
    update_agent_settings-set_llm plain_codecs plain_codecs-CodecLaws lab_app enabling lab_session
      lab_app.llm_provider (unfold effective_llm_provider_settings in refl) enabling-IsUpdatable

machine_read_masked_example :
    machine_read (with_credential box (some "a")) ≡ machine_read (with_credential box (some "b"))
machine_read_masked_example = machine_read_masked box "a" "b" refl refl

lab_tables-IsSound : IsSound lab_tables
lab_tables-IsSound = record {
  keyed = (refl, tt);
  snapshots = tt;
  runs = tt;
  experiments = (refl, tt);
  ended = tt;
  named = (refl, tt);
  reports = tt;
  filed = tt;
}

abbrev copied : Session ℕ ℕ
copied = closed_session (copy_experiment lab low_draws "x1" lab_session).1

-- A copy, and a deletion that the database refuses.
abbrev two_requests :
    Reach lab low_draws lab_session (closed_session (delete_machine lab "m1" copied).1)
two_requests = next (next here (copy "x1")) (delete "m1")

Reach-IsSound_example : IsSound (closed_session (delete_machine lab "m1" copied).1).saved
Reach-IsSound_example =
    Reach-IsSound lab low_draws refl two_requests (refl, (lab_tables-IsSound, lab_tables-IsSound))

copy_experiment_refused_example :
    (get (lab.new_id 0) (copy_experiment lab low_draws "x1" lab_session).1.saved.experiments
      ≡ some (clone_of lab low_draws (lab.new_id 0) trial_run))
    × ((exc : Exception) × ((copy_experiment lab low_draws "x1" lab_session).0 ≡ err exc))
    × ((exc : Exception) × ((get_experiment lab low_draws
            (lab.new_id 0)
            (copy_experiment lab low_draws "x1" lab_session).1).0
          ≡ err exc))
    × ((exc : Exception) × ((get_experiment lab low_draws (lab.new_id 0) copied).0 ≡ err exc))
unfolding closed_session copy_experiment show
copy_experiment_refused_example =
    copy_experiment_refused lab low_draws "x1" trial_run lab_session copied refl refl

abbrev lab_create : ExperimentCreate ℕ
lab_create = record {
  name = "first";
  run_spec = lab_spec;
  mode = standard;
  goal = "max_throughput";
  budget = [];
}

abbrev empty_plan : ExperimentPlanRead ℕ
empty_plan = record { mode = standard; phases = []; candidates = []; trial_count = 0; notes = [] }

experiment_read-planned_experiment_example :
    experiment_read (
      planned_experiment "j1" standard empty_plan
        (new_experiment "x2" box qwen lab_create "vllm serve"))
    ≡ ok (record {
      row =
          planned_experiment "j1" standard empty_plan
            (new_experiment "x2" box qwen lab_create "vllm serve");
      mode = lab_create.mode;
      runtime_mode = lab_create.run_spec.runtime_mode;
      status = JobStatus.succeeded;
    })
experiment_read-planned_experiment_example =
    experiment_read-planned_experiment lab low_draws "x2" "j1" "vllm serve" box qwen lab_create
      empty_plan

experiment_plan-IsPlanned_example :
    (plan : ExperimentPlanRead ℕ) × (experiment_plan millionths wordy lab.llm low_draws lab_spec
        (pos 2)
        1
        standard
        lab_app.llm_provider
        0
      ≡ (ok plan, 0))
    × (plan.trial_count ≡ length (plan_candidates millionths low_draws 1 (pos 2) [] "standard").1)
    × IsPlanned millionths lab_spec 1
        (plan_candidates millionths low_draws 1 (pos 2) [] "standard").1
        plan.candidates
experiment_plan-IsPlanned_example =
    experiment_plan-IsPlanned millionths wordy lab.llm low_draws lab_spec (pos 2) 1
      lab_app.llm_provider 0 (record { framework = refl; mode = refl })

abbrev queued_job : JobRecord ℕ
queued_job = record {
  id = "j1";
  job_type = "benchmark";
  status = "queued";
  progress = 100000;
  logs = "job queued" ∷ [];
  result = [];
  error = none;
}

abbrev queued_session : Session ℕ ℕ
queued_session = record lab_session {
  pending = record lab_tables { jobs = ("j1", queued_job) ∷ [] };
  saved = record lab_tables { jobs = ("j1", queued_job) ∷ [] };
}

run_remote_benchmark_job-HasEnded_example :
    Committed lab "j1"
      (run_remote_benchmark_job lab "j1" (err (value_error "field required")) queued_session).1
run_remote_benchmark_job-HasEnded_example =
    run_remote_benchmark_job-HasEnded lab "j1" (err (value_error "field required")) queued_job
      queued_session refl refl

abbrev waiting : BenchmarkJobCreate ℕ
waiting = record { run_spec = lab_spec; execution_mode = remote_inline; benchmark = none }

create_benchmark_job-IsSettled_example :
    IsSettled lab lab_session (create_benchmark_job lab waiting lab_session)
create_benchmark_job-IsSettled_example =
    create_benchmark_job-IsSettled lab waiting box qwen lab_session refl refl refl
