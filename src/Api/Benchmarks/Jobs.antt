-- ===== src/Api/Benchmarks/Jobs.antt =====
-- In which state the handlers of backend/src/inflab/api/v1.py leave the job of a benchmark.
use inference_lab.Prelude.{
  suc, String, ◌≡◌, refl, ap, ◌∙◌, ◌⊎◌, inl, inr, none, some, List, [], ◌∷◌, ◌++◌, get, put,
  get-put_same, Bool-cases, String-eq,
}
use inference_lab.Prelude.Text.{◌<>◌, is_empty}
use inference_lab.Prelude.Json.{Json}
use inference_lab.Result.{Result, Result-cases, ok, err, Exception}
use inference_lab.Benchmark.Plan.{
  BenchmarkPlanCreate, BenchmarkCommandPlan, build_benchmark_command_plan,
}
use inference_lab.Benchmark.Remote.{RemoteRun, run_remote_benchmark}
use inference_lab.ObjectStore.{StoredObject, upload_bytes}
use inference_lab.Jobs.{JobRecord}
use inference_lab.Database.{Machine, ModelRecord}
use inference_lab.Database.Session.{Session}
use inference_lab.Api.{Deployment}
use inference_lab.Api.Machines.{executor_for}
use inference_lab.Api.Persistence.{
  ArtifactEntry, error_of, persist_remote_benchmark_artifacts, persist_entries, entries, uploaded,
  attempt,
}
use inference_lab.Api.Benchmarks.{
  succeeded_run, with_artifacts, inline_job, run_inline, by_mode, remote_inline, BenchmarkJobCreate,
  benchmark_payload, create_benchmark_job,
}

module _ {F W : Type 0} (d : Deployment F W) where
  -- A job that is through: it succeeded without an error, or failed with one.
  abbrev pub HasEnded : JobRecord F → Type 0
  HasEnded job =
      (job.progress ≡ d.floats.literal 1 0)
      × (((job.status ≡ "succeeded") × (job.error ≡ none))
          ⊎ ((job.status ≡ "failed") × ((text : String) × (job.error ≡ some text))))

  -- What the uploads do to a job: they write to its logs at most, and they never raise.
  pub record IsKept (job : JobRecord F) (r : Result (JobRecord F × List (Json F)) × Session F W)
      : Type 0 where
    pub next : JobRecord F
    pub refs : List (Json F)
    pub after : Session F W
    pub returns : r ≡ (ok (next, refs), after)
    pub same_id : next.id ≡ job.id
    pub ends : HasEnded job → HasEnded next

  uploaded-IsKept :
      (entry : ArtifactEntry) (job : JobRecord F) (plan : BenchmarkCommandPlan)
      (outcome : Result StoredObject) (s : Session F W)
      → IsKept job (uploaded d entry job plan outcome s)
  unfolding uploaded
  uploaded-IsKept entry job plan (err exc) s = record {
    next = _;
    refs = _;
    after = _;
    returns = refl;
    same_id = refl;
    ends = λ h. h;
  }
  uploaded-IsKept entry job plan (ok stored) s = record {
    next = job;
    refs = _;
    after = _;
    returns = refl;
    same_id = refl;
    ends = λ h. h;
  }

  pub persist_entries-IsKept :
      (rest : List ArtifactEntry) (job : JobRecord F) (plan : BenchmarkCommandPlan)
      (s : Session F W)
      → IsKept job (persist_entries d rest job plan s)
  unfolding persist_entries attempt
  persist_entries-IsKept [] job plan s = record {
    next = job;
    refs = [];
    after = s;
    returns = refl;
    same_id = refl;
    ends = λ h. h;
  }
  persist_entries-IsKept (entry ∷ rest) job plan s = elim (Bool-cases (is_empty entry.content)) [
    | inl empty ↦ rw empty (persist_entries-IsKept rest job plan s)
    | inr full ↦
        (let key = "benchmarks/" <> (job.id <> ("/" <> entry.name)) in
          let sent = attempt d key entry.content "text/plain" s in
          let outcome =
            (upload_bytes d.s3 d.python.sha256_hex d.codecs key entry.content "text/plain"
              s.world) in
          let here = uploaded-IsKept entry job plan outcome.0 sent.1 in
          let more = persist_entries-IsKept rest here.next plan here.after in
          rw full (record {
            next = more.next;
            refs = here.refs ++ more.refs;
            after = more.after;
            returns = rw (here.returns, more.returns) refl;
            same_id = more.same_id ∙ here.same_id;
            ends = λ h. more.ends (here.ends h);
          }))
  ]

  -- The job that is committed in the end.
  abbrev pub Committed : String → Session F W → Type 0
  Committed job_id t = (last : JobRecord F) × (get job_id t.saved.jobs ≡ some last) × HasEnded last

  pub get-committed :
      (job_id : String) (last : JobRecord F) (rows : List (String × JobRecord F))
      → last.id ≡ job_id
      → get job_id (put last.id last rows) ≡ some last
  get-committed job_id last rows e =
      ap (λ k. get job_id (put k last rows)) e ∙ get-put_same job_id last rows

  inline_job-HasEnded :
      (id : String) (plan : BenchmarkCommandPlan) (run : RemoteRun F)
      → HasEnded (inline_job d id plan run)
  unfolding inline_job
  inline_job-HasEnded id plan run = elim (Bool-cases (succeeded_run d run)) [
    | inl good ↦ rw good (refl, inl (refl, refl))
    | inr bad ↦ rw bad (refl, inr (refl, (error_of run, refl)))
  ]

  -- A request raises and commits nothing, or returns a job that has ended and is committed.
  abbrev pub IsSettled : Session F W → Result (JobRecord F) × Session F W → Type 0
  IsSettled s r =
      ((exc : Exception) × (r.0 ≡ err exc) × (r.1.saved ≡ s.saved))
      ⊎ ((job : JobRecord F) × (r.0 ≡ ok job)
          × (get job.id r.1.saved.jobs ≡ some job)
          × HasEnded job)

  run_inline-IsSettled :
      (m : Machine F) (model : ModelRecord F) (payload : BenchmarkPlanCreate F) (s : Session F W)
      → IsSettled s (run_inline d m model payload s)
  unfolding run_inline persist_remote_benchmark_artifacts
  run_inline-IsSettled m model payload s =
      elim (Result-cases (build_benchmark_command_plan d.floats payload model.cache_path)) [
        | inr (exc, p) ↦ rw p (inl (exc, refl, refl))
        | inl (plan, p) ↦ elim (Result-cases (executor_for d m)) [
          | inr (exc, x) ↦ rw (p, x) (inl (exc, refl, refl))
          | inl (executor, x) ↦
              (let done = run_remote_benchmark d.floats d.reader executor plan 3600 s.world in
                elim (Result-cases done.0) [
                  | inr (exc, r) ↦ rw (p, x, r) (inl (exc, refl, refl))
                  | inl (run, r) ↦
                      (let job = inline_job d (d.new_id s.made) plan run in
                        let kept =
                          persist_entries-IsKept (entries job run) job plan
                            (record s { made = suc s.made; world = done.1 }) in
                        let last = with_artifacts d kept.next kept.refs in
                        rw (p, x, r, kept.returns)
                          (inr (
                            last,
                            refl,
                            get-put_same last.id last kept.after.pending.jobs,
                            kept.ends (inline_job-HasEnded (d.new_id s.made) plan run),
                          )))
                ])
        ]
      ]

  -- A benchmark that is run while its request waits, on a machine and a model that are there,
  -- either raises and commits nothing, or returns the job that it committed: it has progress 1
  -- and has succeeded without an error or failed with one, whatever the object store does.
  pub create_benchmark_job-IsSettled :
      (payload : BenchmarkJobCreate F) (m : Machine F) (model : ModelRecord F) (s : Session F W)
      → payload.execution_mode ≡ remote_inline
      → get payload.run_spec.machine_id s.pending.machines ≡ some m
      → get payload.run_spec.model_id s.pending.models ≡ some model
      → IsSettled s (create_benchmark_job d payload s)
  unfolding create_benchmark_job by_mode
  create_benchmark_job-IsSettled payload m model s inline there known =
      rw (there, known, inline) (run_inline-IsSettled m model (benchmark_payload payload) s)
