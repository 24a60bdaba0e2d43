-- ===== src/Api/Soundness/Jobs.antt =====
-- Benchmark jobs and the agent settings keep the tables sound.
use inference_lab.Prelude.{
  suc, String, some, List, [], ◌∷◌, inl, inr, get, Option-cases, Bool-cases,
}
use inference_lab.Prelude.Text.{◌<>◌, is_empty}
use inference_lab.Result.{Result-cases}
use inference_lab.Jobs.{JobRecord}
use inference_lab.Benchmark.Plan.{
  BenchmarkPlanCreate, BenchmarkCommandPlan, build_benchmark_command_plan,
}
use inference_lab.Benchmark.Remote.{run_remote_benchmark}
use inference_lab.ObjectStore.{upload_bytes}
use inference_lab.Settings.{AgentSettingsUpdate, updated_settings, update_agent_settings}
use inference_lab.Database.{Tables, Machine, ModelRecord, AgentRuntimeSettings}
use inference_lab.Database.Session.{Session, Holds, Holds-then_on}
use inference_lab.Api.{Deployment}
use inference_lab.Api.Machines.{executor_for}
use inference_lab.Api.Persistence.{
  ArtifactEntry, entries, uploaded, attempt, persist_entries, persist_remote_benchmark_artifacts,
}
use inference_lab.Api.Benchmarks.{
  ExecutionMode, fake, remote_rq, remote_inline, BenchmarkJobCreate, benchmark_payload, inline_job,
  run_inline, by_mode, create_benchmark_job,
}
use inference_lab.Api.Soundness.{IsSound}
use inference_lab.Api.Soundness.Models.{add_artifact-IsSound}

module _ {F : Type 0} where
  -- Neither the jobs nor the settings matter.
  with_jobs-IsSound :
      (jobs : List (String × JobRecord F)) (t : Tables F)
      → IsSound t
      → IsSound (record t { jobs = jobs })
  with_jobs-IsSound jobs t h = record {
    keyed = h.keyed;
    snapshots = h.snapshots;
    runs = h.runs;
    experiments = h.experiments;
    ended = h.ended;
    named = h.named;
    reports = h.reports;
    filed = h.filed;
  }

  with_settings-IsSound :
      (row : AgentRuntimeSettings) (t : Tables F)
      → IsSound t
      → IsSound (record t { agent_settings = some row })
  with_settings-IsSound row t h = record {
    keyed = h.keyed;
    snapshots = h.snapshots;
    runs = h.runs;
    experiments = h.experiments;
    ended = h.ended;
    named = h.named;
    reports = h.reports;
    filed = h.filed;
  }

module _ {F W : Type 0} (d : Deployment F W) where
  pub update_agent_settings-IsSound :
      (payload : AgentSettingsUpdate) (s : Session F W)
      → Holds IsSound s
      → Holds IsSound (update_agent_settings d.codecs d.app payload s).1
  unfolding update_agent_settings
  update_agent_settings-IsSound payload s h =
      elim (Result-cases (updated_settings d.codecs d.app payload s.pending.agent_settings)) [
        | inr (exc, e) ↦ rw e h
        | inl (row, e) ↦ let kept = with_settings-IsSound row s.pending h.0 in rw e (kept, kept)
      ]

  persist_entries-IsSound :
      (rest : List ArtifactEntry) (job : JobRecord F) (plan : BenchmarkCommandPlan)
      (s : Session F W)
      → Holds IsSound s
      → Holds IsSound (persist_entries d rest job plan s).1
  unfolding persist_entries attempt uploaded
  persist_entries-IsSound [] job plan s h = h
  persist_entries-IsSound (entry ∷ rest) job plan s h = elim (Bool-cases (is_empty entry.content)) [
    | inl empty ↦ rw empty (persist_entries-IsSound rest job plan s h)
    | inr full ↦
        let outcome =
          upload_bytes d.s3 d.python.sha256_hex d.codecs
            ("benchmarks/" <> (job.id <> ("/" <> entry.name))) entry.content "text/plain" s.world in
        elim (Result-cases outcome.0) [
          | inl (stored, u) ↦
              rw (full, u)
                (Holds-then_on IsSound _ (persist_entries d rest job plan _)
                  (persist_entries-IsSound rest job plan _
                    (add_artifact-IsSound d _ s.pending h.0, h.1))
                  (λ more t k. k))
          | inr (exc, u) ↦
              rw (full, u)
                (Holds-then_on IsSound _ (persist_entries d rest _ plan _)
                  (persist_entries-IsSound rest _ plan _ h) (λ more t k. k))
        ]
  ]

  run_inline-IsSound :
      (m : Machine F) (model : ModelRecord F) (payload : BenchmarkPlanCreate F) (s : Session F W)
      → Holds IsSound s
      → Holds IsSound (run_inline d m model payload s).1
  unfolding run_inline persist_remote_benchmark_artifacts
  run_inline-IsSound m model payload s h =
      elim (Result-cases (build_benchmark_command_plan d.floats payload model.cache_path)) [
        | inr (exc, p) ↦ rw p h
        | inl (plan, p) ↦ elim (Result-cases (executor_for d m)) [
          | inr (exc, x) ↦ rw (p, x) h
          | inl (executor, x) ↦
              (let done = run_remote_benchmark d.floats d.reader executor plan 3600 s.world in
                elim (Result-cases done.0) [
                  | inr (exc, r) ↦ rw (p, x, r) h
                  | inl (run, r) ↦
                      (let job = inline_job d (d.new_id s.made) plan run in
                        let next : Session F W = record s { made = suc s.made; world = done.1 } in
                        rw (p, x, r)
                          (Holds-then_on IsSound _
                            (persist_entries d (entries job run) job plan next)
                            (persist_entries-IsSound (entries job run) job plan next h)
                            (λ stored t k. (
                              with_jobs-IsSound _ t.pending k.0,
                              with_jobs-IsSound _ t.pending k.0,
                            ))))
                ])
        ]
      ]

  by_mode-IsSound :
      (mode : ExecutionMode) (m : Machine F) (model : ModelRecord F)
      (payload : BenchmarkJobCreate F) (s : Session F W)
      → Holds IsSound s
      → Holds IsSound (by_mode d mode m model payload s).1
  unfolding by_mode
  by_mode-IsSound fake m model payload s h =
      (with_jobs-IsSound _ s.pending h.0, with_jobs-IsSound _ s.pending h.0)
  by_mode-IsSound remote_rq m model payload s h =
      (with_jobs-IsSound _ s.pending h.0, with_jobs-IsSound _ s.pending h.0)
  by_mode-IsSound remote_inline m model payload s h =
      run_inline-IsSound m model (benchmark_payload payload) s h

  pub create_benchmark_job-IsSound :
      (payload : BenchmarkJobCreate F) (s : Session F W)
      → Holds IsSound s
      → Holds IsSound (create_benchmark_job d payload s).1
  unfolding create_benchmark_job
  create_benchmark_job-IsSound payload s h =
      elim (Option-cases (get payload.run_spec.machine_id s.pending.machines)) [
        | inl e ↦ rw e h
        | inr (m, e) ↦ elim (Option-cases (get payload.run_spec.model_id s.pending.models)) [
          | inl n ↦ rw (e, n) h
          | inr (model, n) ↦ rw (e, n) (by_mode-IsSound payload.execution_mode m model payload s h)
        ]
      ]
