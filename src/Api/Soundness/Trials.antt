-- ===== src/Api/Soundness/Trials.antt =====
-- The handlers of experiments keep the tables sound.
use inference_lab.Prelude.{
  suc, String, ◌≡◌, refl, true, some, List, [], ◌∷◌, ◌++◌, get, has, All-get, inl, inr,
  Option-cases,
}
use inference_lab.Prelude.Json.{Json}
use inference_lab.Result.{Result-cases}
use inference_lab.Schemas.{ExperimentMode}
use inference_lab.Plugins.{RunSpec, build_launch_command}
use inference_lab.Jobs.{JobRecord}
use inference_lab.Settings.{effective_llm_provider_settings}
use inference_lab.Tuning.Planning.{Rng}
use inference_lab.Database.{Tables, Machine, ModelRecord, Experiment}
use inference_lab.Database.Session.{Session, Holds, Holds-then_on, return}
use inference_lab.Api.{Deployment}
use inference_lab.Api.Plans.{
  ExperimentCandidateRead, ExperimentPlanRead, machine_gpu_count, max_trials_of,
}
use inference_lab.Api.Trials.{TrialRows, trial_rows}
use inference_lab.Api.Experiments.{
  ExperimentCreate, add_experiment, add_trial, add_job, new_experiment, planned_experiment,
  run_trials, plan_for, run_planned, launch_experiment, create_experiment, experiment_job,
  first_logs, finish_experiment, cancel_experiment, canceled, clone_of, copy_experiment,
}
use inference_lab.Api.Soundness.{IsSound, IsSoundWith, add_experiment-IsSoundWith}
use inference_lab.Api.Soundness.Handlers.{IsReady, found_With}

module _ {F : Type 0} where
  add_trial-IsSoundWith :
      (id : String) (rows : TrialRows F) (t : Tables F)
      → IsSoundWith id t
      → IsSoundWith id (add_trial rows t)
  add_trial-IsSoundWith id rows t (h, there) = (
    record {
      keyed = h.keyed;
      snapshots = h.snapshots;
      runs = h.runs;
      experiments = h.experiments;
      ended = h.ended;
      named = h.named;
      reports = h.reports;
      filed = h.filed;
    },
    there,
  )

  add_job-IsSoundWith :
      (id : String) (job : JobRecord F) (t : Tables F)
      → IsSoundWith id t
      → IsSoundWith id (add_job job t)
  add_job-IsSoundWith id job t (h, there) = (
    record {
      keyed = h.keyed;
      snapshots = h.snapshots;
      runs = h.runs;
      experiments = h.experiments;
      ended = h.ended;
      named = h.named;
      reports = h.reports;
      filed = h.filed;
    },
    there,
  )

module _ {F W : Type 0} (d : Deployment F W) (rng : Rng F) where
  run_trials-IsSoundWith :
      (id experiment_id : String) (spec : RunSpec F) (candidates : List (ExperimentCandidateRead F))
      (s : Session F W)
      → Holds (IsSoundWith id) s
      → Holds (IsSoundWith id) (run_trials d rng experiment_id spec candidates s).1
  unfolding run_trials
  run_trials-IsSoundWith id experiment_id spec [] s h = h
  run_trials-IsSoundWith id experiment_id spec (c ∷ candidates) s h =
      let made =
        trial_rows d.floats (d.new_id s.made) (d.new_id (suc s.made)) (d.new_id (suc (suc s.made)))
          experiment_id spec c in
      elim (Result-cases made) [
        | inr (exc, e) ↦ rw e h
        | inl (rows, e) ↦
            (let next : Session F W = record s {
              pending = add_trial rows s.pending;
              made = suc (suc (suc s.made));
            } in
              rw e (
                Holds-then_on (IsSoundWith id) (λ more. return (rows.logs ++ more))
                  (run_trials d rng experiment_id spec candidates next)
                  (run_trials-IsSoundWith id experiment_id spec candidates next
                    (add_trial-IsSoundWith id rows s.pending h.0, h.1))
                  (λ more t k. k)))
      ]

  plan_for-IsSoundWith :
      (id : String) (m : Machine F) (spec : RunSpec F) (mode : ExperimentMode)
      (budget : List (String × Json F)) (s : Session F W)
      → Holds (IsSoundWith id) s
      → Holds (IsSoundWith id) (plan_for d rng m spec mode budget s).1
  unfolding plan_for
  plan_for-IsSoundWith id m spec mode budget s h =
      elim (Result-cases (max_trials_of d.floats d.python budget)) [
        | inr (exc, e) ↦ rw e h
        | inl (n, e) ↦ elim (Result-cases (machine_gpu_count d.floats d.python m.machine_profile)) [
          | inr (exc, g) ↦ rw (e, g) h
          | inl (count, g) ↦
              elim (Result-cases
                (effective_llm_provider_settings d.codecs d.app s.pending.agent_settings)) [
                  | inr (exc, x) ↦ rw (e, g, x) h
                  | inl (llm, x) ↦ rw (e, g, x) h
                ]
        ]
      ]

  finish_experiment-IsSoundWith :
      (id : String) (x : Experiment F) (mode : ExperimentMode) (plan : ExperimentPlanRead F)
      (logs : List String) (t : Session F W)
      → x.machine_id ≡ id
      → Holds (IsSoundWith id) t
      → Holds (IsSoundWith id) (finish_experiment d rng x mode plan logs t).1
  unfolding finish_experiment planned_experiment
  finish_experiment-IsSoundWith id x mode plan logs t e h =
      let job =
        experiment_job d rng (d.new_id t.made) x.id plan
          (first_logs d rng x.id mode plan ++ logs) in
      let last =
        add_experiment-IsSoundWith id (planned_experiment (d.new_id t.made) mode plan x)
          (add_job job t.pending) e (add_job-IsSoundWith id job t.pending h.0) in
      (last, last)

  run_planned-IsSoundWith :
      (id : String) (x : Experiment F) (spec : RunSpec F) (mode : ExperimentMode)
      (plan : ExperimentPlanRead F) (s : Session F W)
      → x.machine_id ≡ id
      → Holds (IsSoundWith id) s
      → Holds (IsSoundWith id) (run_planned d rng x spec mode plan s).1
  unfolding run_planned
  run_planned-IsSoundWith id x spec mode plan s e h =
      Holds-then_on (IsSoundWith id) (λ logs. finish_experiment d rng x mode plan logs)
        (run_trials d rng x.id spec plan.candidates s)
        (run_trials-IsSoundWith id x.id spec plan.candidates s h)
        (λ logs t k. finish_experiment-IsSoundWith id x mode plan logs t e k)

  launch_experiment-IsSoundWith :
      (id : String) (m : Machine F) (model : ModelRecord F) (payload : ExperimentCreate F)
      (s : Session F W)
      → m.id ≡ id
      → Holds (IsSoundWith id) s
      → Holds (IsSoundWith id) (launch_experiment d rng m model payload s).1
  unfolding launch_experiment new_experiment
  launch_experiment-IsSoundWith id m model payload s e h =
      elim (Result-cases (build_launch_command d.floats payload.run_spec)) [
        | inr (exc, l) ↦ rw l h
        | inl (line, l) ↦
            (let x = new_experiment (d.new_id s.made) m model payload line in
              let next : Session F W = record s {
                pending = add_experiment x s.pending;
                made = suc s.made;
              } in
              rw l (
                Holds-then_on (IsSoundWith id)
                  (λ plan. run_planned d rng x payload.run_spec payload.mode plan)
                  (plan_for d rng m payload.run_spec payload.mode payload.budget next)
                  (plan_for-IsSoundWith id m payload.run_spec payload.mode payload.budget next
                    (add_experiment-IsSoundWith id x s.pending e h.0, h.1))
                  (λ plan t k.
                    run_planned-IsSoundWith id x payload.run_spec payload.mode plan t e k)))
      ]

  pub create_experiment-IsSound :
      (payload : ExperimentCreate F) (s : Session F W)
      → IsReady d s
      → Holds IsSound (create_experiment d rng payload s).1
  unfolding create_experiment
  create_experiment-IsSound payload s h =
      elim (Option-cases (get payload.run_spec.machine_id s.pending.machines)) [
        | inl e ↦ rw e h.1
        | inr (m, e) ↦ elim (Option-cases (get payload.run_spec.model_id s.pending.models)) [
          | inl n ↦ rw (e, n) h.1
          | inr (model, n) ↦
              (let (same, k) = found_With d payload.run_spec.machine_id m s h e in
                let last =
                  launch_experiment-IsSoundWith payload.run_spec.machine_id m model payload s same
                    k in
                rw (e, n) (last.0.0, last.1.0))
        ]
      ]

  -- An experiment that is there refers to a machine that is there, and so may one in its place.
  replaced-IsSound :
      (experiment_id : String) (x y : Experiment F) (t : Tables F)
      → IsSound t
      → get experiment_id t.experiments ≡ some x
      → y.machine_id ≡ x.machine_id
      → IsSound (add_experiment y t)
  replaced-IsSound experiment_id x y t h e same =
      (add_experiment-IsSoundWith x.machine_id y t same (
        h,
        All-get (λ e. has e.1.machine_id t.machines ≡ true) experiment_id t.experiments e
            h.experiments,
      )).0

  pub cancel_experiment-IsSound :
      (experiment_id : String) (s : Session F W)
      → Holds IsSound s
      → Holds IsSound (cancel_experiment d rng experiment_id s).1
  unfolding cancel_experiment canceled
  cancel_experiment-IsSound experiment_id s h =
      elim (Option-cases (get experiment_id s.pending.experiments)) [
        | inl e ↦ rw e h
        | inr (x, e) ↦
            (let last = replaced-IsSound experiment_id x (canceled d rng x) s.pending h.0 e refl in
              rw e (last, last))
      ]

  pub copy_experiment-IsSound :
      (experiment_id : String) (s : Session F W)
      → Holds IsSound s
      → Holds IsSound (copy_experiment d rng experiment_id s).1
  unfolding copy_experiment clone_of
  copy_experiment-IsSound experiment_id s h =
      elim (Option-cases (get experiment_id s.pending.experiments)) [
        | inl e ↦ rw e h
        | inr (x, e) ↦
            (let last =
                replaced-IsSound experiment_id x (clone_of d rng (d.new_id s.made) x) s.pending h.0
                  e refl in
              rw e (last, last))
      ]
