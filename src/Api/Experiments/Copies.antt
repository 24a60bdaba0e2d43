-- ===== src/Api/Experiments/Copies.antt =====
-- What the handlers of backend/src/inflab/api/v1.py answer with the row of an experiment.
use inference_lab.Prelude.{String, ◌≡◌, refl, some, get, get-put_same, inl, inr}
use inference_lab.Prelude.Json.{text}
use inference_lab.Result.{Result-cases, ok, err, Exception}
use inference_lab.Schemas.{
  RuntimeMode, container, bare_metal, both, runtime_mode_value, ExperimentMode, standard,
  intelligent, JobStatus,
}
use inference_lab.Tuning.Planning.{Rng}
use inference_lab.Database.{Experiment, Machine, ModelRecord}
use inference_lab.Database.Session.{Session}
use inference_lab.Api.{Deployment}
use inference_lab.Api.Machines.{runtime_mode_of}
use inference_lab.Api.Plans.{ExperimentPlanRead, mode_value}
use inference_lab.Api.Experiments.{
  ExperimentCreate, experiment_read, experiment_mode_of, job_status_of, clone_of, copy_experiment,
  get_experiment, new_experiment, planned_experiment, reproducibility_of,
}

runtime_mode_of-value : (mode : RuntimeMode) → runtime_mode_of (runtime_mode_value mode) ≡ ok mode
unfolding runtime_mode_of
runtime_mode_of-value container = refl
runtime_mode_of-value bare_metal = refl
runtime_mode_of-value both = refl

module _ {F : Type 0} where
  -- No answer can be made of a row whose status is none of the enumeration.
  experiment_read_refused :
      (x : Experiment F) (e : Exception)
      → job_status_of x.status ≡ err e
      → (exc : Exception) × (experiment_read x ≡ err exc)
  unfolding experiment_read
  experiment_read_refused x e bad =
      elim (Result-cases (experiment_mode_of (get "mode" x.reproducibility))) [
        | inr (exc, m) ↦ (exc, rw m refl)
        | inl (mode, m) ↦ elim (Result-cases (runtime_mode_of x.runtime_mode)) [
          | inr (exc, r) ↦ (exc, rw (m, r) refl)
          | inl (runtime, r) ↦ (e, rw (m, r, bad) refl)
        ]
      ]

mode_of-value :
    (F : Type 0) (mode : ExperimentMode)
    → experiment_mode_of {F = F} (some (text (mode_value mode))) ≡ ok mode
unfolding experiment_mode_of
mode_of-value F standard = refl
mode_of-value F intelligent = refl

module _ {F W : Type 0} (d : Deployment F W) (rng : Rng F) where
  -- The copy of an experiment is committed, but the request that makes it always fails, since its
  -- status `created` is no `JobStatus`; and so does a request to read the copy, right after it or
  -- in any later session that sees the row of the copy as it was committed.
  pub copy_experiment_refused :
      (id : String) (x : Experiment F) (s later : Session F W)
      → get id s.pending.experiments ≡ some x
      → get (d.new_id s.made) later.pending.experiments ≡ some (clone_of d rng (d.new_id s.made) x)
      → (get (d.new_id s.made) (copy_experiment d rng id s).1.saved.experiments
          ≡ some (clone_of d rng (d.new_id s.made) x))
        × ((exc : Exception) × ((copy_experiment d rng id s).0 ≡ err exc))
        × ((exc : Exception) × ((get_experiment d rng
                (d.new_id s.made)
                (copy_experiment d rng id s).1).0
              ≡ err exc))
        × ((exc : Exception) × ((get_experiment d rng (d.new_id s.made) later).0 ≡ err exc))
  unfolding copy_experiment get_experiment clone_of job_status_of
  copy_experiment_refused id x s later there stored =
      let copy = clone_of d rng (d.new_id s.made) x in
      let (exc, refused) = experiment_read_refused copy _ refl in
      let kept = get-put_same (d.new_id s.made) copy s.pending.experiments in
      (
        rw there kept,
        (exc, rw there refused),
        (exc, rw (there, kept) refused),
        (exc, rw stored refused),
      )

  -- The row that a new experiment ends with can be answered: the answer has the mode and the
  -- runtime of the request, and the status `succeeded`.
  pub experiment_read-planned_experiment :
      (id job_id line : String) (m : Machine F) (model : ModelRecord F)
      (payload : ExperimentCreate F) (plan : ExperimentPlanRead F)
      → experiment_read
          (planned_experiment job_id payload.mode plan (new_experiment id m model payload line))
        ≡ ok (record {
          row =
              planned_experiment job_id payload.mode plan (new_experiment id m model payload line);
          mode = payload.mode;
          runtime_mode = payload.run_spec.runtime_mode;
          status = JobStatus.succeeded;
        })
  unfolding experiment_read planned_experiment new_experiment reproducibility_of job_status_of
  experiment_read-planned_experiment id job_id line m model payload plan =
      rw (mode_of-value F payload.mode, runtime_mode_of-value payload.run_spec.runtime_mode) refl
