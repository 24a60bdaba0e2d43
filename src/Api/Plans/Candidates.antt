-- ===== src/Api/Plans/Candidates.antt =====
-- The plan of an experiment against the candidates of the planner.
use inference_lab.Prelude.{ℕ, suc, ◌≡◌, refl, List, [], ◌∷◌, length, ap}
use inference_lab.Prelude.Int.{ℤ}
use inference_lab.Prelude.Float.{Floats}
use inference_lab.Result.{ok}
use inference_lab.Schemas.{standard}
use inference_lab.Tuning.{FrameworkParams}
use inference_lab.Tuning.Planning.{Rng, plan_candidates}
use inference_lab.Plugins.{RunSpec, build_launch_command}
use inference_lab.Plugins.Launch.{IsRunnable, build_launch_command_Returns}
use inference_lab.Settings.{LlmProviderSettings}
use inference_lab.Llm.{LlmLibrary}
use inference_lab.Discovery.{PythonText}
use inference_lab.Api.Plans.{
  ExperimentCandidateRead, ExperimentPlanRead, with_params, planned_trials, plan_read, plan_with,
  llm_candidates_for, experiment_plan,
}

module _ {F : Type 0} (fl : Floats F) where
  -- The trials are numbered from the index on, one for each candidate and in their order, each
  -- with the launch command of its candidate.
  abbrev pub IsPlanned :
      RunSpec F → ℕ → List (FrameworkParams F) → List (ExperimentCandidateRead F) → Type 0
  IsPlanned spec index [] [] = Unit
  IsPlanned spec index (p ∷ ps) (c ∷ cs) =
      (c.trial_index ≡ index)
      × (c.params ≡ p)
      × (build_launch_command fl (with_params spec p) ≡ ok c.launch_command)
      × IsPlanned spec (suc index) ps cs
  IsPlanned spec index ps cs = ⊥

  with_params-IsRunnable :
      (spec : RunSpec F) (p : FrameworkParams F) → IsRunnable spec → IsRunnable (with_params spec p)
  with_params-IsRunnable spec p h = record { framework = h.framework; mode = h.mode }

  length-IsPlanned :
      (spec : RunSpec F) (index : ℕ) (ps : List (FrameworkParams F))
      (cs : List (ExperimentCandidateRead F))
      → IsPlanned spec index ps cs
      → length cs ≡ length ps
  length-IsPlanned spec index [] [] h = refl
  length-IsPlanned spec index [] (c ∷ cs) h = absurd h
  length-IsPlanned spec index (p ∷ ps) [] h = absurd h
  length-IsPlanned spec index (p ∷ ps) (c ∷ cs) (i, q, l, h) =
      ap suc (length-IsPlanned spec (suc index) ps cs h)

module _ {F : Type 0} (fl : Floats F) (py : PythonText F) where
  planned_trials-IsPlanned :
      (spec : RunSpec F) (index : ℕ) (ps : List (FrameworkParams F))
      → IsRunnable spec
      → (cs : List (ExperimentCandidateRead F)) × (planned_trials fl py spec index ps ≡ ok cs)
        × IsPlanned fl spec index ps cs
  unfolding planned_trials
  planned_trials-IsPlanned spec index [] h = ([], refl, tt)
  planned_trials-IsPlanned spec index (p ∷ ps) h =
      let (line, built) =
        build_launch_command_Returns fl (with_params spec p) (with_params-IsRunnable fl spec p h) in
      let (cs, made, rest) = planned_trials-IsPlanned spec (suc index) ps h in
      (
        record {
          trial_index = index;
          params = p;
          launch_command = line;
          validation = "schema_validated_and_heuristic_pruned";
        }
            ∷ cs,
        rw (built, made) refl,
        (refl, refl, built, rest),
      )

  -- In standard mode the plan for a run that its schema accepts is always made, without a call of
  -- the language model: it has one trial for each candidate that the planner gives, in the same
  -- order and numbered from 1, with the launch command of the run under these parameters.
  pub experiment_plan-IsPlanned :
      {W : Type 0} (llm : LlmLibrary F W) (rng : Rng F) (spec : RunSpec F) (max_trials : ℤ)
      (gpu_count : ℕ) (settings : LlmProviderSettings) (w : W)
      → IsRunnable spec
      → (plan : ExperimentPlanRead F) × (experiment_plan fl py llm rng spec max_trials gpu_count
            standard settings w
          ≡ (ok plan, w))
        × (plan.trial_count ≡ length (plan_candidates fl rng gpu_count max_trials [] "standard").1)
        × IsPlanned fl spec 1
            (plan_candidates fl rng gpu_count max_trials [] "standard").1
            plan.candidates
  unfolding experiment_plan llm_candidates_for plan_with plan_read
  experiment_plan-IsPlanned llm rng spec max_trials gpu_count settings w h =
      let (phases, candidates) = plan_candidates fl rng gpu_count max_trials [] "standard" in
      let (cs, made, is_plan) = planned_trials-IsPlanned spec 1 candidates h in
      (
        plan_read fl py standard phases cs,
        rw made refl,
        length-IsPlanned fl spec 1 candidates cs is_plan,
        is_plan,
      )
