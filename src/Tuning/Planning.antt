-- ===== src/Tuning/Planning.antt =====
-- `plan_candidates` of backend/src/inflab/tuning.py.
use inference_lab.Prelude.{
  ℕ, zero, suc, String, List, [], ◌∷◌, ◌++◌, keep, if◌then◌else◌, ◌==◌, String-eq,
}
use inference_lab.Prelude.Int.{ℤ}
use inference_lab.Prelude.Float.{Floats}
use inference_lab.Tuning.{
  FrameworkParams, AgentPhase, standard_matrix_phase, observe, plan, validate, act, collect,
  reflect, done, default_params, is_valid, rule_baseline, grid_search, sized, fits, slice_to,
}
use inference_lab.Tuning.Matrix.{standard_matrix}

-- `random.Random(seed)`: its draws, in order.
pub record Rng (F : Type 0) : Type 0 where
  -- `rng.uniform(low, high)` as draw number `index`.
  pub uniform : (seed index : ℕ) → F → F → F
  -- `rng.choice([64, 96, 128, 160])` as draw number `index`.
  pub choice : (seed index : ℕ) → ℕ

module _ {F : Type 0} (fl : Floats F) where
  -- `MockLLMCandidateProvider.generate`
  unfoldable pub mock_candidates : List (FrameworkParams F)
  mock_candidates =
      record (default_params fl) {
        gpu_memory_utilization = fl.literal 86 2;
        max_num_seqs = 96;
        max_num_batched_tokens = 6144;
      }
      ∷ []

  unfoldable pub heuristic_prune : List (FrameworkParams F) → List (FrameworkParams F)
  heuristic_prune candidates = keep (fits fl) candidates

module _ {F : Type 0} (fl : Floats F) (rng : Rng F) where
  random_from : ℕ → ℕ → ℕ → List (FrameworkParams F)
  random_from seed index zero = []
  random_from seed index (suc count) =
      sized fl (fl.round (rng.uniform seed index (fl.literal 78 2) (fl.literal 93 2)) 2)
        (rng.choice seed (suc index))
      ∷ random_from seed (suc (suc index)) count

  unfoldable pub random_search : ℕ → ℕ → List (FrameworkParams F)
  unfolding random_from
  random_search seed count = random_from seed 0 count

  -- The candidates of intelligent mode, before they are validated.
  unfoldable pub proposed : ℕ → List (FrameworkParams F) → List (FrameworkParams F)
  proposed gpu_count llm_candidates =
      rule_baseline fl gpu_count
      ∷ (grid_search fl ++ (random_search 7 2 ++ (mock_candidates fl ++ llm_candidates)))

  unfoldable pub plan_candidates :
      ℕ → ℤ → List (FrameworkParams F) → String → List AgentPhase × List (FrameworkParams F)
  plan_candidates gpu_count max_trials llm_candidates mode =
      if mode == "standard"
      then (
        standard_matrix_phase ∷ validate ∷ done ∷ [],
        standard_matrix fl gpu_count max_trials [],
      )
      else (
        observe ∷ plan ∷ validate ∷ act ∷ collect ∷ reflect ∷ done ∷ [],
        slice_to max_trials
            (heuristic_prune fl (keep (is_valid fl) (proposed gpu_count llm_candidates))),
      )
