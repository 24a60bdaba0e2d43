-- ===== src/Tuning/Loop.antt =====
-- `run_agent_tuning_loop` of backend/src/inflab/tuning.py.
pub mod Best
use inference_lab.Prelude.{
  ℕ, zero, suc, ◌+◌, ◌≡◌, refl, String, Bool, true, false, Option, none, some, List, [], ◌∷◌, ◌++◌,
  map, arith, Bool-cases, inl, inr, if◌then◌else◌, length, All, All-append, get,
}
use inference_lab.Prelude.Int.{ℤ, pos}
use inference_lab.Prelude.Float.{Floats}
use inference_lab.Prelude.Json.{Json, null, boolean, int, float, text, arr, obj, fields}
use inference_lab.Result.{Result, ok, err, value_error, other_error, ◌>>=◌}
use inference_lab.Tuning.{FrameworkParams, AgentPhase, phase_value}
use inference_lab.Tuning.Planning.{Rng, plan_candidates}

-- An entry of `observations`; `params` stands for the candidate's dump.
pub record Observation (F : Type 0) : Type 0 where
  pub trial_index : ℕ
  pub params : FrameworkParams F
  pub result : Json F
  pub score : F

pub record TuningResult (F : Type 0) : Type 0 where
  pub phases : List String
  pub observations : List (Observation F)
  pub best : Option (Observation F)
  pub status : String

-- `result.get(key)` of a value that may be no `dict`.
abbrev entry : {F : Type 0} → String → Json F → Option (Json F)
entry key (obj m) = get key (fields m)
entry key _ = none

module _ {F : Type 0} (fl : Floats F) where
  abbrev parsed : Option F → Result F
  parsed none = err (value_error "could not convert string to float")
  parsed (some x) = ok x

  -- `float(value)`
  to_float : Json F → Result F
  to_float (int n) = ok (fl.of_int n)
  to_float (float x) = ok x
  to_float (boolean true) = ok (fl.of_int (pos 1))
  to_float (boolean false) = ok (fl.of_int (pos 0))
  to_float (text s) = parsed (fl.of_text s)
  to_float _ = err (other_error "float() argument must be a string or a real number")

  -- `float(metrics.get("tokens_per_second", 0.0))`
  score_of_metrics : Json F → Result F
  score_of_metrics (obj m) = elim (get "tokens_per_second" (fields m)) [
    | none ↦ ok (fl.literal 0 1)
    | some v ↦ to_float v
  ]
  score_of_metrics _ = ok (fl.literal 0 1)

  -- `result.get("metrics", {}) if isinstance(result, dict) else {}`, and its score.
  score_of : Json F → Result F
  unfolding score_of_metrics to_float
  score_of result = elim (entry "metrics" result) [
    | none ↦ ok (fl.literal 0 1)
    | some metrics ↦ score_of_metrics metrics
  ]

  better : Option (Observation F) → Observation F → Option (Observation F)
  better none o = some o
  better (some best) o = if fl.lt best.score o.score then some o else some best

  module _ {W : Type 0} (runner : FrameworkParams F → W → Json F × W) where
    -- The loop, from the trial number that comes next.
    trials :
        ℕ
        → List (Observation F)
        → Option (Observation F)
        → List (FrameworkParams F)
        → W
        → Result (List (Observation F) × Option (Observation F)) × W
    unfolding score_of better
    trials index seen best [] w = (ok (seen, best), w)
    trials index seen best (candidate ∷ more) w =
        let (result, after) = runner candidate w in
        elim (score_of result) [
          | err e ↦ (err e, after)
          | ok score ↦
              (let o : Observation F = record {
                trial_index = index;
                params = candidate;
                result = result;
                score = score;
              } in
                trials (suc index) (seen ++ o ∷ []) (better best o) more after)
        ]

    abbrev finished :
        List AgentPhase
        → Result (List (Observation F) × Option (Observation F))
        → Result (TuningResult F)
    finished phases (err e) = err e
    finished phases (ok (seen, best)) = ok (record {
      phases = map phase_value phases;
      observations = seen;
      best = best;
      status = elim seen [ [] ↦ "no_candidates" | o ∷ more ↦ "succeeded" ];
    })

    unfoldable pub run_agent_tuning_loop :
        Rng F → ℕ → ℤ → List (FrameworkParams F) → String → W → Result (TuningResult F) × W
    unfolding trials
    run_agent_tuning_loop rng gpu_count max_trials llm_candidates mode w =
        let (phases, candidates) =
          plan_candidates fl rng gpu_count max_trials llm_candidates mode in
        let (found, after) = trials 1 [] none candidates w in (finished phases found, after)
