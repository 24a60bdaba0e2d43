-- ===== src/Api/Trials.antt =====
-- backend/src/inflab/api/v1.py: what a trial of an experiment leaves in the database.
use inference_lab.Prelude.{
  ℕ, ◌*◌, ◌+◌, ◌-◌, String, none, some, List, [], ◌∷◌, ◌++◌, map, get, dict_from, if◌then◌else◌,
  String-eq,
}
use inference_lab.Prelude.Int.{ℤ, pos, negsuc, plus_ℤ}
use inference_lab.Prelude.Float.{Floats}
use inference_lab.Prelude.Json.{Json, int, float, text, object, array}
use inference_lab.Prelude.Text.{◌<>◌, show}
use inference_lab.Result.{Result, ok, or_key_error, ◌>>=◌ as bind}
use inference_lab.Plugins.{RunSpec}
use inference_lab.Benchmark.{BenchmarkResult, fake_benchmark_result, normalize_metrics}
use inference_lab.Tuning.{FrameworkParams}
use inference_lab.Database.{ExperimentTrial, MetricsSummary, MetricsSample}
use inference_lab.Api.Plans.{ExperimentCandidateRead, params_json, with_params}

-- The rows that a trial leaves.
pub record TrialRows (F : Type 0) : Type 0 where
  pub trial : ExperimentTrial F
  pub summary : MetricsSummary F
  pub sample : MetricsSample F
  pub logs : List String

module _ {F : Type 0} (fl : Floats F) where
  -- `result.model_dump(mode="json")`
  floats_json : List (String × F) → Json F
  floats_json m = object (map (λ e. (e.0, float e.1)) m)

  unfoldable pub result_json : BenchmarkResult F → Json F
  unfolding floats_json
  result_json r = object (
      ("request_count", int r.request_count)
      ∷ ("success_count", int r.success_count)
      ∷ ("failure_count", int r.failure_count)
      ∷ ("latency_ms", floats_json r.latency_ms)
      ∷ ("ttft_ms", floats_json r.ttft_ms)
      ∷ ("tpot_ms", floats_json r.tpot_ms)
      ∷ ("throughput", floats_json r.throughput)
      ∷ ("gpu", object r.gpu)
      ∷ ("power", object r.power)
      ∷ ("failures", array [])
      ∷ [])

  times_ℕ : ℕ → ℤ → ℤ
  times_ℕ k (pos n) = pos (k * n)
  times_ℕ k (negsuc n) = negsuc (k * n + (k - 1))

  -- The metrics of a trial, for the throughput of its summary.
  unfoldable pub trial_metrics :
      FrameworkParams F → BenchmarkResult F → List (String × F) → F → List (String × Json F)
  unfolding times_ℕ
  trial_metrics params result summary tokens =
      let zero_f = fl.literal 0 0 in
      let output = times_ℕ 256 result.success_count in
      let duration =
        if fl.lt zero_f tokens then fl.round (fl.over (fl.of_int output) tokens) 2 else zero_f in
      let input = times_ℕ 1024 result.request_count in
      dict_from [] (
        map (λ (e : String × F). (e.0, float e.1)) summary
        ++ ("request_count", int result.request_count)
          ∷ ("success_count", int result.success_count)
          ∷ ("input_tokens", int (pos 1024))
          ∷ ("output_tokens", int (pos 256))
          ∷ ("total_input_tokens", int input)
          ∷ ("total_output_tokens", int output)
          ∷ ("request_concurrency", int (pos params.max_num_seqs))
          ∷ ("total_duration_s", float duration)
          ∷ (
            "total_token_throughput",
            float (
                if fl.lt zero_f duration
                then fl.round (fl.over (fl.of_int (plus_ℤ input output)) duration) 2
                else tokens),
          )
          ∷ [])

  trial_logs : ExperimentCandidateRead F → F → List String
  trial_logs candidate tokens =
      ("trial " <> (show candidate.trial_index <> " started"))
      ∷ ("launch: " <> candidate.launch_command)
      ∷ ("trial " <> (show candidate.trial_index <> " succeeded"))
      ∷ ("tokens_per_second=" <> fl.to_text tokens)
      ∷ []

  -- The rows of a trial of the fake runner, for their ids.
  unfoldable pub trial_rows :
      (trial_id summary_id sample_id experiment_id : String)
      → RunSpec F
      → ExperimentCandidateRead F
      → Result (TrialRows F)
  unfolding result_json trial_metrics trial_logs
  trial_rows trial_id summary_id sample_id experiment_id spec candidate =
      let result = fake_benchmark_result fl (with_params spec candidate.params) in
      bind (normalize_metrics fl result) (λ summary.
        bind (or_key_error "tokens_per_second" (get "tokens_per_second" summary)) (λ tokens.
          let metrics = trial_metrics candidate.params result summary tokens in
          let logs = trial_logs candidate tokens in
          ok (record {
            trial = record {
              id = trial_id;
              experiment_id = experiment_id;
              trial_index = candidate.trial_index;
              params = params_json candidate.params;
              launch_command = candidate.launch_command;
              status = "succeeded";
              result =
                  ("benchmark_result", result_json result)
                  ∷ ("metrics", object metrics)
                  ∷ ("logs", array (map text logs))
                  ∷ [];
              failure_category = none;
            };
            summary = record {
              id = summary_id;
              experiment_id = experiment_id;
              trial_id = some trial_id;
              summary = summary;
              metrics = metrics;
            };
            sample = record {
              id = sample_id;
              experiment_id = experiment_id;
              trial_id = some trial_id;
              metrics =
                  ("gpu_utilization", float (fl.literal 88 2))
                  ∷ ("tokens_per_second", float tokens)
                  ∷ [];
            };
            logs = logs;
          })))
