-- ===== src/Benchmark.antt =====
-- backend/src/inflab/benchmark.py: benchmark results and their comparison.
pub mod Plan
pub mod Fair
pub mod Remote
use inference_lab.Prelude.{
  ℕ, ◌*◌, max, String, Bool, true, false, ◌&&◌, ◌||◌, not, Option, none, some, List, [], ◌∷◌, ◌++◌,
  get, if◌then◌else◌, ◌==◌, String-eq, ℕ-eq,
}
use inference_lab.Prelude.Float.{Floats}
use inference_lab.Prelude.Int.{ℤ, pos, max_ℤ}
use inference_lab.Prelude.Json.{Json, int, float}
use inference_lab.Prelude.Text.{◌<>◌, join, show, rstrip_by}
use inference_lab.Result.{Result, ok, err, value_error, or_key_error, ◌>>=◌, ◌>>◌}
use inference_lab.Schemas.{RuntimeMode, BenchmarkKind, serve, throughput, container, bare_metal}
use inference_lab.Shell.{quote}
use inference_lab.Tuning.{FrameworkParams}
use inference_lab.Plugins.{RunSpec, build_launch_command}

-- Its `gpu`, `power` and `failures` are not read again.
pub record BenchmarkResult (F : Type 0) : Type 0 where
  pub request_count : ℤ
  pub success_count : ℤ
  pub failure_count : ℤ
  pub latency_ms : List (String × F)
  pub ttft_ms : List (String × F)
  pub tpot_ms : List (String × F)
  pub throughput : List (String × F)
  pub gpu : List (String × Json F)
  pub power : List (String × Json F)

abbrev pub option_eq : Option String → Option String → Bool
option_eq none none = true
option_eq (some a) (some b) = a == b
option_eq a b = false

abbrev pub bool_eq : Bool → Bool → Bool
bool_eq true b = b
bool_eq false b = not b

abbrev require : Bool → String → Result (Unit {0})
require true message = ok tt
require false message = err (value_error message)

-- The set of both modes is that of `container` and `bare_metal`.
abbrev pub both_modes : RuntimeMode → RuntimeMode → Bool
both_modes container bare_metal = true
both_modes bare_metal container = true
both_modes a b = false

module _ {F : Type 0} (fl : Floats F) where
  unfoldable pub fake_benchmark_result : RunSpec F → BenchmarkResult F
  fake_benchmark_result spec =
      let memory = spec.framework_params.gpu_memory_utilization in
      let rate =
        fl.round
          (fl.times (fl.of_int (pos (4200 * spec.framework_params.tensor_parallel_size))) memory)
          2 in
      record {
        request_count = pos 128;
        success_count = pos 128;
        failure_count = pos 0;
        latency_ms =
            ("p50", fl.literal 780 0)
            ∷ ("p90", fl.literal 1180 0)
            ∷ ("p99", fl.literal 1480 0)
            ∷ [];
        ttft_ms =
            ("p50", fl.literal 110 0) ∷ ("p90", fl.literal 180 0) ∷ ("p99", fl.literal 260 0) ∷ [];
        tpot_ms =
            ("p50", fl.literal 18 0) ∷ ("p90", fl.literal 24 0) ∷ ("p99", fl.literal 32 0) ∷ [];
        throughput =
            ("tokens_per_sec", rate)
            ∷ ("requests_per_sec", fl.round (fl.over rate (fl.of_int (pos 120))) 2)
            ∷ [];
        gpu =
            ("memory_peak_mb", int (fl.to_int (fl.times (fl.of_int (pos 64000)) memory)))
            ∷ ("utilization_avg", float (fl.literal 88 2))
            ∷ [];
        power = ("avg_watt", int (pos 2150)) ∷ ("peak_watt", int (pos 2380)) ∷ [];
      }

  abbrev entry : String → List (String × F) → Result F
  entry key m = or_key_error key (get key m)

  unfoldable pub normalize_metrics : BenchmarkResult F → Result (List (String × F))
  normalize_metrics r = do
    ttft ← entry "p50" r.ttft_ms
    tpot ← entry "p50" r.tpot_ms
    latency ← entry "p99" r.latency_ms
    tokens ← entry "tokens_per_sec" r.throughput
    requests ← entry "requests_per_sec" r.throughput
    ok (
        ("ttft_p50_ms", ttft)
        ∷ ("tpot_p50_ms", tpot)
        ∷ ("latency_p99_ms", latency)
        ∷ ("tokens_per_second", tokens)
        ∷ ("requests_per_second", requests)
        ∷ (
          "failure_rate",
          fl.over (fl.of_int r.failure_count) (fl.of_int (max_ℤ r.request_count (pos 1))),
        )
        ∷ [])

  -- `==` of floats, and of two `FrameworkParams`.
  abbrev pub float_eq : F → F → Bool
  float_eq a b = fl.le a b && fl.le b a

  unfoldable pub params_eq : FrameworkParams F → FrameworkParams F → Bool
  params_eq p q =
      p.tensor_parallel_size == q.tensor_parallel_size
      && p.pipeline_parallel_size == q.pipeline_parallel_size
      && float_eq p.gpu_memory_utilization q.gpu_memory_utilization
      && p.max_model_len == q.max_model_len
      && p.max_num_seqs == q.max_num_seqs
      && p.max_num_batched_tokens == q.max_num_batched_tokens
      && p.dtype == q.dtype
      && option_eq p.quantization q.quantization
      && bool_eq p.enable_chunked_prefill q.enable_chunked_prefill
      && bool_eq p.enable_prefix_caching q.enable_prefix_caching

  unfoldable pub validate_fair_comparison : RunSpec F → RunSpec F → Result (Unit {0})
  unfolding params_eq
  validate_fair_comparison left right = do
    require (left.machine_id == right.machine_id) "fair comparison requires the same machine"
    require (left.model_id == right.model_id) "fair comparison requires the same model hash"
    require (left.prompt_dataset == right.prompt_dataset)
        "fair comparison requires the same prompt dataset"
    require (left.benchmark_version == right.benchmark_version)
        "fair comparison requires the same benchmark version"
    require (params_eq left.framework_params right.framework_params)
        "fair comparison requires the same framework params"
    require (both_modes left.runtime_mode right.runtime_mode)
        "fair comparison must compare container and bare_metal"
