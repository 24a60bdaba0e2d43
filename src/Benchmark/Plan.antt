-- ===== src/Benchmark/Plan.antt =====
-- `build_benchmark_command_plan` of backend/src/inflab/benchmark.py.
pub mod Words
use inference_lab.Prelude.{
  ℕ, String, Option, none, some, List, [], ◌∷◌, if◌then◌else◌, ◌==◌, String-eq, ℕ-eq,
}
use inference_lab.Prelude.Float.{Floats}
use inference_lab.Prelude.Text.{◌<>◌, join, show, rstrip_by}
use inference_lab.Result.{Result, ok, err, value_error, ◌>>=◌}
use inference_lab.Schemas.{BenchmarkKind, serve, throughput}
use inference_lab.Shell.{quote}
use inference_lab.Plugins.{RunSpec, build_launch_command}

-- `BenchmarkPlanCreate` of schemas.py, whose integers are at least 1.
pub record BenchmarkPlanCreate (F : Type 0) : Type 0 where
  pub run_spec : RunSpec F
  pub kind : BenchmarkKind
  pub host : String
  pub port : ℕ
  pub dataset_name : String
  pub input_len : ℕ
  pub output_len : ℕ
  pub num_prompts : ℕ
  pub request_rate : Option F
  pub result_dir : String
  pub result_filename : String

pub record BenchmarkCommandPlan : Type 0 where
  pub framework : String
  pub kind : BenchmarkKind
  pub serve_command : Option String
  pub bench_command : String
  pub result_path : String
  pub parser : String
  pub notes : List String

abbrev kind_value : BenchmarkKind → String
kind_value serve = "serve"
kind_value throughput = "throughput"

module _ {F : Type 0} (fl : Floats F) where
  abbrev result_path_of : BenchmarkPlanCreate F → String
  result_path_of p = rstrip_by (λ c. c == b'/') p.result_dir <> ("/" <> p.result_filename)

  -- `request_rate` is positive, so `or 'inf'` stands for a missing one.
  rate_text : Option F → String
  rate_text none = "inf"
  rate_text (some rate) = fl.to_text rate

  sglang_command : BenchmarkPlanCreate F → String → String
  unfolding rate_text
  sglang_command p model_path = join "" (
      "python -m sglang.bench_serving --backend sglang --model "
      ∷ quote model_path
      ∷ " --host "
      ∷ quote p.host
      ∷ " --port "
      ∷ show p.port
      ∷ " --dataset-name "
      ∷ quote p.dataset_name
      ∷ " --random-input-len "
      ∷ show p.input_len
      ∷ " --random-output-len "
      ∷ show p.output_len
      ∷ " --num-prompts "
      ∷ show p.num_prompts
      ∷ " --request-rate "
      ∷ rate_text p.request_rate
      ∷ " | tee "
      ∷ quote (result_path_of p)
      ∷ [])

  rate_parts : Option F → List String
  rate_parts none = []
  rate_parts (some rate) = "--request-rate" ∷ fl.to_text rate ∷ []

  kind_parts : BenchmarkKind → BenchmarkPlanCreate F → List String
  unfolding rate_parts
  kind_parts serve p =
      "--backend"
      ∷ "vllm"
      ∷ "--host"
      ∷ quote p.host
      ∷ "--port"
      ∷ show p.port
      ∷ "--random-input-len"
      ∷ show p.input_len
      ∷ "--random-output-len"
      ∷ show p.output_len
      ∷ "--save-result"
      ∷ "--result-dir"
      ∷ quote p.result_dir
      ∷ "--result-filename"
      ∷ quote p.result_filename
      ∷ rate_parts p.request_rate
  kind_parts throughput p =
      "--input-len"
      ∷ show p.input_len
      ∷ "--output-len"
      ∷ show p.output_len
      ∷ "--output-json"
      ∷ quote (result_path_of p)
      ∷ []

  unfoldable pub vllm_parts : BenchmarkPlanCreate F → String → List String
  unfolding kind_parts
  vllm_parts p model_path =
      "vllm"
      ∷ "bench"
      ∷ kind_value p.kind
      ∷ "--model"
      ∷ quote model_path
      ∷ "--dataset-name"
      ∷ quote p.dataset_name
      ∷ "--num-prompts"
      ∷ show p.num_prompts
      ∷ kind_parts p.kind p

  served : BenchmarkKind → String → Option String
  served serve command = some command
  served throughput command = none

  planned : BenchmarkPlanCreate F → String → String → Result BenchmarkCommandPlan
  unfolding sglang_command served
  planned p model_path serve_command =
      if p.run_spec.framework == "sglang"
      then ok (record {
        framework = "sglang";
        kind = serve;
        serve_command = some serve_command;
        bench_command = sglang_command p model_path;
        result_path = result_path_of p;
        parser = "parse_sglang_bench_output";
        notes =
            "command plan only unless used by the remote benchmark runner"
            ∷ "requires sglang installed on the target runtime" ∷ [];
      })
      else if p.run_spec.framework == "vllm"
      then ok (record {
        framework = "vllm";
        kind = p.kind;
        serve_command = served p.kind serve_command;
        bench_command = join " " (vllm_parts p model_path);
        result_path = result_path_of p;
        parser = "parse_vllm_bench_output";
        notes =
            "command plan only; API does not execute real inference by default"
            ∷ "requires vLLM installed with bench extras on the target runtime" ∷ [];
      })
      else err
          (value_error "real benchmark command planning is currently implemented for vllm/sglang")

  unfoldable pub build_benchmark_command_plan :
      BenchmarkPlanCreate F → String → Result BenchmarkCommandPlan
  unfolding planned
  build_benchmark_command_plan p model_path = do
    serve_command ← build_launch_command fl p.run_spec
    planned p model_path serve_command
