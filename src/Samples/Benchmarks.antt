-- ===== src/Samples/Benchmarks.antt =====
-- Benchmarks and their comparison.
use inference_lab.Prelude.{ℕ, suc, ◌≡◌, ◌↔◌, refl, none, some, [], ◌∷◌}
use inference_lab.Prelude.Int.{pos}
use inference_lab.Prelude.Text.{codes, strip, split_lines}
use inference_lab.Result.{ok, err, other_error}
use inference_lab.Schemas.{serve, container, bare_metal, command_result, plain_command}
use inference_lab.Executor.{RemoteExecutor}
use inference_lab.Steps.Running.{recording}
use inference_lab.Tuning.{default_params}
use inference_lab.Plugins.{RunSpec, build_launch_command}
use inference_lab.Shell.Lexer.{shell_words}
use inference_lab.Benchmark.Plan.Words.{vllm_words, build_benchmark_command_plan-words}
use inference_lab.Benchmark.{validate_fair_comparison}
use inference_lab.Benchmark.Plan.{
  BenchmarkPlanCreate, BenchmarkCommandPlan, build_benchmark_command_plan,
}
use inference_lab.Benchmark.Fair.{IsFair, validate_fair_comparison-IsFair}
use inference_lab.Benchmark.Remote.{
  OutputReader, pid_of, setup_command, start_command, kill_command, run_remote_benchmark,
}
use inference_lab.Benchmark.Remote.Stops.{run_remote_benchmark-stops}
use inference_lab.Samples.Values.{millionths, value_of}

abbrev lab_run : RunSpec ℕ
lab_run = record {
  machine_id = "m1";
  model_id = "qwen";
  runtime_mode = container;
  framework = "vllm";
  framework_version = "mock";
  framework_params = default_params millionths;
  prompt_dataset = "mock_prompts_v1";
  benchmark_version = "inflab-bench-mock-v1";
}

validate_fair_comparison-IsFair_example :
    (validate_fair_comparison millionths lab_run (record lab_run { runtime_mode = bare_metal })
      ≡ ok tt)
    ↔ IsFair millionths lab_run (record lab_run { runtime_mode = bare_metal })
validate_fair_comparison-IsFair_example =
    validate_fair_comparison-IsFair millionths lab_run
      (record lab_run { runtime_mode = bare_metal })

abbrev pub silent : OutputReader ℕ
silent = record { loads = λ _. none; search = λ _ _. none }

abbrev lab_plan : BenchmarkCommandPlan
lab_plan = record {
  framework = "vllm";
  kind = serve;
  serve_command = some "vllm serve qwen";
  bench_command = "vllm bench serve";
  result_path = "/data/r.json";
  parser = "parse_vllm_bench_output";
  notes = [];
}

-- Answers with a process number, and loses its connection in a stream.
abbrev losing : RemoteExecutor ℕ
losing = record {
  run = λ c t w. (command_result c (pos 0) "4711\n" "", suc w);
  stream = λ c t w. (err (other_error "connection lost"), suc w);
}

run_remote_benchmark-stops_example :
    (run_remote_benchmark millionths silent (recording losing) lab_plan 3600 (0, [])).1.1
    ≡ setup_command lab_plan
      ∷ start_command lab_plan "vllm serve qwen"
      ∷ plain_command "sleep 10"
      ∷ plain_command "vllm bench serve"
      ∷ kill_command "4711"
      ∷ []
unfolding pid_of strip split_lines
run_remote_benchmark-stops_example =
    run_remote_benchmark-stops millionths silent losing lab_plan 3600 "vllm serve qwen" "4711" 0
      refl refl refl refl refl refl

abbrev lab_request : BenchmarkPlanCreate ℕ
lab_request = record {
  run_spec = lab_run;
  kind = serve;
  host = "127.0.0.1";
  port = 8000;
  dataset_name = "my data";
  input_len = 1024;
  output_len = 256;
  num_prompts = 128;
  request_rate = none;
  result_dir = "/data/it's/";
  result_filename = "r.json";
}

lab_command_plan : BenchmarkCommandPlan
unfolding build_benchmark_command_plan build_launch_command
lab_command_plan = value_of (build_benchmark_command_plan millionths lab_request "/models/a b") tt

build_benchmark_command_plan-words_example :
    shell_words (codes lab_command_plan.bench_command)
    ≡ some (vllm_words millionths lab_request "/models/a b")
unfolding build_benchmark_command_plan build_launch_command lab_command_plan
build_benchmark_command_plan-words_example =
    build_benchmark_command_plan-words millionths lab_request "/models/a b" lab_command_plan refl tt
      refl
