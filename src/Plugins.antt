-- ===== src/Plugins.antt =====
-- backend/src/inflab/plugins.py: the launch commands of the frameworks and the runtimes.
pub mod Launch
use inference_lab.Prelude.{
  String, Bool, Option, none, some, List, [], ◌∷◌, ◌++◌, if◌then◌else◌, ◌==◌, String-eq,
}
use inference_lab.Prelude.Float.{Floats}
use inference_lab.Prelude.Text.{◌<>◌, is_empty, join, show}
use inference_lab.Result.{Result, ok, err, key_error, value_error, ◌>>=◌}
use inference_lab.Schemas.{RuntimeMode, container, bare_metal, both}
use inference_lab.Tuning.{FrameworkParams}

-- `RunSpec` of schemas.py.
pub record RunSpec (F : Type 0) : Type 0 where
  pub machine_id : String
  pub model_id : String
  pub runtime_mode : RuntimeMode
  pub framework : String
  pub framework_version : String
  pub framework_params : FrameworkParams F
  pub prompt_dataset : String
  pub benchmark_version : String

-- `BasicRuntimePlugin.run_command` of the runtime that the registry has for a mode.
run_command : RuntimeMode → String → Result String
run_command both command = err (value_error "runtime plugin requires a single runtime mode")
run_command container command = ok ("docker run --rm --gpus all inflab-runtime " <> command)
run_command bare_metal command = ok ("/data/workspace/inflab-runtime/bin/" <> command)

prepare : {F : Type 0} → RuntimeMode → RunSpec F → String
prepare container spec =
    "docker pull inflab/" <> (spec.framework <> (":" <> spec.framework_version))
prepare mode spec = "python3 -m venv /data/workspace/inflab-runtime"

quantization_args : Option String → List String
quantization_args none = []
quantization_args (some q) = if is_empty q then [] else ("--quantization " <> q) ∷ []

flag : Bool → String → List String
flag given name = if given then name ∷ [] else []

module _ {F : Type 0} (fl : Floats F) where
  base_args : FrameworkParams F → List String
  unfolding quantization_args flag
  base_args p =
      ("--tensor-parallel-size " <> show p.tensor_parallel_size)
      ∷ ("--pipeline-parallel-size " <> show p.pipeline_parallel_size)
      ∷ ("--gpu-memory-utilization " <> fl.to_text p.gpu_memory_utilization)
      ∷ ("--max-model-len " <> show p.max_model_len)
      ∷ ("--max-num-seqs " <> show p.max_num_seqs)
      ∷ ("--max-num-batched-tokens " <> show p.max_num_batched_tokens)
      ∷ ("--dtype " <> p.dtype)
      ∷ (quantization_args p.quantization
          ++ (flag p.enable_chunked_prefill "--enable-chunked-prefill"
              ++ flag p.enable_prefix_caching "--enable-prefix-caching"))

  -- `registry.framework(name).build_launch_command(spec)`
  framework_command : RunSpec F → Result String
  unfolding base_args
  framework_command spec =
      let args = join " " (base_args spec.framework_params) in
      if spec.framework == "vllm"
      then ok ("vllm serve " <> (spec.model_id <> (" " <> args)))
      else if spec.framework == "sglang"
      then ok ("python -m sglang.launch_server --model-path " <> (spec.model_id <> (" " <> args)))
      else err (key_error spec.framework)

  -- `build_launch_command` of benchmark.py.
  unfoldable pub build_launch_command : RunSpec F → Result String
  unfolding framework_command run_command
  build_launch_command spec = do
    command ← framework_command spec
    run_command spec.runtime_mode command
