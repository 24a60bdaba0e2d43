-- ===== src/Tuning.antt =====
-- backend/src/inflab/tuning.py: the candidates that are planned for an experiment.
pub mod Matrix
pub mod Planning
pub mod Bounds
pub mod Length
pub mod Loop
use inference_lab.Prelude.{
  ℕ, zero, suc, ◌*◌, ◌+◌, ◌-◌, max, min, String, Bool, true, false, ◌&&◌, Option, none, some, List,
  [], ◌∷◌, leb, ltb, if◌then◌else◌, take, length,
}
use inference_lab.Prelude.Int.{ℤ, pos, negsuc}
use inference_lab.Prelude.Float.{Floats}

-- `FrameworkParams` of schemas.py. Its integers are natural numbers: a request with a negative one
-- is refused before the program sees it.
pub record FrameworkParams (F : Type 0) : Type 0 where
  pub tensor_parallel_size : ℕ
  pub pipeline_parallel_size : ℕ
  pub gpu_memory_utilization : F
  pub max_model_len : ℕ
  pub max_num_seqs : ℕ
  pub max_num_batched_tokens : ℕ
  pub dtype : String
  pub quantization : Option String
  pub enable_chunked_prefill : Bool
  pub enable_prefix_caching : Bool

pub data AgentPhase : Type 0 where
  standard_matrix_phase observe plan validate act collect reflect done : AgentPhase

-- `AgentPhase.value`
abbrev pub phase_value : AgentPhase → String
phase_value standard_matrix_phase = "StandardMatrix"
phase_value observe = "Observe"
phase_value plan = "Plan"
phase_value validate = "Validate"
phase_value act = "Act"
phase_value collect = "Collect"
phase_value reflect = "Reflect"
phase_value done = "Done"

-- `items[:n]`: a negative bound counts from the end.
unfoldable pub slice_to {ℓ} : {A : Type ℓ} → ℤ → List A → List A
slice_to (pos n) l = take n l
slice_to (negsuc n) l = take (length l - suc n) l

module _ {F : Type 0} (fl : Floats F) where
  -- `FrameworkParams()`
  unfoldable pub default_params : FrameworkParams F
  default_params = record {
    tensor_parallel_size = 1;
    pipeline_parallel_size = 1;
    gpu_memory_utilization = fl.literal 9 1;
    max_model_len = 4096;
    max_num_seqs = 128;
    max_num_batched_tokens = 8192;
    dtype = "bfloat16";
    quantization = none;
    enable_chunked_prefill = true;
    enable_prefix_caching = true;
  }

  -- The field constraints that `FrameworkParams.model_validate` checks.
  unfoldable pub is_valid : FrameworkParams F → Bool
  is_valid p =
      leb 1 p.tensor_parallel_size
      && leb 1 p.pipeline_parallel_size
      && fl.lt (fl.literal 0 0) p.gpu_memory_utilization
      && fl.le p.gpu_memory_utilization (fl.literal 1 0)
      && leb 1 p.max_model_len
      && leb 1 p.max_num_seqs
      && leb 1 p.max_num_batched_tokens

  unfoldable pub rule_baseline : ℕ → FrameworkParams F
  unfolding default_params
  rule_baseline gpu_count = record default_params {
    tensor_parallel_size = max gpu_count 1;
    gpu_memory_utilization = fl.literal 88 2;
    max_num_seqs = 128;
    max_num_batched_tokens = 8192;
  }

  unfoldable pub sized : F → ℕ → FrameworkParams F
  unfolding default_params
  sized memory seqs = record default_params { gpu_memory_utilization = memory; max_num_seqs = seqs }

  unfoldable pub grid_search : List (FrameworkParams F)
  grid_search =
      sized (fl.literal 82 2) 64
      ∷ sized (fl.literal 82 2) 128
      ∷ sized (fl.literal 9 1) 64
      ∷ sized (fl.literal 9 1) 128
      ∷ []

  -- `heuristic_prune` keeps what passes this test.
  unfoldable pub fits : FrameworkParams F → Bool
  fits p =
      leb (p.max_num_seqs * p.max_model_len) 1048576
      && fl.le p.gpu_memory_utilization (fl.literal 94 2)
