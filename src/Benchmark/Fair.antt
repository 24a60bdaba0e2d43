-- ===== src/Benchmark/Fair.antt =====
-- Which runs may be compared.
use inference_lab.Prelude.{
  ℕ, ◌≡◌, refl, ap, ◌==◌, ℕ-eq, arith, and_split, Option, none, some, ◌↔◌, ◌⊎◌, inl, inr, String,
  Bool, true, false, String-eq, text_iff,
}
use inference_lab.Prelude.Float.{Floats}
use inference_lab.Result.{Result, ok, ◌>>◌}
use inference_lab.Schemas.{RuntimeMode, container, bare_metal, both}
use inference_lab.Tuning.{FrameworkParams}
use inference_lab.Plugins.{RunSpec}
use inference_lab.Benchmark.{
  require, params_eq, option_eq, bool_eq, both_modes, validate_fair_comparison,
}

-- One of the two modes is `container` and the other `bare_metal`.
abbrev pub AreBothModes : RuntimeMode → RuntimeMode → Type 0
AreBothModes a b = ((a ≡ container) × (b ≡ bare_metal)) ⊎ ((a ≡ bare_metal) × (b ≡ container))

-- Two settings of framework parameters that agree in every field of `FrameworkParams`: the shares
-- of memory as floats of which none is above the other, the other fields as they are.
pub record AreSame {F : Type 0} (fl : Floats F) (p q : FrameworkParams F) : Type 0 where
  pub tensor_parallel_size : p.tensor_parallel_size ≡ q.tensor_parallel_size
  pub pipeline_parallel_size : p.pipeline_parallel_size ≡ q.pipeline_parallel_size
  pub not_above : fl.le p.gpu_memory_utilization q.gpu_memory_utilization ≡ true
  pub not_below : fl.le q.gpu_memory_utilization p.gpu_memory_utilization ≡ true
  pub max_model_len : p.max_model_len ≡ q.max_model_len
  pub max_num_seqs : p.max_num_seqs ≡ q.max_num_seqs
  pub max_num_batched_tokens : p.max_num_batched_tokens ≡ q.max_num_batched_tokens
  pub dtype : p.dtype ≡ q.dtype
  pub quantization : p.quantization ≡ q.quantization
  pub enable_chunked_prefill : p.enable_chunked_prefill ≡ q.enable_chunked_prefill
  pub enable_prefix_caching : p.enable_prefix_caching ≡ q.enable_prefix_caching

-- The runs differ at most in their frameworks and in how they are hosted.
pub record IsFair {F : Type 0} (fl : Floats F) (left right : RunSpec F) : Type 0 where
  pub machine : left.machine_id ≡ right.machine_id
  pub model : left.model_id ≡ right.model_id
  pub dataset : left.prompt_dataset ≡ right.prompt_dataset
  pub version : left.benchmark_version ≡ right.benchmark_version
  pub params : AreSame fl left.framework_params right.framework_params
  pub modes : AreBothModes left.runtime_mode right.runtime_mode

both_modes-AreBothModes : (a b : RuntimeMode) → both_modes a b ≡ true → AreBothModes a b
both_modes-AreBothModes container container h = cc
both_modes-AreBothModes container bare_metal h = inl (refl, refl)
both_modes-AreBothModes container both h = cc
both_modes-AreBothModes bare_metal container h = inr (refl, refl)
both_modes-AreBothModes bare_metal bare_metal h = cc
both_modes-AreBothModes bare_metal both h = cc
both_modes-AreBothModes both b h = cc

AreBothModes-both_modes : (a b : RuntimeMode) → AreBothModes a b → both_modes a b ≡ true
AreBothModes-both_modes a b (inl (e, f)) = rw (e, f)
AreBothModes-both_modes a b (inr (e, f)) = rw (e, f)

some_injective : {a b : String} → some a ≡ some b → a ≡ b
some_injective q = cc

option_iff : (a b : Option String) → (option_eq a b ≡ true) ↔ (a ≡ b)
option_iff none none = (λ h. refl, λ h. refl)
option_iff none (some b) = (λ h. cc, λ h. cc)
option_iff (some a) none = (λ h. cc, λ h. cc)
option_iff (some a) (some b) =
    (λ h. ap some ((text_iff a b).0 h), λ h. (text_iff a b).1 (some_injective h))

bool_iff : (a b : Bool) → (bool_eq a b ≡ true) ↔ (a ≡ b)
bool_iff true true = (λ h. refl, λ h. refl)
bool_iff true false = (λ h. cc, λ h. cc)
bool_iff false true = (λ h. cc, λ h. cc)
bool_iff false false = (λ h. refl, λ h. refl)

ℕ_iff : (a b : ℕ) → (a == b ≡ true) ↔ (a ≡ b)
ℕ_iff a b = (λ h. ground arith, λ h. ground arith)

module _ {F : Type 0} (fl : Floats F) where
  params_eq-AreSame : (p q : FrameworkParams F) → params_eq fl p q ≡ true → AreSame fl p q
  unfolding params_eq
  params_eq-AreSame p q h =
      let (h9, prefix) = and_split _ _ h in
      let (h8, chunked) = and_split _ _ h9 in
      let (h7, quantization) = and_split _ _ h8 in
      let (h6, dtype) = and_split _ _ h7 in
      let (h5, batched) = and_split _ _ h6 in
      let (h4, seqs) = and_split _ _ h5 in
      let (h3, len) = and_split _ _ h4 in
      let (h2, memory) = and_split _ _ h3 in
      let (tensor, pipeline) = and_split _ _ h2 in
      let (above, below) = and_split _ _ memory in
      record {
        tensor_parallel_size = (ℕ_iff _ _).0 tensor;
        pipeline_parallel_size = (ℕ_iff _ _).0 pipeline;
        not_above = above;
        not_below = below;
        max_model_len = (ℕ_iff _ _).0 len;
        max_num_seqs = (ℕ_iff _ _).0 seqs;
        max_num_batched_tokens = (ℕ_iff _ _).0 batched;
        dtype = (text_iff _ _).0 dtype;
        quantization = (option_iff _ _).0 quantization;
        enable_chunked_prefill = (bool_iff _ _).0 chunked;
        enable_prefix_caching = (bool_iff _ _).0 prefix;
      }

  AreSame-params_eq : (p q : FrameworkParams F) → AreSame fl p q → params_eq fl p q ≡ true
  unfolding params_eq
  AreSame-params_eq p q h =
      rw
        (
          (ℕ_iff p.tensor_parallel_size q.tensor_parallel_size).1 h.tensor_parallel_size,
          (ℕ_iff p.pipeline_parallel_size q.pipeline_parallel_size).1 h.pipeline_parallel_size,
          h.not_above,
          h.not_below,
          (ℕ_iff p.max_model_len q.max_model_len).1 h.max_model_len,
          (ℕ_iff p.max_num_seqs q.max_num_seqs).1 h.max_num_seqs,
          (ℕ_iff p.max_num_batched_tokens q.max_num_batched_tokens).1 h.max_num_batched_tokens,
          (text_iff p.dtype q.dtype).1 h.dtype,
          (option_iff p.quantization q.quantization).1 h.quantization,
          (bool_iff p.enable_chunked_prefill q.enable_chunked_prefill).1 h.enable_chunked_prefill,
          (bool_iff p.enable_prefix_caching q.enable_prefix_caching).1 h.enable_prefix_caching,
        )
        refl

  require-passed :
      (b : Bool) (m : String) (next : Result (Unit {0}))
      → (require b m >> next) ≡ ok tt
      → (b ≡ true) × (next ≡ ok tt)
  require-passed true m next h = (refl, h)
  require-passed false m next h = cc

  IsFair-passed :
      (left right : RunSpec F)
      → validate_fair_comparison fl left right ≡ ok tt
      → IsFair fl left right
  unfolding validate_fair_comparison
  IsFair-passed left right h =
      let (a, h1) = require-passed _ _ _ h in
      let (b, h2) = require-passed _ _ _ h1 in
      let (c, h3) = require-passed _ _ _ h2 in
      let (d, h4) = require-passed _ _ _ h3 in
      let (e, h5) = require-passed _ _ _ h4 in
      record {
        machine = (text_iff _ _).0 a;
        model = (text_iff _ _).0 b;
        dataset = (text_iff _ _).0 c;
        version = (text_iff _ _).0 d;
        params = params_eq-AreSame _ _ e;
        modes = both_modes-AreBothModes _ _ (require_true _ _ h5);
      }
    where
      require_true : (b : Bool) (m : String) → require b m ≡ ok tt → b ≡ true
      require_true true m h = refl
      require_true false m h = cc

  passed-IsFair :
      (left right : RunSpec F)
      → IsFair fl left right
      → validate_fair_comparison fl left right ≡ ok tt
  unfolding validate_fair_comparison
  passed-IsFair left right f = rw (
    (text_iff left.machine_id right.machine_id).1 f.machine,
    (text_iff left.model_id right.model_id).1 f.model,
    (text_iff left.prompt_dataset right.prompt_dataset).1 f.dataset,
    (text_iff left.benchmark_version right.benchmark_version).1 f.version,
    AreSame-params_eq left.framework_params right.framework_params f.params,
    AreBothModes-both_modes left.runtime_mode right.runtime_mode f.modes,
  )

  -- A comparison is accepted exactly if both runs have the same machine, the same id of the model
  -- (its hash is not compared), the same dataset and benchmark version, and framework parameters
  -- that agree in every field, and one ran in a container and the other on bare metal.
  pub validate_fair_comparison-IsFair :
      (left right : RunSpec F)
      → (validate_fair_comparison fl left right ≡ ok tt) ↔ IsFair fl left right
  validate_fair_comparison-IsFair left right = (IsFair-passed left right, passed-IsFair left right)
