-- ===== src/Benchmark/Plan/Words.antt =====
-- What a shell reads in the benchmark command of a plan.
use inference_lab.Prelude.{
  ℕ, ◌≡◌, refl, ap, sym, String, true, false, Option, none, some, List, [], ◌∷◌, ◌==◌, String-eq,
}
use inference_lab.Prelude.Float.{Floats}
use inference_lab.Prelude.Text.{codes, join, show}
use inference_lab.Result.{ok, >>=-eq-ok, ok_inj}
use inference_lab.Schemas.{BenchmarkKind, serve, throughput}
use inference_lab.Shell.{all_safe}
use inference_lab.Shell.Lexer.{shell_words}
use inference_lab.Shell.Words.{
  Reads, AllRead, words-join, Reads-quote, IsPlain, Reads-plain, show-IsPlain,
}
use inference_lab.Plugins.{build_launch_command}
use inference_lab.Benchmark.Plan.{
  BenchmarkPlanCreate, BenchmarkCommandPlan, kind_value, result_path_of, rate_parts, kind_parts,
  vllm_parts, planned, build_benchmark_command_plan,
}

module _ {F : Type 0} (fl : Floats F) where
  -- A rate that Python prints with the characters of numbers only.
  abbrev pub RateIsPlain : Option F → Type 0
  RateIsPlain none = Unit
  RateIsPlain (some rate) = IsPlain (fl.to_text rate)

  abbrev rate_words : Option F → List (List ℕ)
  rate_words none = []
  rate_words (some rate) = codes "--request-rate" ∷ codes (fl.to_text rate) ∷ []

  abbrev kind_words : BenchmarkKind → BenchmarkPlanCreate F → List (List ℕ)
  kind_words serve p =
      codes "--backend"
      ∷ codes "vllm"
      ∷ codes "--host"
      ∷ codes p.host
      ∷ codes "--port"
      ∷ codes (show p.port)
      ∷ codes "--random-input-len"
      ∷ codes (show p.input_len)
      ∷ codes "--random-output-len"
      ∷ codes (show p.output_len)
      ∷ codes "--save-result"
      ∷ codes "--result-dir"
      ∷ codes p.result_dir
      ∷ codes "--result-filename"
      ∷ codes p.result_filename
      ∷ rate_words p.request_rate
  kind_words throughput p =
      codes "--input-len"
      ∷ codes (show p.input_len)
      ∷ codes "--output-len"
      ∷ codes (show p.output_len)
      ∷ codes "--output-json"
      ∷ codes (result_path_of fl p)
      ∷ []

  -- The arguments that the program wants the benchmark to have.
  abbrev pub vllm_words : BenchmarkPlanCreate F → String → List (List ℕ)
  vllm_words p model_path =
      codes "vllm"
      ∷ codes "bench"
      ∷ codes (kind_value p.kind)
      ∷ codes "--model"
      ∷ codes model_path
      ∷ codes "--dataset-name"
      ∷ codes p.dataset_name
      ∷ codes "--num-prompts"
      ∷ codes (show p.num_prompts)
      ∷ kind_words p.kind p

  abbrev number : (n : ℕ) → Reads (show n) (codes (show n))
  number n = Reads-plain (show n) (show-IsPlain n)

  rate_parts-AllRead :
      (rate : Option F) → RateIsPlain rate → AllRead (rate_parts fl rate) (rate_words rate)
  unfolding rate_parts all_safe
  rate_parts-AllRead none h = tt
  rate_parts-AllRead (some rate) h =
      (Reads-plain "--request-rate" (refl, refl), (Reads-plain (fl.to_text rate) h, tt))

  kind_parts-AllRead :
      (kind : BenchmarkKind) (p : BenchmarkPlanCreate F)
      → RateIsPlain p.request_rate
      → AllRead (kind_parts fl kind p) (kind_words kind p)
  unfolding kind_parts all_safe
  kind_parts-AllRead serve p h = (
    Reads-plain "--backend" (refl, refl),
    (
      Reads-plain "vllm" (refl, refl),
      (
        Reads-plain "--host" (refl, refl),
        (
          Reads-quote p.host,
          (
            Reads-plain "--port" (refl, refl),
            (
              number p.port,
              (
                Reads-plain "--random-input-len" (refl, refl),
                (
                  number p.input_len,
                  (
                    Reads-plain "--random-output-len" (refl, refl),
                    (
                      number p.output_len,
                      (
                        Reads-plain "--save-result" (refl, refl),
                        (
                          Reads-plain "--result-dir" (refl, refl),
                          (
                            Reads-quote p.result_dir,
                            (
                              Reads-plain "--result-filename" (refl, refl),
                              (Reads-quote p.result_filename, rate_parts-AllRead p.request_rate h),
                            ),
                          ),
                        ),
                      ),
                    ),
                  ),
                ),
              ),
            ),
          ),
        ),
      ),
    ),
  )
  kind_parts-AllRead throughput p h = (
    Reads-plain "--input-len" (refl, refl),
    (
      number p.input_len,
      (
        Reads-plain "--output-len" (refl, refl),
        (
          number p.output_len,
          (Reads-plain "--output-json" (refl, refl), (Reads-quote (result_path_of fl p), tt)),
        ),
      ),
    ),
  )

  Reads-kind_value : (kind : BenchmarkKind) → Reads (kind_value kind) (codes (kind_value kind))
  unfolding all_safe
  Reads-kind_value serve = Reads-plain "serve" (refl, refl)
  Reads-kind_value throughput = Reads-plain "throughput" (refl, refl)

  vllm_parts-AllRead :
      (p : BenchmarkPlanCreate F) (model_path : String)
      → RateIsPlain p.request_rate
      → AllRead (vllm_parts fl p model_path) (vllm_words p model_path)
  unfolding vllm_parts all_safe
  vllm_parts-AllRead p model_path h = (
    Reads-plain "vllm" (refl, refl),
    (
      Reads-plain "bench" (refl, refl),
      (
        Reads-kind_value p.kind,
        (
          Reads-plain "--model" (refl, refl),
          (
            Reads-quote model_path,
            (
              Reads-plain "--dataset-name" (refl, refl),
              (
                Reads-quote p.dataset_name,
                (
                  Reads-plain "--num-prompts" (refl, refl),
                  (number p.num_prompts, kind_parts-AllRead p.kind p h),
                ),
              ),
            ),
          ),
        ),
      ),
    ),
  )

  planned-vllm :
      (p : BenchmarkPlanCreate F) (model_path serve_command : String) (plan : BenchmarkCommandPlan)
      → (p.run_spec.framework == "sglang") ≡ false
      → (p.run_spec.framework == "vllm") ≡ true
      → planned fl p model_path serve_command ≡ ok plan
      → plan.bench_command ≡ join " " (vllm_parts fl p model_path)
  unfolding planned
  planned-vllm p model_path serve_command plan other this h =
      ap (λ (q : BenchmarkCommandPlan). q.bench_command) (sym (ok_inj (rw (other, this) at h)))

  -- The shell reads a planned vLLM benchmark command as exactly the words of the request, whatever
  -- characters its model path, host, dataset and result paths hold, if a request rate that it has is
  -- printed with plain characters.
  pub build_benchmark_command_plan-words :
      (p : BenchmarkPlanCreate F) (model_path : String) (plan : BenchmarkCommandPlan)
      → p.run_spec.framework ≡ "vllm"
      → RateIsPlain p.request_rate
      → build_benchmark_command_plan fl p model_path ≡ ok plan
      → shell_words (codes plan.bench_command) ≡ some (vllm_words p model_path)
  unfolding build_benchmark_command_plan
  build_benchmark_command_plan-words p model_path plan e r h =
      let (serve_command, launched, built) = >>=-eq-ok (build_launch_command fl p.run_spec) _ h in
      rw
        (planned-vllm p model_path serve_command plan (ap (λ f. f == "sglang") e)
          (ap (λ f. f == "vllm") e) built)
        (words-join (vllm_parts fl p model_path) (vllm_words p model_path)
          (vllm_parts-AllRead p model_path r))
