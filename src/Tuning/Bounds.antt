-- ===== src/Tuning/Bounds.antt =====
-- The ranges of the planned candidates.
use inference_lab.Prelude.{
  ℕ, suc, ◌≡◌, refl, ◌≤◌, ◌*◌, ◌-◌, max, true, List, [], ◌∷◌, map, All, All-take, All-append,
  String-eq, arith, length,
}
use inference_lab.Prelude.Int.{ℤ, pos, negsuc}
use inference_lab.Prelude.Float.{Floats}
use inference_lab.Tuning.{FrameworkParams, default_params, slice_to}
use inference_lab.Tuning.Matrix.{
  Pair, requested_pairs, io_pairs, bounded_pairs, matrix_candidate, matrix_from, full_matrix,
  standard_matrix,
}
use inference_lab.Tuning.Matrix.Order.{
  All-sort_by_key, IsSorted, sort_by_key-IsSorted, take-IsSorted,
}
use inference_lab.Tuning.Length.{bounded_pairs_all}

All-slice_to : {A : Type 0} (P : A → Type 0) (n : ℤ) (l : List A) → All P l → All P (slice_to n l)
unfolding slice_to
All-slice_to P (pos n) l h = All-take P n l h
All-slice_to P (negsuc n) l h = All-take P (length l - suc n) l h

slice_to-IsSorted :
    {F : Type 0} (n : ℤ) (l : List (FrameworkParams F)) → IsSorted l → IsSorted (slice_to n l)
unfolding slice_to
slice_to-IsSorted (pos n) l h = take-IsSorted n l h
slice_to-IsSorted (negsuc n) l h = take-IsSorted (length l - suc n) l h

All-map :
    {A B : Type 0} (P : B → Type 0) (f : A → B) (l : List A) → ((a : A) → P (f a)) → All P (map f l)
All-map P f [] h = tt
All-map P f (a ∷ l) h = (h a, All-map P f l h)

-- What every candidate of the matrix meets, with `gpu_count` GPUs.
pub record InMatrix {F : Type 0} (fl : Floats F) (gpu_count : ℕ) (p : FrameworkParams F)
    : Type 0 where
  pub parallel_min : 1 ≤ p.tensor_parallel_size
  pub parallel_max : p.tensor_parallel_size ≤ max gpu_count 1
  pub seqs_min : 1 ≤ p.max_num_seqs
  pub seqs_max : p.max_num_seqs ≤ 32
  pub context_min : 16 ≤ p.max_model_len
  pub tokens_min : 512 ≤ p.max_num_batched_tokens
  pub tokens_max : p.max_num_batched_tokens ≤ 131072
  pub memory : p.gpu_memory_utilization ≡ fl.literal 88 2

abbrev IsBounded : ℕ → Pair → Type 0
IsBounded gpu_count (size, prompts) = (size ≤ max gpu_count 1) × (1 ≤ prompts) × (prompts ≤ 32)

bounded_pairs-IsBounded : (g : ℕ) → All (IsBounded g) (bounded_pairs g [] requested_pairs)
bounded_pairs-IsBounded g = rw (bounded_pairs_all g) (omega arith)

module _ {F : Type 0} (fl : Floats F) (gpu_count : ℕ) where
  matrix_candidate-InMatrix :
      (pair io : Pair)
      → IsBounded gpu_count pair
      → InMatrix fl gpu_count (matrix_candidate fl pair io)
  unfolding matrix_candidate default_params
  matrix_candidate-InMatrix (size, prompts) (input, output) h = record {
    parallel_min = omega arith;
    parallel_max = omega arith;
    seqs_min = h.1;
    seqs_max = h.2;
    context_min = omega arith;
    tokens_min = omega arith;
    tokens_max = omega arith;
    memory = refl;
  }

  matrix_from-InMatrix :
      (pairs ios : List Pair)
      → All (IsBounded gpu_count) pairs
      → All (InMatrix fl gpu_count) (matrix_from fl pairs ios)
  unfolding matrix_from
  matrix_from-InMatrix [] ios h = tt
  matrix_from-InMatrix (pair ∷ pairs) ios h =
      All-append (InMatrix fl gpu_count) _ _
        (All-map (InMatrix fl gpu_count) (matrix_candidate fl pair) ios
          (λ io. matrix_candidate-InMatrix pair io h.0))
        (matrix_from-InMatrix pairs ios h.1)

  -- Whatever the number of GPUs, the points and the bound on trials: every candidate of the
  -- standard matrix is in range, and they stand in the order of context length and then of the
  -- number of sequences.
  pub standard_matrix-InMatrix :
      (max_trials : ℤ) (io_points : List Pair)
      → All (InMatrix fl gpu_count) (standard_matrix fl gpu_count max_trials io_points)
        × IsSorted (standard_matrix fl gpu_count max_trials io_points)
  unfolding standard_matrix full_matrix
  standard_matrix-InMatrix max_trials io_points = (
    All-slice_to (InMatrix fl gpu_count) max_trials _ (
        All-sort_by_key (InMatrix fl gpu_count) _
          (matrix_from-InMatrix _ (io_pairs io_points) (bounded_pairs-IsBounded gpu_count))),
    slice_to-IsSorted max_trials _ (sort_by_key-IsSorted _),
  )

-- The limits that a candidate of intelligent mode meets.
pub record InLimits {F : Type 0} (fl : Floats F) (p : FrameworkParams F) : Type 0 where
  pub parallel : (1 ≤ p.tensor_parallel_size) × (1 ≤ p.pipeline_parallel_size)
  pub sizes : (1 ≤ p.max_model_len) × (1 ≤ p.max_num_seqs) × (1 ≤ p.max_num_batched_tokens)
  pub tokens : p.max_num_seqs * p.max_model_len ≤ 1048576
  pub memory_min : fl.lt (fl.literal 0 0) p.gpu_memory_utilization ≡ true
  pub memory_max : fl.le p.gpu_memory_utilization (fl.literal 94 2) ≡ true
