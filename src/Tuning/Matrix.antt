-- ===== src/Tuning/Matrix.antt =====
-- `standard_matrix` of backend/src/inflab/tuning.py.
pub mod Order
use inference_lab.Prelude.{
  ℕ, ◌*◌, ◌+◌, max, min, String, Bool, true, false, ◌&&◌, ◌||◌, not, List, [], ◌∷◌, ◌++◌, map, leb,
  ltb, ◌==◌, ℕ-eq, if◌then◌else◌, any,
}
use inference_lab.Prelude.Int.{ℤ}
use inference_lab.Prelude.Float.{Floats}
use inference_lab.Tuning.{FrameworkParams, default_params, slice_to}

abbrev pub Pair : Type 0
Pair = ℕ × ℕ

abbrev default_io_points : List Pair
default_io_points = (512, 512) ∷ (2048, 2048) ∷ (16384, 16384) ∷ (50000, 50000) ∷ []

abbrev pub requested_pairs : List Pair
requested_pairs = (1, 1) ∷ (4, 4) ∷ (8, 8) ∷ (16, 16) ∷ (32, 32) ∷ []

-- `io_points or default_io_points`
unfoldable pub io_pairs : List Pair → List Pair
io_pairs [] = default_io_points
io_pairs (p ∷ points) = p ∷ points

abbrev same_pair : Pair → Pair → Bool
same_pair (a, b) (c, d) = a == c && b == d

-- The loop that collects `parallel_pairs`, without repetitions.
unfoldable pub bounded_pairs : ℕ → List Pair → List Pair → List Pair
bounded_pairs gpu_count found [] = found
bounded_pairs gpu_count found ((size, prompts) ∷ more) =
    let pair : Pair = (min (max gpu_count 1) size, prompts) in
    bounded_pairs gpu_count (if any (same_pair pair) found then found else found ++ pair ∷ []) more

module _ {F : Type 0} where
  -- The order of the sort key `(max_model_len, max_num_seqs)`.
  abbrev pub key_le : FrameworkParams F → FrameworkParams F → Bool
  key_le p q =
      ltb p.max_model_len q.max_model_len
      || (p.max_model_len == q.max_model_len && leb p.max_num_seqs q.max_num_seqs)

  -- A stable sort, as `list.sort` is.
  unfoldable pub insert_by_key :
      FrameworkParams F → List (FrameworkParams F) → List (FrameworkParams F)
  insert_by_key p [] = p ∷ []
  insert_by_key p (q ∷ l) =
      let rest = insert_by_key p l in if key_le p q then p ∷ q ∷ l else q ∷ rest

  unfoldable pub sort_by_key : List (FrameworkParams F) → List (FrameworkParams F)
  sort_by_key [] = []
  sort_by_key (p ∷ l) = insert_by_key p (sort_by_key l)

module _ {F : Type 0} (fl : Floats F) where
  unfoldable pub matrix_candidate : Pair → Pair → FrameworkParams F
  matrix_candidate (parallel_size, num_prompts) (input_len, output_len) =
      let required_context = input_len + output_len + 16 in
      record (default_params fl) {
        tensor_parallel_size = max parallel_size 1;
        gpu_memory_utilization = fl.literal 88 2;
        max_model_len = required_context;
        max_num_seqs = num_prompts;
        max_num_batched_tokens = min (max (required_context * num_prompts) 512) 131072;
      }

  unfoldable pub matrix_from : List Pair → List Pair → List (FrameworkParams F)
  matrix_from [] ios = []
  matrix_from (pair ∷ pairs) ios = map (matrix_candidate pair) ios ++ matrix_from pairs ios

  unfoldable pub full_matrix : ℕ → List Pair → List (FrameworkParams F)
  full_matrix gpu_count io_points =
      matrix_from (bounded_pairs gpu_count [] requested_pairs) (io_pairs io_points)

  unfoldable pub standard_matrix : ℕ → ℤ → List Pair → List (FrameworkParams F)
  standard_matrix gpu_count max_trials io_points =
      slice_to max_trials (sort_by_key (full_matrix gpu_count io_points))
