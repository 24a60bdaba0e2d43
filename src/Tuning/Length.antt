-- ===== src/Tuning/Length.antt =====
-- How many candidates a plan has.
use inference_lab.Prelude.{
  ℕ, zero, suc, ◌≡◌, refl, sym, ◌*◌, ◌-◌, max, min, List, [], ◌∷◌, map, arith, Bool-cases, inl, inr,
  length, length-append, ap, ◌∙◌, take,
}
use inference_lab.Prelude.Int.{ℤ, pos, negsuc}
use inference_lab.Prelude.Float.{Floats}
use inference_lab.Tuning.{FrameworkParams, slice_to}
use inference_lab.Tuning.Matrix.{
  Pair, requested_pairs, io_pairs, bounded_pairs, matrix_candidate, matrix_from, full_matrix,
  insert_by_key, sort_by_key, key_le, standard_matrix,
}
use inference_lab.Tuning.Planning.{Rng, plan_candidates}

length-map : {A B : Type 0} (f : A → B) (l : List A) → length (map f l) ≡ length l
length-map f [] = refl
length-map f (a ∷ l) = ap suc (length-map f l)

length-take : {A : Type 0} (n : ℕ) (l : List A) → length (take n l) ≡ min n (length l)
length-take zero l = omega arith
length-take (suc n) [] = omega arith
length-take (suc n) (a ∷ l) = omega (arith, length-take n l)

-- How many elements `items[:n]` has, of `total`.
abbrev pub sliced : ℤ → ℕ → ℕ
sliced (pos n) total = min n total
sliced (negsuc n) total = total - suc n

pub length-slice_to :
    {A : Type 0} (n : ℤ) (l : List A) → length (slice_to n l) ≡ sliced n (length l)
unfolding slice_to
length-slice_to (pos n) l = length-take n l
length-slice_to (negsuc n) l = omega (arith, length-take (length l - suc n) l)

take_upto : {A : Type 0} (n m : ℕ) (l : List A) → m ≡ min n (length l) → take n l ≡ take m l
take_upto zero zero l e = refl
take_upto zero (suc m) l e = absurd (omega arith)
take_upto (suc n) zero [] e = refl
take_upto (suc n) (suc m) [] e = refl
take_upto (suc n) zero (a ∷ l) e = absurd (omega arith)
take_upto (suc n) (suc m) (a ∷ l) e = ap (λ r. a ∷ r) (take_upto n m l (omega arith))

-- A slice of 20 elements is a prefix.
slice_to-take :
    {A : Type 0} (n : ℤ) (l : List A) → length l ≡ 20 → slice_to n l ≡ take (sliced n 20) l
unfolding slice_to
slice_to-take (pos n) l known = take_upto n (min n 20) l (ap (min n) (sym known))
slice_to-take (negsuc n) l known = ap (λ k. take (k - suc n) l) known

module _ {F : Type 0} where
  length-insert_by_key :
      (p : FrameworkParams F) (l : List (FrameworkParams F))
      → length (insert_by_key p l) ≡ suc (length l)
  unfolding insert_by_key
  length-insert_by_key p [] = refl
  length-insert_by_key p (q ∷ l) = elim (Bool-cases (key_le p q)) [
    | inl before ↦ rw before
    | inr after ↦ rw after (ap suc (length-insert_by_key p l))
  ]

  length-sort_by_key : (l : List (FrameworkParams F)) → length (sort_by_key l) ≡ length l
  unfolding sort_by_key
  length-sort_by_key [] = refl
  length-sort_by_key (p ∷ l) =
      length-insert_by_key p (sort_by_key l) ∙ ap suc (length-sort_by_key l)

abbrev pub bounded : ℕ → Pair → Pair
bounded g (size, prompts) = (min (max g 1) size, prompts)

-- The requested pairs differ in their second parts, so none is left out.
pub bounded_pairs_all :
    (g : ℕ) → bounded_pairs g [] requested_pairs ≡ map (bounded g) requested_pairs
unfolding bounded_pairs
bounded_pairs_all g = ground arith

module _ {F : Type 0} (fl : Floats F) where
  length-matrix_from :
      (pairs ios : List Pair) → length (matrix_from fl pairs ios) ≡ length pairs * length ios
  unfolding matrix_from
  length-matrix_from [] ios = omega arith
  length-matrix_from (pair ∷ pairs) ios = omega (
    arith,
    length-append (map (matrix_candidate fl pair) ios) (matrix_from fl pairs ios),
    length-map (matrix_candidate fl pair) ios,
    length-matrix_from pairs ios,
  )

  length-standard_matrix :
      (g : ℕ) (n : ℤ) (points : List Pair)
      → length (standard_matrix fl g n points) ≡ sliced n (5 * length (io_pairs points))
  unfolding standard_matrix full_matrix
  length-standard_matrix g n points =
      length-slice_to n
        (sort_by_key (matrix_from fl (bounded_pairs g [] requested_pairs) (io_pairs points)))
      ∙ ap (sliced n) (
          length-sort_by_key (matrix_from fl (bounded_pairs g [] requested_pairs) (io_pairs points))
          ∙ length-matrix_from (bounded_pairs g [] requested_pairs) (io_pairs points)
          ∙ ap (λ l. length l * length (io_pairs points)) (bounded_pairs_all g))

  whole_taken : (l : List (FrameworkParams F)) → length l ≡ 20 → take 20 l ≡ l
  whole_taken l known = ap (λ k. take k l) (sym known) ∙ take_whole l
    where
      take_whole : (l : List (FrameworkParams F)) → take (length l) l ≡ l
      take_whole [] = refl
      take_whole (a ∷ l) = ap (λ r. a ∷ r) (take_whole l)

  length-sorted : (g : ℕ) → length (sort_by_key (full_matrix fl g [])) ≡ 20
  unfolding full_matrix io_pairs
  length-sorted g =
      length-sort_by_key (matrix_from fl (bounded_pairs g [] requested_pairs) (io_pairs []))
      ∙ length-matrix_from (bounded_pairs g [] requested_pairs) (io_pairs [])
      ∙ ap (λ l. length l * length (io_pairs [])) (bounded_pairs_all g)

  -- A budget of 20 trials plans 20 candidates in standard mode. A budget of `n` trials plans the
  -- first `n` of those, all of them if `n` is larger, and one of -k trials all but the last k.
  pub length-plan_candidates_standard :
      (rng : Rng F) (g : ℕ) (n : ℤ) (llm : List (FrameworkParams F))
      → (length (plan_candidates fl rng g (pos 20) llm "standard").1 ≡ 20)
        × ((plan_candidates fl rng g n llm "standard").1
            ≡ take (sliced n 20) (plan_candidates fl rng g (pos 20) llm "standard").1)
        × (length (plan_candidates fl rng g n llm "standard").1 ≡ sliced n 20)
  unfolding plan_candidates io_pairs standard_matrix slice_to
  length-plan_candidates_standard rng g n llm =
      let whole = sort_by_key (full_matrix fl g []) in
      let known = length-sorted g in
      (
        length-standard_matrix g (pos 20) [],
        slice_to-take n whole known ∙ ap (take (sliced n 20)) (sym (whole_taken whole known)),
        length-standard_matrix g n [],
      )
