-- ===== src/Tuning/Matrix/Order.antt =====
-- The sort of `standard_matrix`: it orders by the key, and only reorders.
use mathlib.Core.List.Perm
use mathlib.Core.List.{Perm}
use inference_lab.Prelude.{
  ℕ, ◌≡◌, ◌≤◌, ◌<◌, ◌⊎◌, inl, inr, true, false, List, [], ◌∷◌, ℕ-eq, arith, All, All-take,
  Bool-cases, take, zero, suc,
}
use inference_lab.Tuning.{FrameworkParams}
use inference_lab.Tuning.Matrix.{key_le, insert_by_key, sort_by_key}

-- The context length decides, and among equal ones the number of sequences.
abbrev pub KeyLe : {F : Type 0} → FrameworkParams F → FrameworkParams F → Type 0
KeyLe p q =
    (p.max_model_len < q.max_model_len)
    ⊎ ((p.max_model_len ≡ q.max_model_len) × (p.max_num_seqs ≤ q.max_num_seqs))

abbrev pub IsSorted : {F : Type 0} → List (FrameworkParams F) → Type 0
IsSorted [] = Unit
IsSorted (p ∷ l) = All (KeyLe p) l × IsSorted l

module _ {F : Type 0} where
  key_le-true : (p q : FrameworkParams F) → key_le p q ≡ true → KeyLe p q
  key_le-true p q h = ground arith

  key_le-false : (p q : FrameworkParams F) → key_le p q ≡ false → KeyLe q p
  key_le-false p q h = ground arith

  KeyLe-trans : (p q r : FrameworkParams F) → KeyLe p q → KeyLe q r → KeyLe p r
  KeyLe-trans p q r h k = omega arith

  All-trans :
      (p q : FrameworkParams F) (l : List (FrameworkParams F))
      → KeyLe p q
      → All (KeyLe q) l
      → All (KeyLe p) l
  All-trans p q [] h k = tt
  All-trans p q (r ∷ l) h k = (KeyLe-trans p q r h k.0, All-trans p q l h k.1)

  -- What holds of an element and of a list holds of the list with the element inserted.
  pub All-insert_by_key :
      (P : FrameworkParams F → Type 0) (p : FrameworkParams F) (l : List (FrameworkParams F))
      → P p
      → All P l
      → All P (insert_by_key p l)
  unfolding insert_by_key
  All-insert_by_key P p [] h k = (h, tt)
  All-insert_by_key P p (q ∷ l) h k = elim (Bool-cases (key_le p q)) [
    | inl before ↦ rw before (h, (k.0, k.1))
    | inr after ↦ rw after (k.0, All-insert_by_key P p l h k.1)
  ]

  pub All-sort_by_key :
      (P : FrameworkParams F → Type 0) (l : List (FrameworkParams F))
      → All P l
      → All P (sort_by_key l)
  unfolding sort_by_key
  All-sort_by_key P [] h = tt
  All-sort_by_key P (p ∷ l) h = All-insert_by_key P p (sort_by_key l) h.0 (All-sort_by_key P l h.1)

  insert_by_key-IsSorted :
      (p : FrameworkParams F) (l : List (FrameworkParams F))
      → IsSorted l
      → IsSorted (insert_by_key p l)
  unfolding insert_by_key
  insert_by_key-IsSorted p [] h = (tt, tt)
  insert_by_key-IsSorted p (q ∷ l) h = elim (Bool-cases (key_le p q)) [
    | inl before ↦
        rw before
          ((key_le-true p q before, All-trans p q l (key_le-true p q before) h.0), (h.0, h.1))
    | inr after ↦ rw after (
      All-insert_by_key (KeyLe q) p l (key_le-false p q after) h.0,
      insert_by_key-IsSorted p l h.1,
    )
  ]

  pub sort_by_key-IsSorted : (l : List (FrameworkParams F)) → IsSorted (sort_by_key l)
  unfolding sort_by_key
  sort_by_key-IsSorted [] = tt
  sort_by_key-IsSorted (p ∷ l) = insert_by_key-IsSorted p (sort_by_key l) (sort_by_key-IsSorted l)

  insert_by_key-perm :
      (p : FrameworkParams F) (l : List (FrameworkParams F)) → Perm (insert_by_key p l) (p ∷ l)
  unfolding insert_by_key
  insert_by_key-perm p [] = Perm.refl (p ∷ [])
  insert_by_key-perm p (q ∷ l) = elim (Bool-cases (key_le p q)) [
    | inl before ↦ rw before (Perm.refl (p ∷ q ∷ l))
    | inr after ↦ rw after (Perm.trans (Perm.cons q (insert_by_key-perm p l)) (Perm.swap p q l))
  ]

  pub sort_by_key-perm : (l : List (FrameworkParams F)) → Perm (sort_by_key l) l
  unfolding sort_by_key
  sort_by_key-perm [] = Perm.refl []
  sort_by_key-perm (p ∷ l) =
      Perm.trans (insert_by_key-perm p (sort_by_key l)) (Perm.cons p (sort_by_key-perm l))

  pub take-IsSorted : (n : ℕ) (l : List (FrameworkParams F)) → IsSorted l → IsSorted (take n l)
  take-IsSorted zero l h = tt
  take-IsSorted (suc n) [] h = tt
  take-IsSorted (suc n) (p ∷ l) h = (All-take (KeyLe p) n l h.0, take-IsSorted n l h.1)
