-- ===== src/Prelude/Lists.antt =====
-- Lists measured by native numbers, predicates on lists, and association lists for `dict`.
use Prim.Native.Nat.{ℕ, zero, suc, ◌+◌, ◌≤◌, ◌<◌}
use Prim.Native.String.{String}
use mathlib.Core.Path.{◌≡◌, refl, ap, sym, subst}
use mathlib.Core.Bool.{Bool, true, false, ◌&&◌, ◌||◌}
use mathlib.Core.List.{List, [], ◌∷◌, ◌++◌, map}
use mathlib.Core.Option.{Option, none, some}
use native.Mathlib.Omega.{arith}
use mathlib.Core.Logic.{inl, inr}
use inference_lab.Prelude.Tests.{Bool-cases, ◌==◌, if◌then◌else◌, String-eq, text_iff}

or_assoc : (a b c : Bool) → a || (b || c) ≡ (a || b) || c
or_assoc true b c = refl
or_assoc false b c = refl

module _ {ℓ} {A : Type ℓ} where
  abbrev pub length : List A → ℕ
  length [] = 0
  length (x ∷ xs) = suc (length xs)

  abbrev pub take : ℕ → List A → List A
  take zero xs = []
  take (suc n) [] = []
  take (suc n) (x ∷ xs) = x ∷ take n xs

  abbrev pub any : (A → Bool) → List A → Bool
  any p [] = false
  any p (x ∷ xs) = p x || any p xs

  abbrev pub all : (A → Bool) → List A → Bool
  all p [] = true
  all p (x ∷ xs) = p x && all p xs

  -- A comprehension `[x for x in xs if p(x)]`.
  abbrev pub keep : (A → Bool) → List A → List A
  keep p [] = []
  keep p (x ∷ xs) = let rest = keep p xs in if p x then x ∷ rest else rest

  pub length-append : (xs ys : List A) → length (xs ++ ys) ≡ length xs + length ys
  length-append [] ys = omega arith
  length-append (x ∷ xs) ys = omega (arith, length-append xs ys)

  pub any-append : (p : A → Bool) (xs ys : List A) → any p (xs ++ ys) ≡ any p xs || any p ys
  any-append p [] ys = refl
  any-append p (x ∷ xs) ys = rw (any-append p xs ys) (or_assoc (p x) (any p xs) (any p ys))

  pub length-take_le : (n : ℕ) (xs : List A) → length (take n xs) ≤ n
  length-take_le zero xs = omega arith
  length-take_le (suc n) [] = omega arith
  length-take_le (suc n) (x ∷ xs) = omega (arith, length-take_le n xs)

module _ {ℓ κ} {A : Type ℓ} where
  abbrev pub All : (A → Type κ) → List A → Type κ
  All P [] = Unit
  All P (x ∷ xs) = P x × All P xs

module _ {ℓ κ} {A : Type ℓ} (P : A → Type κ) where
  pub All-append : (xs ys : List A) → All P xs → All P ys → All P (xs ++ ys)
  All-append [] ys hx hy = hy
  All-append (x ∷ xs) ys hx hy = (hx.0, All-append xs ys hx.1 hy)

  pub All-take : (n : ℕ) (xs : List A) → All P xs → All P (take n xs)
  All-take zero xs h = tt
  All-take (suc n) [] h = tt
  All-take (suc n) (x ∷ xs) h = (h.0, All-take n xs h.1)

-- What passes a test, in a list that had a property, has what the two together give.
module _ {ℓ κ μ} {A : Type ℓ} (p : A → Bool) (P : A → Type κ) (Q : A → Type μ)
    (both : (a : A) → P a → p a ≡ true → Q a) where
  pub All-keep : (l : List A) → All P l → All Q (keep p l)
  All-keep [] h = tt
  All-keep (a ∷ l) h = elim (Bool-cases (p a)) [
    | inl passes ↦ rw passes (both a h.0 passes, All-keep l h.1)
    | inr fails ↦ rw fails (All-keep l h.1)
  ]

module _ {ℓ} {A : Type ℓ} where
  pub All-Unit : (l : List A) → All (λ _. Unit {0}) l
  All-Unit [] = tt
  All-Unit (a ∷ l) = (tt, All-Unit l)

-- A `dict` with text keys, in insertion order. `put` keeps the place of a key that is there.
module _ {ℓ} {V : Type ℓ} where
  abbrev pub get : String → List (String × V) → Option V
  get k [] = none
  get k ((j, v) ∷ m) = if j == k then some v else get k m

  abbrev pub put : String → V → List (String × V) → List (String × V)
  put k v [] = (k, v) ∷ []
  put k v ((j, w) ∷ m) = if j == k then (j, v) ∷ m else (j, w) ∷ put k v m

  -- The `dict` of a list of items, by which a comprehension or a literal is built.
  abbrev pub dict_from : List (String × V) → List (String × V) → List (String × V)
  dict_from m [] = m
  dict_from m ((k, v) ∷ more) = dict_from (put k v m) more

  pub get-put :
      (k j : String) (v : V) (m : List (String × V))
      → get j (put k v m) ≡ (if k == j then some v else get j m)
  get-put k j v [] = refl
  get-put k j v ((i, w) ∷ m) =
      ground (arith, text_iff k j, text_iff i k, text_iff i j, get-put k j v m)

  pub get-put_same : (k : String) (v : V) (m : List (String × V)) → get k (put k v m) ≡ some v
  get-put_same k v m = rw (get-put k k v m, (text_iff k k).1 refl)

-- Over a small range, a property of numbers is checked value by value.
unfoldable pub holds_below : ℕ → (ℕ → Bool) → Bool
holds_below zero p = true
holds_below (suc n) p = p n && holds_below n p

pub holds_below_sound : (n : ℕ) (p : ℕ → Bool) (x : ℕ) → holds_below n p ≡ true → x < n → p x ≡ true
unfolding holds_below
holds_below_sound zero p x h lt = absurd (omega arith)
holds_below_sound (suc n) p x h lt = ground (arith, holds_below_sound n p x)

pub map-append {ℓ κ} :
    {A : Type ℓ} {B : Type κ} (f : A → B) (l k : List A) → map f (l ++ k) ≡ map f l ++ map f k
map-append f [] k = refl
map-append f (x ∷ l) k = ap (λ r. f x ∷ r) (map-append f l k)

module _ {ℓ κ μ} {A : Type ℓ} (P : A → Type κ) (Q : A → Type μ) (weaker : (a : A) → P a → Q a) where
  pub All-weaken : (l : List A) → All P l → All Q l
  All-weaken [] h = tt
  All-weaken (a ∷ l) h = (weaker a h.0, All-weaken l h.1)

module _ {ℓ} {A : Type ℓ} (p : A → Bool) where
  pub All-not_any : (l : List A) → any p l ≡ false → All (λ a. p a ≡ false) l
  All-not_any [] h = tt
  All-not_any (a ∷ l) h = elim (Bool-cases (p a)) [
    | inl passes ↦ cc (rw passes at h)
    | inr fails ↦ (fails, All-not_any l (rw fails at h))
  ]

-- Whether a key is in a `dict`, and what every item of one has.
module _ {ℓ} {V : Type ℓ} where
  abbrev pub has : String → List (String × V) → Bool
  has k [] = false
  has k ((j, v) ∷ m) = j == k || has k m

  pub get-has : (k : String) (m : List (String × V)) {v : V} → get k m ≡ some v → has k m ≡ true
  get-has k [] h = cc
  get-has k ((j, w) ∷ m) h = elim (Bool-cases (j == k)) [
    | inl same ↦ rw same refl
    | inr other ↦ rw other (get-has k m (rw other at h))
  ]

  pub has-put :
      (k j : String) (v : V) (m : List (String × V)) → has k (put j v m) ≡ (j == k || has k m)
  has-put k j v [] = refl
  has-put k j v ((i, w) ∷ m) = elim (Bool-cases (i == j)) [
    | inl same ↦ rw (same, (text_iff i j).0 same) (same_or (j == k) (has k m))
    | inr other ↦ rw (other, has-put k j v m) (or_swap (i == k) (j == k) (has k m))
  ]
    where
      same_or : (a b : Bool) → a || b ≡ a || (a || b)
      same_or true b = refl
      same_or false b = refl

      or_swap : (a b c : Bool) → a || (b || c) ≡ b || (a || c)
      or_swap true true c = refl
      or_swap true false c = refl
      or_swap false b c = refl

  pub has-put_more :
      (k j : String) (v : V) (m : List (String × V)) → has k m ≡ true → has k (put j v m) ≡ true
  has-put_more k j v m h = rw (has-put k j v m, h) (or_true (j == k))
    where
      or_true : (a : Bool) → a || true ≡ true
      or_true true = refl
      or_true false = refl

module _ {ℓ κ} {V : Type ℓ} (P : String × V → Type κ) where
  pub All-put :
      (k : String) (v : V) (m : List (String × V)) → P (k, v) → All P m → All P (put k v m)
  All-put k v [] p h = (p, tt)
  All-put k v ((j, w) ∷ m) p h = elim (Bool-cases (j == k)) [
    | inl same ↦ rw same (subst (λ i. P (i, v)) (sym ((text_iff j k).0 same)) p, h.1)
    | inr other ↦ rw other (h.0, All-put k v m p h.1)
  ]

  pub All-get : (k : String) (m : List (String × V)) {v : V} → get k m ≡ some v → All P m → P (k, v)
  All-get k [] e h = cc
  All-get k ((j, w) ∷ m) {v} e h = elim (Bool-cases (j == k)) [
    | inl same ↦
        subst (λ i. P (i, v)) ((text_iff j k).0 same)
          (subst (λ x. P (j, x)) (some_inj (rw same at e)) h.0)
    | inr other ↦ All-get k m (rw other at e) h.1
  ]
    where
      some_inj : {a b : V} → some a ≡ some b → a ≡ b
      some_inj q = cc
