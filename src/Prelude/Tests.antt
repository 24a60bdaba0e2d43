-- ===== src/Prelude/Tests.antt =====
-- Boolean tests on native numbers and texts, and the conditional.
use Prim.Native.Nat.{ℕ, compare, Ordering}
use Prim.Native.String.{String}
use mathlib.Core.Path.{◌≡◌, refl}
use mathlib.Core.Logic.{◌↔◌, ◌⊎◌, inl, inr}
use mathlib.Core.Bool.{Bool, true, false, ◌&&◌, ◌||◌}
use mathlib.Core.Option.{Option, none, some}
use native.Mathlib.Omega.{arith}
use text.Mathlib.Text.{◌==◌ as text_eq}
use text.Mathlib.TextEquality.{eq_iff}

abbrev pub ltb : ℕ → ℕ → Bool
ltb a b = elim (compare a b) [ Ordering.lt ↦ true | _ ↦ false ]

abbrev pub leb : ℕ → ℕ → Bool
leb a b = elim (compare a b) [ Ordering.gt ↦ false | _ ↦ true ]

abbrev nat_eqb : ℕ → ℕ → Bool
nat_eqb a b = elim (compare a b) [ Ordering.eq ↦ true | _ ↦ false ]

pub nat_eqb_iff : (a b : ℕ) → (nat_eqb a b ≡ true) ↔ (a ≡ b)
nat_eqb_iff a b = ground arith

-- Types that the program compares with `==`.
pub record Eq {ℓ} (X : Type ℓ) : Type ℓ where
  pub same : X → X → Bool
  pub same_iff : (x y : X) → (same x y ≡ true) ↔ (x ≡ y)

instance abbrev pub String-eq : Eq String
String-eq = record { same = text_eq; same_iff = eq_iff }

instance abbrev pub ℕ-eq : Eq ℕ
ℕ-eq = record { same_iff = nat_eqb_iff; same = nat_eqb }

infix 50 ◌==◌
abbrev pub ◌==◌ {κ} : {X : Type κ} ⦃eq : Eq X⦄ → X → X → Bool
◌==◌ ⦃eq⦄ = eq.same

pub text_iff : (s t : String) → ((s == t) ≡ true) ↔ (s ≡ t)
text_iff = eq_iff

infix 1 if◌then◌else◌
abbrev pub if◌then◌else◌ {ℓ} : {A : Type ℓ} → Bool → A → A → A
if true then x else y = x
if false then x else y = y

-- To split on a computed value and keep the equation.
pub Bool-cases : (b : Bool) → (b ≡ true) ⊎ (b ≡ false)
Bool-cases true = inl refl
Bool-cases false = inr refl

pub Option-cases {ℓ} : {A : Type ℓ} (o : Option A) → (o ≡ none) ⊎ ((a : A) × (o ≡ some a))
Option-cases none = inl refl
Option-cases (some a) = inr (a, refl)

pub and_split : (a b : Bool) → a && b ≡ true → (a ≡ true) × (b ≡ true)
and_split true b h = (refl, h)
and_split false b h = cc

pub and_join : (a b : Bool) → a ≡ true → b ≡ true → a && b ≡ true
and_join true b h k = k
and_join false b h k = cc

pub or_left : (a b : Bool) → a ≡ true → a || b ≡ true
or_left true b h = refl
or_left false b h = cc

pub or_false : (a : Bool) → a || false ≡ a
or_false true = refl
or_false false = refl

pub or_split : (a b : Bool) → a || b ≡ false → (a ≡ false) × (b ≡ false)
or_split true b h = cc
or_split false b h = (refl, h)
