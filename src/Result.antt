-- ===== src/Result.antt =====
-- Python's exceptions as values: a function that may raise returns a `Result`.
use inference_lab.Prelude.Text.{◌<>◌, show}
use inference_lab.Prelude.{Option, none, some, ℕ, String, ◌≡◌, refl, ◌⊎◌, inl, inr}

pub data Exception : Type 0 where
  value_error runtime_error key_error other_error : String → Exception
  http_exception : (status_code : ℕ) → (detail : String) → Exception

-- `str(exc)`
abbrev pub message : Exception → String
message (value_error s) = s
message (runtime_error s) = s
message (key_error s) = "'" <> (s <> "'")
message (other_error s) = s
message (http_exception c s) = show c <> (": " <> s)

pub data Result {κ} (X : Type κ) : Type κ where
  err : Exception → Result X
  ok : X → Result X

pub Result-cases {ℓ} :
    {A : Type ℓ} (r : Result A) → ((a : A) × (r ≡ ok a)) ⊎ ((e : Exception) × (r ≡ err e))
Result-cases (ok a) = inl (a, refl)
Result-cases (err e) = inr (e, refl)

pub ok_inj {ℓ} : {A : Type ℓ} {a b : A} → ok a ≡ ok b → a ≡ b
ok_inj h = cc

infixl 5 ◌>>◌ ◌>>=◌
-- The statements that follow are skipped once one has raised.
abbrev pub ◌>>=◌ {κ μ} : {X : Type κ} {Y : Type μ} → Result X → (X → Result Y) → Result Y
err raised >>= next = err raised
ok x >>= next = next x

-- A chain that ends well has a first part that ended well, and the rest did on its value.
pub >>=-eq-ok {κ μ} :
    {X : Type κ} {Y : Type μ} (first : Result X) (next : X → Result Y) {y : Y}
    → (first >>= next) ≡ ok y
    → (x : X) × (first ≡ ok x) × (next x ≡ ok y)
>>=-eq-ok (err raised) next e = cc
>>=-eq-ok (ok x) next e = (x, refl, e)

abbrev pub ◌>>◌ {μ} : {Y : Type μ} → Result (Unit {0}) → Result Y → Result Y
err raised >> next = err raised
ok done >> next = next

-- `d[key]`, given what `d.get(key)` finds.
abbrev pub or_key_error {ℓ} : {A : Type ℓ} → String → Option A → Result A
or_key_error key none = err (key_error key)
or_key_error key (some a) = ok a

pub or_key_error-eq-ok {ℓ} :
    {A : Type ℓ} (key : String) (o : Option A) {a : A} → or_key_error key o ≡ ok a → o ≡ some a
or_key_error-eq-ok key none h = cc
or_key_error-eq-ok key (some b) h = cc
