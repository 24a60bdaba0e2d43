-- ===== src/Database/Session.antt =====
-- backend/src/inflab/db/session.py and the sessions of api/v1.py: actions on the tables that a
-- request sees, the tables that are committed, and the world outside.
use inference_lab.Prelude.{ℕ, suc, String, ◌≡◌, refl, ◌≡◌, refl, Option, none, some}
use inference_lab.Prelude.Text.{◌<>◌}
use inference_lab.Result.{Result, ok, err, http_exception, Exception}
use inference_lab.Database.{Tables}

-- `made` counts the ids that `new_id` has given.
pub record Session (F W : Type 0) : Type 0 where
  pub pending : Tables F
  pub saved : Tables F
  pub made : ℕ
  pub world : W

-- What a handler does: it returns a value or raises, and what it did to the session stays.
abbrev pub Action : Type 0 → Type 0 → Type 0 → Type 0
Action F W A = Session F W → Result A × Session F W

module _ {F W : Type 0} where
  abbrev pub return : {A : Type 0} → A → Action F W A
  return a s = (ok a, s)

  abbrev pub raise : {A : Type 0} → Exception → Action F W A
  raise exc s = (err exc, s)

  abbrev pub lift : {A : Type 0} → Result A → Action F W A
  lift r s = (r, s)

  -- What reads the tables that the session sees, and what changes them.
  abbrev pub reads : {A : Type 0} → (Tables F → A) → Action F W A
  reads f s = (ok (f s.pending), s)

  abbrev pub change : (Tables F → Tables F) → Action F W (Unit {0})
  change f s = (ok tt, record s { pending = f s.pending })

  -- `session.commit()`
  abbrev pub commit : Action F W (Unit {0})
  commit s = (ok tt, record s { saved = s.pending })

  -- The end of a request: what was not committed is rolled back.
  unfoldable pub closed_session : Session F W → Session F W
  closed_session s = record s { pending = s.saved }

  abbrev pub outside : {A : Type 0} → (W → A × W) → Action F W A
  outside f s = let (a, w) = f s.world in (ok a, record s { world = w })

  abbrev pub outside_or_raise : {A : Type 0} → (W → Result A × W) → Action F W A
  outside_or_raise f s = let (r, w) = f s.world in (r, record s { world = w })

  -- `_not_found`
  abbrev pub not_found : {A : Type 0} → String → Action F W A
  not_found entity = raise (http_exception 404 (entity <> " not found"))

  abbrev pub found : {A : Type 0} → String → Option A → Action F W A
  found entity none = not_found entity
  found entity (some a) = return a

infixl 5 ◌>>=◌ ◌>>◌
abbrev pub then_on :
    {F W A B : Type 0} → (A → Action F W B) → Result A × Session F W → Result B × Session F W
then_on next (err exc, s) = (err exc, s)
then_on next (ok a, s) = next a s

abbrev pub ◌>>=◌ : {F W A B : Type 0} → Action F W A → (A → Action F W B) → Action F W B
◌>>=◌ action next s = then_on next (action s)

abbrev pub ◌>>◌ : {F W A B : Type 0} → Action F W A → Action F W B → Action F W B
action >> next = action >>= λ _. next

-- A property of the tables that a session sees and of the committed ones.
abbrev pub Holds : {F W : Type 0} → (Tables F → Type 0) → Session F W → Type 0
Holds P s = P s.pending × P s.saved

-- The id of a new row, which `new_id` gives.
abbrev pub fresh : {F W : Type 0} → (ℕ → String) → Action F W String
fresh new_id s = (ok (new_id s.made), record s { made = suc s.made })

-- An action that ends well has a first part that ended well, and the rest did from there.
pub then-eq-ok :
    {F W A B : Type 0} (action : Action F W A) (next : A → Action F W B) (s t : Session F W) {b : B}
    → (action >>= next) s ≡ (ok b, t)
    → (a : A) × (u : Session F W) × (action s ≡ (ok a, u)) × (next a u ≡ (ok b, t))
then-eq-ok {F} {W} {A} {B} action next s t {b} h = go (action s) refl h
  where
    go :
        (r : Result A × Session F W)
        → action s ≡ r
        → then_on next r ≡ (ok b, t)
        → (a : A) × (u : Session F W) × (action s ≡ (ok a, u)) × (next a u ≡ (ok b, t))
    go (ok a, u) e q = (a, u, e, q)
    go (err exc, u) e q = cc

-- What a first part keeps, and the rest keeps from any session, the two keep together.
module _ {F W A B : Type 0} (P : Tables F → Type 0) (next : A → Action F W B) where
  pub Holds-then_on :
      (r : Result A × Session F W)
      → Holds P r.1
      → ((a : A) (s : Session F W) → Holds P s → Holds P (next a s).1)
      → Holds P (then_on next r).1
  Holds-then_on (ok a, s) h rest = rest a s h
  Holds-then_on (err exc, s) h rest = h
