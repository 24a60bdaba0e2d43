-- ===== src/Steps/Resolving.antt =====
-- Which steps a bootstrap request selects.
use inference_lab.Prelude.{
  String, ◌≡◌, refl, Option, none, some, List, [], ◌∷◌, ◌++◌, map, get, true, ◌==◌, String-eq,
  text_iff, All, Bool-cases, inl, inr,
}
use inference_lab.Result.{ok, err, key_error, or_key_error-eq-ok, >>=-eq-ok}
use inference_lab.Schemas.{
  BootstrapProfile, minimal, standard_container, standard_bare_metal, full, custom, profile_value,
}
use inference_lab.Steps.{ShellRemoteStep}
use inference_lab.Steps.Catalog.{
  bootstrap_steps, find_step, lookup_steps, selected, resolve_bootstrap_steps,
}

abbrev IsKeyed : List (String × ShellRemoteStep) → Type 0
IsKeyed = All (λ e. e.1.id ≡ e.0)

get-id :
    (m : String) (steps : List (String × ShellRemoteStep)) (step : ShellRemoteStep)
    → IsKeyed steps
    → get m steps ≡ some step
    → step.id ≡ m
get-id m [] step k h = cc
get-id m ((j, s) ∷ steps) step (e, k) h = elim (Bool-cases (j == m)) [
  | inl same ↦ found same (rw same at h)
  | inr other ↦ get-id m steps step k (rw other at h)
]
  where
    found : (j == m) ≡ true → some s ≡ some step → step.id ≡ m
    found same p = cc (e, p, (text_iff j m).0 same)

bootstrap_steps-IsKeyed : IsKeyed bootstrap_steps
unfolding bootstrap_steps
bootstrap_steps-IsKeyed = (refl, (refl, (refl, (refl, (refl, (refl, (refl, tt)))))))

find_step-id : (m : String) (step : ShellRemoteStep) → find_step m ≡ ok step → step.id ≡ m
unfolding find_step
find_step-id m step h =
    get-id m bootstrap_steps step bootstrap_steps-IsKeyed (or_key_error-eq-ok m _ h)

lookup_steps-ids :
    (modules : List String) (steps : List ShellRemoteStep)
    → lookup_steps modules ≡ ok steps
    → map (λ s. s.id) steps ≡ modules
unfolding lookup_steps
lookup_steps-ids [] [] h = refl
lookup_steps-ids [] (s ∷ steps) h = cc
lookup_steps-ids (m ∷ modules) steps h =
    let (s, found, rest) = >>=-eq-ok (find_step m) _ h in
    let (more, looked, built) = >>=-eq-ok (lookup_steps modules) _ rest in
    cc (find_step-id m s found, lookup_steps-ids modules more looked, built, tail_ids s more)
  where
    tail_ids :
        (s : ShellRemoteStep) (more : List ShellRemoteStep)
        → map (λ (t : ShellRemoteStep). t.id) (s ∷ more) ≡ s.id ∷ map (λ t. t.id) more
    tail_ids s more = refl

-- A request that resolves gives one step for each selected module, in the order of the selection
-- and under its identifier: the modules of the request if it names any, and else its profile's.
pub resolve_bootstrap_steps-ids :
    (profile : String) (modules : Option (List String)) (steps : List ShellRemoteStep)
    → resolve_bootstrap_steps profile modules ≡ ok steps
    → map (λ s. s.id) steps ≡ selected profile modules
resolve_bootstrap_steps-ids profile modules steps h =
    lookup_steps-ids (selected profile modules) steps (unfold resolve_bootstrap_steps in h)

-- The modules that a profile of the API stands for. `custom` has no entry of its own.
abbrev pub modules_of : BootstrapProfile → List String
modules_of minimal = "B1" ∷ "B2" ∷ []
modules_of standard_container = "B1" ∷ "B2" ∷ "B3" ∷ "B4" ∷ "B5" ∷ "B6" ∷ []
modules_of standard_bare_metal = "B1" ∷ "B2" ∷ "B3" ∷ "B4" ∷ "B6" ∷ "B7" ∷ []
modules_of full = "B1" ∷ "B2" ∷ "B3" ∷ "B4" ∷ "B5" ∷ "B6" ∷ "B7" ∷ []
modules_of custom = "B1" ∷ "B2" ∷ "B3" ∷ "B4" ∷ "B5" ∷ "B6" ∷ "B7" ∷ []

selected-profile : (p : BootstrapProfile) → selected (profile_value p) none ≡ modules_of p
unfolding selected
selected-profile minimal = refl
selected-profile standard_container = refl
selected-profile standard_bare_metal = refl
selected-profile full = refl
selected-profile custom = refl

abbrev pub IsKnown : String → Type 0
IsKnown m = (s : ShellRemoteStep) × (find_step m ≡ ok s)

lookup_steps_of_IsKnown :
    (modules : List String)
    → All IsKnown modules
    → (steps : List ShellRemoteStep) × (lookup_steps modules ≡ ok steps)
unfolding lookup_steps
lookup_steps_of_IsKnown [] h = ([], refl)
lookup_steps_of_IsKnown (m ∷ modules) ((s, found), hs) =
    let (steps, looked) = lookup_steps_of_IsKnown modules hs in (s ∷ steps, rw (found, looked))

modules_of-IsKnown : (p : BootstrapProfile) → All IsKnown (modules_of p)
unfolding find_step bootstrap_steps
modules_of-IsKnown minimal = ((_, refl), ((_, refl), tt))
modules_of-IsKnown standard_container =
    ((_, refl), ((_, refl), ((_, refl), ((_, refl), ((_, refl), ((_, refl), tt))))))
modules_of-IsKnown standard_bare_metal =
    ((_, refl), ((_, refl), ((_, refl), ((_, refl), ((_, refl), ((_, refl), tt))))))
modules_of-IsKnown full =
    ((_, refl), ((_, refl), ((_, refl), ((_, refl), ((_, refl), ((_, refl), ((_, refl), tt)))))))
modules_of-IsKnown custom =
    ((_, refl), ((_, refl), ((_, refl), ((_, refl), ((_, refl), ((_, refl), ((_, refl), tt)))))))

-- Every profile of the API resolves, to the steps of its modules in order; `custom` stands for
-- the same modules as `full`.
pub resolve_bootstrap_steps-profile :
    (p : BootstrapProfile)
    → (steps : List ShellRemoteStep) × (resolve_bootstrap_steps (profile_value p) none ≡ ok steps)
      × (map (λ s. s.id) steps ≡ modules_of p)
resolve_bootstrap_steps-profile p =
    let (steps, looked) = lookup_steps_of_IsKnown (modules_of p) (modules_of-IsKnown p) in
    (
      steps,
      unfold resolve_bootstrap_steps in rw (selected-profile p) looked,
      lookup_steps-ids (modules_of p) steps looked,
    )

lookup_steps_unknown :
    (before after : List String) (m : String)
    → All IsKnown before
    → find_step m ≡ err (key_error m)
    → lookup_steps (before ++ m ∷ after) ≡ err (key_error m)
unfolding lookup_steps
lookup_steps_unknown [] after m h e = rw e
lookup_steps_unknown (b ∷ before) after m ((s, found), hs) e =
    rw (found, lookup_steps_unknown before after m hs e)

selected_of_modules :
    (profile : String) (before after : List String) (m : String)
    → selected profile (some (before ++ m ∷ after)) ≡ before ++ m ∷ after
unfolding selected
selected_of_modules profile [] after m = refl
selected_of_modules profile (b ∷ before) after m = refl

-- A request fails with a `KeyError` for the first of its modules that is not in the catalogue.
pub resolve_bootstrap_steps_unknown :
    (profile : String) (before after : List String) (m : String)
    → All IsKnown before
    → get m bootstrap_steps ≡ none
    → resolve_bootstrap_steps profile (some (before ++ m ∷ after)) ≡ err (key_error m)
unfolding resolve_bootstrap_steps
resolve_bootstrap_steps_unknown profile before after m h e =
    rw (selected_of_modules profile before after m)
      (lookup_steps_unknown before after m h (unfold find_step in rw e))
