-- ===== src/Api/Discovery/Outcomes.antt =====
-- What a discovery leaves in the database.
use inference_lab.Prelude.{
  suc, String, ◌≡◌, refl, Bool, true, false, not, ◌&&◌, ◌||◌, Option, some, none, List, [], ◌∷◌,
  any, get, get-put_same, if◌then◌else◌, Bool-cases, inl, inr, arith, ◌∙◌,
}
use inference_lab.Prelude.Int.{ℤ, pos, negsuc, max_ℤ, is_zero}
use inference_lab.Result.{Result, ok}
use inference_lab.Schemas.{CommandResult}
use inference_lab.Discovery.{DiscoveryCommand, Results, safe_discovery_commands}
use inference_lab.Discovery.Profile.{fingerprint, profile_dict}
use inference_lab.Discovery.Verdict.{Discovery}
use inference_lab.Database.{Machine, BootstrapRun, MachineSnapshot}
use inference_lab.Database.Session.{Session}
use inference_lab.Api.{Deployment}
use inference_lab.Api.Machines.{profiled_machine, snapshot_for}
use inference_lab.Prelude.Json.{Json, text}
use inference_lab.Prelude.Text.{◌<>◌}
use inference_lab.Api.Discovery.{
  with_failure, failed_codes, largest, is_none_left, discovery_step_of, discovery_run, recorded,
  verdict_value, DiscoverySessionRead, discovery_session_read, snapshot_value, phases_of,
}

-- A required command that has a result with another exit code than 0.
abbrev failed_with : Option CommandResult → Bool
failed_with none = false
failed_with (some r) = not (is_zero r.exit_code)

abbrev pub failed_required : Results → DiscoveryCommand → Bool
failed_required results c = c.required && failed_with (get c.id results)

abbrev AllNonzero : List ℤ → Type 0
AllNonzero [] = Unit
AllNonzero (x ∷ l) = (is_zero x ≡ false) × AllNonzero l

max_nonzero : (a b : ℤ) → is_zero a ≡ false → is_zero b ≡ false → is_zero (max_ℤ a b) ≡ false
max_nonzero (pos a) (pos b) h k = ground arith
max_nonzero (pos a) (negsuc b) h k = h
max_nonzero (negsuc a) (pos b) h k = k
max_nonzero (negsuc a) (negsuc b) h k = refl

-- The largest of exit codes that are not 0 is not 0, though some may be negative.
is_zero-largest : (l : List ℤ) → AllNonzero l → is_zero (largest l) ≡ is_none_left l
is_zero-largest [] h = refl
is_zero-largest (x ∷ []) h = h.0
is_zero-largest (x ∷ y ∷ l) h = max_nonzero x (largest (y ∷ l)) h.0 (is_zero-largest (y ∷ l) h.1)

with_failure-empty :
    (required : Bool) (o : Option CommandResult) (codes : List ℤ) (others : Bool)
    → AllNonzero codes
    → is_none_left codes ≡ not others
    → AllNonzero (with_failure required o codes)
      × (is_none_left (with_failure required o codes) ≡ not ((required && failed_with o) || others))
with_failure-empty true none codes others h e = (h, e)
with_failure-empty false none codes others h e = (h, e)
with_failure-empty false (some r) codes others h e = (h, e)
with_failure-empty true (some r) codes others h e = elim (Bool-cases (is_zero r.exit_code)) [
  | inl zero ↦ rw zero (h, e)
  | inr other ↦ rw other ((other, h), refl)
]

failed_codes-empty :
    (results : Results) (l : List DiscoveryCommand)
    → AllNonzero (failed_codes results l)
      × (is_none_left (failed_codes results l) ≡ not (any (failed_required results) l))
unfolding failed_codes
failed_codes-empty results [] = (tt, refl)
failed_codes-empty results (c ∷ l) =
    let (nonzero, empty) = failed_codes-empty results l in
    with_failure-empty c.required (get c.id results) (failed_codes results l)
      (any (failed_required results) l) nonzero empty

-- Whether a required command of the allowlist failed.
abbrev pub is_failed : Results → Bool
is_failed results = any (failed_required results) safe_discovery_commands

step_exit-zero :
    {F : Type 0} (profile : List (String × Json F)) (x : Discovery F)
    → is_zero (discovery_step_of profile x).exit_code ≡ not (is_failed x.command_results)
unfolding discovery_step_of
step_exit-zero profile x =
    let (nonzero, empty) = failed_codes-empty x.command_results safe_discovery_commands in
    is_zero-largest _ nonzero ∙ empty

if_not : {A : Type 0} (b : Bool) (x y : A) → (if not b then x else y) ≡ (if b then y else x)
if_not true x y = refl
if_not false x y = refl

module _ {F W : Type 0} (d : Deployment F W) where
  -- The run that is committed for a discovery.
  abbrev pub run_of : Machine F → Discovery F → Session F W → BootstrapRun F
  run_of m x s =
      discovery_run (d.new_id (suc s.made)) m.id
        (discovery_step_of (profile_dict d.floats d.python x.profile) x)

  -- The answer to a discovery: it shows this run, with its id, its machine, its status and the
  -- verdict, and a snapshot of the machine that is committed under its id.
  pub record IsAnswer (m : Machine F) (x : Discovery F) (s : Session F W)
      (r : Result (DiscoverySessionRead F) × Session F W) : Type 0 where
    pub read : DiscoverySessionRead F
    pub returns : r.0 ≡ ok read
    pub run : read.run ≡ run_of m x s
    pub id : read.id ≡ (run_of m x s).id
    pub machine_id : read.machine_id ≡ m.id
    pub status : read.status ≡ (run_of m x s).status
    pub verdict : read.verdict ≡ text (verdict_value x.verdict)
    pub command_results : read.command_results ≡ x.command_results
    pub picture : MachineSnapshot F
    pub snapshot : read.snapshot ≡ some picture
    pub of_machine : picture.machine_id ≡ m.id
    pub kept : get picture.id r.1.saved.snapshots ≡ some picture

  -- A discovery commits the run that it answers with, for its machine, and the machine with the
  -- verdict in its status; the answer shows the committed run, its status and verdict, and a
  -- committed snapshot. The run has failed exactly if a required command of the allowlist ended
  -- with another code than 0, negative codes included, and has a failure class exactly then.
  pub recorded-status :
      (m : Machine F) (x : Discovery F) (s : Session F W)
      → (get (d.new_id (suc s.made)) (recorded d m x s).1.saved.runs ≡ some (run_of m x s))
        × ((run_of m x s).status ≡ (if is_failed x.command_results then "failed" else "succeeded"))
        × ((run_of m x s).failure_class
            ≡ (if is_failed x.command_results then some "safe_discovery_failed" else none))
        × ((row : Machine F) × (get m.id (recorded d m x s).1.saved.machines ≡ some row)
            × (row.status ≡ "discovery_" <> verdict_value x.verdict))
        × ((run_of m x s).machine_id ≡ m.id)
        × IsAnswer m x s (recorded d m x s)
  unfolding recorded discovery_run discovery_session_read snapshot_value phases_of discovery_step_of
  recorded-status m x s =
      let profile = profile_dict d.floats d.python x.profile in
      let print = fingerprint d.floats d.python x.profile in
      let exit = step_exit-zero profile x in
      (
        get-put_same (d.new_id (suc s.made)) _ s.pending.runs,
        rw exit (if_not (is_failed x.command_results) "succeeded" "failed"),
        rw exit (if_not (is_failed x.command_results) none (some "safe_discovery_failed")),
        (
          profiled_machine profile print ("discovery_" <> verdict_value x.verdict) m,
          get-put_same m.id _ s.pending.machines,
          refl,
        ),
        refl,
        record {
          read = _;
          returns = refl;
          run = refl;
          id = refl;
          machine_id = refl;
          status = refl;
          verdict = refl;
          command_results = refl;
          picture = snapshot_for (d.new_id s.made) profile print "discovery" m;
          snapshot = refl;
          of_machine = refl;
          kept = get-put_same (d.new_id s.made) _ s.pending.snapshots;
        },
      )
