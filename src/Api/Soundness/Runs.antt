-- ===== src/Api/Soundness/Runs.antt =====
-- Discoveries and bootstraps keep the tables sound, and their runs end.
use inference_lab.Prelude.{
  ℕ, suc, String, ◌≡◌, refl, inl, inr, Bool, true, false, some, none, List, [], ◌∷◌, get, has,
  All-get, Bool-cases, Option-cases,
}
use inference_lab.Prelude.Int.{ℤ, is_zero}
use inference_lab.Result.{Result-cases}
use inference_lab.Steps.{ShellRemoteStep, StepResult}
use inference_lab.Schemas.{EnvironmentSetupStrategy, pi_workflow, scripted, profile_value}
use inference_lab.Settings.{effective_agent_executor_settings}
use inference_lab.Agents.{run_pi_environment_workflow}
use inference_lab.Steps.Catalog.{resolve_bootstrap_steps}
use inference_lab.Prelude.Text.{◌<>◌}
use inference_lab.Discovery.Profile.{fingerprint, profile_dict}
use inference_lab.Discovery.Verdict.{Discovery, fake_discovery, run_discovery}
use inference_lab.Database.{Tables, Machine, BootstrapRun}
use inference_lab.Database.Session.{Session, Holds}
use inference_lab.Api.{Deployment}
use inference_lab.Api.Machines.{executor_for, save_machine, snapshot_for, profiled_machine}
use inference_lab.Api.Discovery.{
  machine_context, discovery_step_of, verdict_value, run_status, add_run, discovery_run,
  discovery_of, recorded, create_discovery_session,
}
use inference_lab.Api.Bootstrap.{
  BootstrapRequest, workflow_prompt, pi_step_of, pi_machine_status, scripted_machine_status,
  pi_bootstrap, scripted_bootstrap, steps_run, by_strategy, bootstrap_machine, pi_run, scripted_run,
  first_failed, resolved_strategy, rerun_row, rerun_bootstrap_module,
}
use inference_lab.Api.Soundness.{
  HasEnded, IsSound, IsSoundWith, save_machine-IsSoundWith, add_snapshot-IsSoundWith,
  add_run-IsSoundWith,
}
use inference_lab.Api.Soundness.Handlers.{IsReady, both, forget, found_With}

module _ {F W : Type 0} (d : Deployment F W) where
  run_status-HasEnded : (code : ℤ) → HasEnded (run_status code)
  run_status-HasEnded code = elim (Bool-cases (is_zero code)) [
    | inl zero ↦ rw zero (inl refl)
    | inr other ↦ rw other (inr refl)
  ]

  recorded-IsSound :
      (id : String) (m : Machine F) (x : Discovery F) (s : Session F W)
      → m.id ≡ id
      → Holds (IsSoundWith id) s
      → Holds IsSound (recorded d m x s).1
  unfolding recorded both discovery_run
  recorded-IsSound id m x s e h =
      let profile = profile_dict d.floats d.python x.profile in
      let print = fingerprint d.floats d.python x.profile in
      let step = discovery_step_of profile x in
      let run = discovery_run (d.new_id (suc s.made)) m.id step in
      let snapshot = snapshot_for (d.new_id s.made) profile print "discovery" m in
      let next = profiled_machine profile print ("discovery_" <> verdict_value x.verdict) m in
      both d
        (add_run-IsSoundWith id run _ e (run_status-HasEnded step.exit_code) (
          add_snapshot-IsSoundWith id snapshot _ e
            (save_machine-IsSoundWith id next s.pending h.0))).0

  discovered_found :
      (id : String) (m : Machine F) (dry_run : Bool) (s : Session F W)
      → (m.id ≡ id) × Holds (IsSoundWith id) s
      → get id s.pending.machines ≡ some m
      → Holds IsSound (create_discovery_session d id dry_run s).1
  unfolding create_discovery_session discovery_of
  discovered_found id m true s (same, h) e =
      elim (Result-cases (fake_discovery d.floats d.python (machine_context m))) [
        | inl (x, y) ↦ rw (e, y) (recorded-IsSound id m x s same h)
        | inr (exc, y) ↦ rw (e, y) (forget d id s h)
      ]
  discovered_found id m false s (same, h) e = elim (Result-cases (executor_for d m)) [
    | inr (exc, x) ↦ rw (e, x) (forget d id s h)
    | inl (executor, x) ↦
        elim (Result-cases
          (run_discovery d.floats d.python executor (machine_context m) s.world).0) [
            | inr (exc, y) ↦ rw (e, x, y) (forget d id s h)
            | inl (found, y) ↦
                rw (e, x, y)
                  (recorded-IsSound id m found
                    (record s {
                      world =
                          (run_discovery d.floats d.python executor (machine_context m) s.world).1;
                    })
                    same h)
          ]
  ]

  discovered_missing :
      (id : String) (dry_run : Bool) (s : Session F W)
      → Holds IsSound s
      → get id s.pending.machines ≡ none
      → Holds IsSound (create_discovery_session d id dry_run s).1
  unfolding create_discovery_session
  discovered_missing id dry_run s h e = rw e h

  pub create_discovery_session-IsSound :
      (id : String) (dry_run : Bool) (s : Session F W)
      → IsReady d s
      → Holds IsSound (create_discovery_session d id dry_run s).1
  create_discovery_session-IsSound id dry_run s h =
      elim (Option-cases (get id s.pending.machines)) [
        | inl e ↦ discovered_missing id dry_run s h.1 e
        | inr (m, e) ↦ discovered_found id m dry_run s (found_With d id m s h e) e
      ]

  pi_bootstrap-IsSound :
      (id : String) (m : Machine F) (payload : BootstrapRequest) (s : Session F W)
      → Holds (IsSoundWith id) s
      → Holds IsSound (pi_bootstrap d id m payload s).1
  unfolding pi_bootstrap both pi_run
  pi_bootstrap-IsSound id m payload s h =
      let settings = effective_agent_executor_settings d.codecs d.app s.pending.agent_settings in
      let prompt = workflow_prompt m payload in
      let applied =
        (run_pi_environment_workflow d.subprocess settings prompt payload.dry_run s.world).0 in
      let step = pi_step_of m payload settings applied in
      let next : Machine F = record m { status = pi_machine_status payload step } in
      both d
        (add_run-IsSoundWith id (pi_run (d.new_id s.made) id payload step) _ refl
          (run_status-HasEnded step.exit_code) (save_machine-IsSoundWith id next s.pending h.0)).0

  scripted_run-HasEnded :
      (run_id id : String) (payload : BootstrapRequest) (steps : List ShellRemoteStep)
      (results : List (StepResult F))
      → HasEnded (scripted_run run_id id payload steps results).status
  unfolding scripted_run
  scripted_run-HasEnded run_id id payload steps results =
      elim (Option-cases (first_failed results)) [
        | inl e ↦ rw e (inl refl)
        | inr (r, e) ↦ rw e (inr refl)
      ]

  -- The end of a scripted bootstrap, once the results are there.
  scripted_end :
      (id : String) (m : Machine F) (payload : BootstrapRequest) (steps : List ShellRemoteStep)
      (results : List (StepResult F)) (made : ℕ) (t : Tables F)
      → IsSoundWith id t
      → IsSound (
          add_run
            (scripted_run (d.new_id made) id payload steps results)
            (save_machine (record m { status = scripted_machine_status results }) t))
  scripted_end id m payload steps results made t h =
      let next : Machine F = record m { status = scripted_machine_status results } in
      let run = scripted_run (d.new_id made) id payload steps results in
      (add_run-IsSoundWith id run (save_machine next t) (unfold scripted_run in refl)
        (scripted_run-HasEnded (d.new_id made) id payload steps results)
        (save_machine-IsSoundWith id next t h)).0

  scripted_cases :
      (dry_run : Bool) (id : String) (m : Machine F) (payload : BootstrapRequest) (s : Session F W)
      → payload.dry_run ≡ dry_run
      → Holds (IsSoundWith id) s
      → Holds IsSound (scripted_bootstrap d id m payload s).1
  unfolding scripted_bootstrap steps_run both
  scripted_cases true id m payload s dry h =
      elim (Result-cases
        (resolve_bootstrap_steps (profile_value payload.profile) payload.modules)) [
          | inr (exc, r) ↦ rw r (forget d id s h)
          | inl (steps, r) ↦
              rw (r, dry) (both d (scripted_end id m payload steps _ s.made s.pending h.0))
        ]
  scripted_cases false id m payload s wet h =
      elim (Result-cases
        (resolve_bootstrap_steps (profile_value payload.profile) payload.modules)) [
          | inr (exc, r) ↦ rw r (forget d id s h)
          | inl (steps, r) ↦ elim (Result-cases (executor_for d m)) [
            | inr (exc, x) ↦ rw (r, wet, x) (forget d id s h)
            | inl (executor, x) ↦
                rw (r, wet, x) (both d (scripted_end id m payload steps _ s.made s.pending h.0))
          ]
        ]

  by_strategy-IsSound :
      (strategy : EnvironmentSetupStrategy) (id : String) (m : Machine F)
      (payload : BootstrapRequest) (s : Session F W)
      → Holds (IsSoundWith id) s
      → Holds IsSound (by_strategy d strategy id m payload s).1
  unfolding by_strategy
  by_strategy-IsSound pi_workflow id m payload s h = pi_bootstrap-IsSound id m payload s h
  by_strategy-IsSound scripted id m payload s h =
      scripted_cases payload.dry_run id m payload s refl h

  pub bootstrap_machine-IsSound :
      (id : String) (payload : BootstrapRequest) (s : Session F W)
      → IsReady d s
      → Holds IsSound (bootstrap_machine d id payload s).1
  unfolding bootstrap_machine
  bootstrap_machine-IsSound id payload s h = elim (Option-cases (get id s.pending.machines)) [
    | inl e ↦ rw e h.1
    | inr (m, e) ↦
        rw e (
          by_strategy-IsSound (resolved_strategy payload) id m payload s
            (found_With d id m s h e).1)
  ]

  -- A run that is there refers to a machine that is there.
  machine_of_run :
      (run_id : String) (run : BootstrapRun F) (t : Tables F)
      → IsSound t
      → get run_id t.runs ≡ some run
      → has run.machine_id t.machines ≡ true
  machine_of_run run_id run t h e =
      All-get (λ e. has e.1.machine_id t.machines ≡ true) run_id t.runs e h.runs

  pub rerun_bootstrap_module-IsSound :
      (run_id module_id : String) (s : Session F W)
      → Holds IsSound s
      → Holds IsSound (rerun_bootstrap_module d run_id module_id s).1
  unfolding rerun_bootstrap_module rerun_row both
  rerun_bootstrap_module-IsSound run_id module_id s h =
      elim (Option-cases (get run_id s.pending.runs)) [
        | inl e ↦ rw e h
        | inr (run, e) ↦
            elim (Result-cases (resolve_bootstrap_steps "custom" (some (module_id ∷ [])))) [
              | inr (exc, r) ↦ rw (e, r) h
              | inl (steps, r) ↦
                  rw (e, r)
                    (both d
                      (add_run-IsSoundWith run.machine_id _ s.pending refl (inl refl)
                        (h.0, machine_of_run run_id run s.pending h.0 e)).0)
            ]
      ]
