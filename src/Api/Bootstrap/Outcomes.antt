-- ===== src/Api/Bootstrap/Outcomes.antt =====
-- What a bootstrap leaves in the database.
use inference_lab.Prelude.{
  ℕ, ◌*◌, String, ◌≡◌, refl, sym, subst, Bool, true, false, some, none, List, [], ◌∷◌, get,
  get-put_same, all, if◌then◌else◌, Bool-cases, and_join, inl, inr, ◌⊎◌, ◌==◌, String-eq,
}
use inference_lab.Prelude.Int.{negsuc, is_zero}
use inference_lab.Result.{Result, Result-cases, ok, err, Exception}
use inference_lab.Schemas.{pi_workflow, scripted, profile_value, CommandRecord, CommandResult}
use inference_lab.Executor.{fake_executor, fake_run}
use inference_lab.Steps.{ShellRemoteStep, StepResult, run_steps, run_step, step_result}
use inference_lab.Steps.Catalog.{resolve_bootstrap_steps}
use inference_lab.Steps.Resolving.{resolve_bootstrap_steps-profile}
use inference_lab.Agents.{
  AgentExecutorSettings, PiOutcome, exited, run_pi_environment_workflow, pi_executed, pi_result,
}
use inference_lab.Settings.{effective_agent_executor_settings}
use inference_lab.Database.{Machine, BootstrapRun, Tables}
use inference_lab.Database.Session.{Session}
use inference_lab.Api.{Deployment}
use inference_lab.Api.Machines.{executor_for, save_machine}
use inference_lab.Api.Discovery.{add_run}
use inference_lab.Api.Bootstrap.{
  BootstrapRequest, first_failed, failure_status, scripted_run, scripted_machine_status,
  scripted_bootstrap, steps_run, by_strategy, bootstrap_machine, resolved_strategy, pi_step_of,
  pi_run, pi_machine_status, pi_bootstrap, workflow_prompt, verified, detected, context,
}

module _ {F : Type 0} where
  abbrev pub all_zero : List (StepResult F) → Bool
  all_zero = all (λ r. is_zero r.exit_code)

  failure_status-all_zero :
      (results : List (StepResult F))
      → failure_status (first_failed results) ≡ (if all_zero results then "succeeded" else "failed")
  unfolding first_failed
  failure_status-all_zero [] = refl
  failure_status-all_zero (r ∷ results) = elim (Bool-cases (is_zero r.exit_code)) [
    | inl zero ↦ rw zero (failure_status-all_zero results)
    | inr other ↦ rw other refl
  ]

  scripted_machine_status-all_zero :
      (results : List (StepResult F))
      → scripted_machine_status results ≡ (if all_zero results then "ready" else "bootstrap_failed")
  unfolding scripted_machine_status
  scripted_machine_status-all_zero results = elim (Bool-cases (all_zero results)) [
    | inl good ↦ rw (failure_status-all_zero results, good) refl
    | inr bad ↦ rw (failure_status-all_zero results, bad) refl
  ]

-- What is committed for the results of a scripted bootstrap.
pub record IsRecorded {F : Type 0} (machine_id : String) (m : Machine F) (run : BootstrapRun F)
    (t : Tables F) : Type 0 where
  pub row : get run.id t.runs ≡ some run
  pub of_machine : run.machine_id ≡ machine_id
  pub status : run.status ≡ (if all_zero run.step_results then "succeeded" else "failed")
  pub machine :
      get m.id t.machines
      ≡ some
          (record m { status = if all_zero run.step_results then "ready" else "bootstrap_failed" })

fake_step-zero :
    (F : Type 0) (step : ShellRemoteStep) (id : String) (log : List CommandRecord)
    → is_zero (run_step {F = F} (context id true) fake_executor step log).0.exit_code ≡ true
unfolding run_step step_result fake_executor fake_run
fake_step-zero F step id log = refl

-- Nothing fails in a dry run.
all_zero-fake :
    (F : Type 0) (steps : List ShellRemoteStep) (id : String) (log : List CommandRecord)
    → all_zero (run_steps {F = F} (context id true) fake_executor steps log).0 ≡ true
unfolding run_steps
all_zero-fake F [] id log = refl
all_zero-fake F (step ∷ steps) id log =
    and_join _ _ (fake_step-zero F step id log) (all_zero-fake F steps id _)

module _ {F W : Type 0} (d : Deployment F W) where
  scripted_run-IsRecorded :
      (machine_id id : String) (m : Machine F) (payload : BootstrapRequest)
      (steps : List ShellRemoteStep) (results : List (StepResult F)) (t : Tables F)
      → IsRecorded machine_id m (scripted_run id machine_id payload steps results) (
          add_run
            (scripted_run id machine_id payload steps results)
            (save_machine (record m { status = scripted_machine_status results }) t))
  unfolding scripted_run
  scripted_run-IsRecorded machine_id id m payload steps results t = record {
    row = get-put_same id _ t.runs;
    of_machine = refl;
    status = failure_status-all_zero results;
    machine = rw (scripted_machine_status-all_zero results) (get-put_same m.id _ t.machines);
  }

  -- A scripted bootstrap raises and commits nothing, or returns the run that it committed.
  abbrev pub IsOutcome :
      String → Machine F → Session F W → Result (BootstrapRun F) × Session F W → Type 0
  IsOutcome machine_id m s r =
      ((exc : Exception) × (r.0 ≡ err exc) × (r.1.saved ≡ s.saved))
      ⊎ ((run : BootstrapRun F) × (r.0 ≡ ok run) × IsRecorded machine_id m run r.1.saved)

  scripted_bootstrap-IsOutcome :
      (dry_run : Bool) (machine_id : String) (m : Machine F) (payload : BootstrapRequest)
      (s : Session F W)
      → payload.dry_run ≡ dry_run
      → IsOutcome machine_id m s (scripted_bootstrap d machine_id m payload s)
  unfolding scripted_bootstrap steps_run
  scripted_bootstrap-IsOutcome true machine_id m payload s dry =
      elim (Result-cases
        (resolve_bootstrap_steps (profile_value payload.profile) payload.modules)) [
          | inr (exc, r) ↦ rw r (inl (exc, refl, refl))
          | inl (steps, r) ↦
              rw (r, dry)
                (inr (
                  _,
                  refl,
                  scripted_run-IsRecorded machine_id (d.new_id s.made) m payload steps
                      (run_steps (context machine_id true) fake_executor steps []).0 s.pending,
                ))
        ]
  scripted_bootstrap-IsOutcome false machine_id m payload s wet =
      elim (Result-cases
        (resolve_bootstrap_steps (profile_value payload.profile) payload.modules)) [
          | inr (exc, r) ↦ rw r (inl (exc, refl, refl))
          | inl (steps, r) ↦ elim (Result-cases (executor_for d m)) [
            | inr (exc, x) ↦ rw (r, wet, x) (inl (exc, refl, refl))
            | inl (executor, x) ↦
                rw (r, wet, x)
                  (inr (
                    _,
                    refl,
                    scripted_run-IsRecorded machine_id (d.new_id s.made) m payload steps
                        (run_steps (context machine_id false) executor steps s.world).0 s.pending,
                  ))
          ]
        ]

  -- A scripted bootstrap of a machine that is there either raises and commits nothing, or commits
  -- the run that it returns, for that machine: the run has succeeded and the machine is `ready`
  -- if every step ended with 0, and else the run has failed and the machine is `bootstrap_failed`.
  pub bootstrap_machine-IsOutcome :
      (machine_id : String) (m : Machine F) (payload : BootstrapRequest) (s : Session F W)
      → get machine_id s.pending.machines ≡ some m
      → resolved_strategy payload ≡ scripted
      → IsOutcome machine_id m s (bootstrap_machine d machine_id payload s)
  unfolding bootstrap_machine by_strategy
  bootstrap_machine-IsOutcome machine_id m payload s there by_scripts =
      rw (there, by_scripts)
        (scripted_bootstrap-IsOutcome payload.dry_run machine_id m payload s refl)

  -- A scripted dry run of a profile on a machine that is there always returns a run that has
  -- succeeded, and it marks the machine as `ready` although nothing outside has changed.
  pub bootstrap_machine_dry_run_ready :
      (machine_id : String) (m : Machine F) (payload : BootstrapRequest) (s : Session F W)
      → get machine_id s.pending.machines ≡ some m
      → resolved_strategy payload ≡ scripted
      → payload.dry_run ≡ true
      → payload.modules ≡ none
      → (run : BootstrapRun F) × ((bootstrap_machine d machine_id payload s).0 ≡ ok run)
        × (run.status ≡ "succeeded")
        × (get m.id (bootstrap_machine d machine_id payload s).1.saved.machines
            ≡ some (record m { status = "ready" }))
        × ((bootstrap_machine d machine_id payload s).1.world ≡ s.world)
  unfolding bootstrap_machine by_strategy scripted_bootstrap steps_run scripted_run
  bootstrap_machine_dry_run_ready machine_id m payload s there by_scripts dry plain =
      let (steps, resolved, ids) = resolve_bootstrap_steps-profile payload.profile in
      let results = (run_steps (context machine_id true) fake_executor steps []).0 in
      let id = d.new_id s.made in
      let kept = scripted_run-IsRecorded machine_id id m payload steps results s.pending in
      let fine = all_zero-fake F steps machine_id [] in
      (
        scripted_run id machine_id payload steps results,
        rw (there, by_scripts, plain, resolved, dry) refl,
        rw fine at kept.status,
        rw (there, by_scripts, plain, resolved, dry) (rw fine at kept.machine),
        rw (there, by_scripts, plain, resolved, dry) refl,
      )

  -- The settings and the outcome of the agent's process in a bootstrap by its workflow.
  abbrev pub agent_settings : Session F W → AgentExecutorSettings
  agent_settings s = effective_agent_executor_settings d.codecs d.app s.pending.agent_settings

  abbrev pub agent_outcome : Machine F → BootstrapRequest → Session F W → PiOutcome
  agent_outcome m payload s =
      let settings = agent_settings s in
      (d.subprocess settings.command settings.work_dir (workflow_prompt m payload)
        (settings.timeout_minutes * 60) s.world).0

  pi_step_of_signal :
      (n : ℕ) (m : Machine F) (payload : BootstrapRequest) (settings : AgentExecutorSettings)
      (applied : CommandResult)
      → applied.exit_code ≡ negsuc n
      → is_zero (pi_step_of m payload settings applied).exit_code ≡ true
  unfolding pi_step_of verified detected
  pi_step_of_signal n m payload settings applied ended = rw ended refl

  pi_exit :
      (n : ℕ) (settings : AgentExecutorSettings) (prompt out errors : String) (w : W)
      → settings.provider == "pi" ≡ true
      → (d.subprocess settings.command settings.work_dir prompt (settings.timeout_minutes * 60) w).0
        ≡ exited (negsuc n) out errors
      → (run_pi_environment_workflow d.subprocess settings prompt false w).0.exit_code ≡ negsuc n
  unfolding run_pi_environment_workflow pi_executed pi_result
  pi_exit n settings prompt out errors w pi ended = rw (pi, ended) refl

  -- If the Pi agent is ended by a signal, its return code is negative, and a bootstrap of a
  -- machine that is there, by the agent and not dry, records this as a success: the run that it
  -- returns and commits has succeeded, and the machine is committed as `ready`.
  pub bootstrap_machine_signal :
      (machine_id : String) (m : Machine F) (payload : BootstrapRequest) (s : Session F W) (n : ℕ)
      (out errors : String)
      → get machine_id s.pending.machines ≡ some m
      → resolved_strategy payload ≡ pi_workflow
      → payload.dry_run ≡ false
      → (agent_settings s).provider == "pi" ≡ true
      → agent_outcome m payload s ≡ exited (negsuc n) out errors
      → (run : BootstrapRun F) × ((bootstrap_machine d machine_id payload s).0 ≡ ok run)
        × (run.status ≡ "succeeded")
        × (get run.id (bootstrap_machine d machine_id payload s).1.saved.runs ≡ some run)
        × (get m.id (bootstrap_machine d machine_id payload s).1.saved.machines
            ≡ some (record m { status = "ready" }))
  unfolding bootstrap_machine by_strategy pi_bootstrap pi_run pi_machine_status
  bootstrap_machine_signal machine_id m payload s n out errors there by_agent wet pi ended =
      let applied =
        (run_pi_environment_workflow d.subprocess (agent_settings s) (workflow_prompt m payload)
          payload.dry_run s.world).0 in
      let step = pi_step_of m payload (agent_settings s) applied in
      let zero = pi_step_of_signal n m payload (agent_settings s) applied (
        subst
          (λ b.
            (run_pi_environment_workflow d.subprocess (agent_settings s) (workflow_prompt m payload)
              b s.world).0.exit_code
            ≡ negsuc n)
          (sym wet)
          (pi_exit n (agent_settings s) (workflow_prompt m payload) out errors s.world pi ended)) in
      (
        pi_run (d.new_id s.made) machine_id payload step,
        rw (there, by_agent) refl,
        rw zero refl,
        rw (there, by_agent) (get-put_same (d.new_id s.made) _ s.pending.runs),
        rw (there, by_agent, zero, wet) (get-put_same m.id _ s.pending.machines),
      )
