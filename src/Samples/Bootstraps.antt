-- ===== src/Samples/Bootstraps.antt =====
-- Bootstraps and discoveries in the lab.
use inference_lab.Prelude.{
  ℕ, true, false, ◌≡◌, refl, none, some, [], ◌∷◌, get, if◌then◌else◌, String-eq,
}
use inference_lab.Prelude.Int.{negsuc}
use inference_lab.Prelude.Text.{◌<>◌}
use inference_lab.Prelude.Json.{text}
use inference_lab.Result.{ok}
use inference_lab.Schemas.{plain_command, command_result, minimal, scripted}
use inference_lab.Settings.{effective_agent_executor_settings}
use inference_lab.Discovery.Verdict.{Discovery, blocked}
use inference_lab.Database.{Machine, BootstrapRun}
use inference_lab.Api.Discovery.{recorded, verdict_value, machine_context}
use inference_lab.Api.Discovery.Outcomes.{run_of, is_failed, IsAnswer, recorded-status}
use inference_lab.Api.Bootstrap.{BootstrapRequest, bootstrap_machine, resolved_strategy}
use inference_lab.Api.Bootstrap.Outcomes.{
  IsOutcome, bootstrap_machine-IsOutcome, bootstrap_machine_dry_run_ready, bootstrap_machine_signal,
}
use inference_lab.Samples.Deployments.{lab, lab_session, box}

abbrev scripts : BootstrapRequest
scripts = record {
  profile = minimal;
  modules = none;
  dry_run = true;
  strategy = some scripted;
  pi_workflow_goal = none;
}

abbrev by_agent : BootstrapRequest
by_agent = record scripts { dry_run = false; strategy = none }

bootstrap_machine-IsOutcome_example :
    IsOutcome lab "m1" box lab_session (bootstrap_machine lab "m1" scripts lab_session)
bootstrap_machine-IsOutcome_example =
    bootstrap_machine-IsOutcome lab "m1" box scripts lab_session refl
      (unfold resolved_strategy in refl)

bootstrap_machine_dry_run_ready_example :
    (run : BootstrapRun ℕ) × ((bootstrap_machine lab "m1" scripts lab_session).0 ≡ ok run)
    × (run.status ≡ "succeeded")
    × (get "m1" (bootstrap_machine lab "m1" scripts lab_session).1.saved.machines
        ≡ some (record box { status = "ready" }))
    × ((bootstrap_machine lab "m1" scripts lab_session).1.world ≡ 0)
bootstrap_machine_dry_run_ready_example =
    bootstrap_machine_dry_run_ready lab "m1" box scripts lab_session refl
      (unfold resolved_strategy in refl) refl refl

bootstrap_machine_signal_example :
    (run : BootstrapRun ℕ) × ((bootstrap_machine lab "m1" by_agent lab_session).0 ≡ ok run)
    × (run.status ≡ "succeeded")
    × (get run.id (bootstrap_machine lab "m1" by_agent lab_session).1.saved.runs ≡ some run)
    × (get "m1" (bootstrap_machine lab "m1" by_agent lab_session).1.saved.machines
        ≡ some (record box { status = "ready" }))
bootstrap_machine_signal_example =
    bootstrap_machine_signal lab "m1" box by_agent lab_session 8 "" "killed" refl
      (unfold resolved_strategy in refl) refl (unfold effective_agent_executor_settings in refl)
      refl

-- A discovery whose first command was ended by a signal.
abbrev broken : Discovery ℕ
broken = record {
  verdict = blocked;
  blockers = [];
  profile = record {
    machine = machine_context box;
    identity = ("", "", "");
    os_release = [];
    cpu = text "";
    memory_gb = none;
    gpu = [];
    python = "";
    docker_available = false;
    docker_info = text "";
    data_path_available = false;
    df = "";
    interfaces = text "";
  };
  command_results = ("identity", command_result (plain_command "id -un") (negsuc 8) "" "") ∷ [];
}

recorded-status_example :
    (get (lab.new_id 1) (recorded lab box broken lab_session).1.saved.runs
      ≡ some (run_of lab box broken lab_session))
    × ((run_of lab box broken lab_session).status
        ≡ (if is_failed broken.command_results then "failed" else "succeeded"))
    × ((run_of lab box broken lab_session).failure_class
        ≡ (if is_failed broken.command_results then some "safe_discovery_failed" else none))
    × ((row : Machine ℕ) × (get "m1" (recorded lab box broken lab_session).1.saved.machines
          ≡ some row)
        × (row.status ≡ "discovery_" <> verdict_value broken.verdict))
    × ((run_of lab box broken lab_session).machine_id ≡ "m1")
    × IsAnswer lab box broken lab_session (recorded lab box broken lab_session)
recorded-status_example = recorded-status lab box broken lab_session
