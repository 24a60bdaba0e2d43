-- ===== src/Samples/Commands.antt =====
-- Commands, steps and their runs.
use inference_lab.Prelude.{ℕ, ◌≡◌, ◌↔◌, refl, String, true, false, none, some, List, [], ◌∷◌, map}
use inference_lab.Prelude.Int.{ℤ, pos, negsuc}
use inference_lab.Prelude.Text.{codes, ◌<>◌}
use inference_lab.Result.{ok, err, key_error}
use inference_lab.Schemas.{
  CommandRecord, plain_command, CommandResult, command_result, full, StepStatus,
}
use inference_lab.Shell.{quote, all_safe, escape}
use inference_lab.Shell.Lexer.{shell_words}
use inference_lab.Executor.{
  ExecutionContext, remote_shell_command, with_env, with_cwd, with_sudo, safe_env_prefix,
  assignments, is_env_name, name_rest, fake_executor,
}
use inference_lab.Executor.Words.{remote_shell_command-sudo_words, sudo_words}
use inference_lab.Executor.Environment.{words-safe_env_prefix, newline_name_breaks, assignment_word}
use inference_lab.Executor.Ssh.{ssh_run}
use inference_lab.Executor.Ssh.Outcomes.{Succeeded, ssh_run-zero_Succeeded}
use inference_lab.Steps.{ShellRemoteStep, step_result, run_steps}
use inference_lab.Steps.Catalog.{
  b1, b2, b7, find_step, lookup_steps, bootstrap_steps, resolve_bootstrap_steps,
}
use inference_lab.Steps.Resolving.{
  resolve_bootstrap_steps-ids, resolve_bootstrap_steps-profile, resolve_bootstrap_steps_unknown,
  modules_of,
}
use inference_lab.Steps.Running.{
  run_steps-recording, recording, all_phases, step_result-status, IsReported, step_result_negative,
}
use inference_lab.Samples.Values.{quiet_ssh, lab_host}

abbrev restart : CommandRecord
restart = record {
  command = "echo it's up";
  cwd = some "/data/my files";
  env = ("CUDA", "0 1") ∷ [];
  sudo = true;
}

remote_shell_command-sudo_words_example :
    (inner : String) × (remote_shell_command (record restart { sudo = false }) ≡ ok inner)
    × (shell_words (
          codes
            "sudo -n -- sh -lc 'cd '\"'\"'/data/my files'\"'\"' && env CUDA='\"'\"'0 1'\"'\"' echo it'\"'\"'s up'")
        ≡ some (sudo_words inner))
unfolding remote_shell_command with_env safe_env_prefix assignments is_env_name name_rest with_sudo
    quote with_cwd all_safe escape
remote_shell_command-sudo_words_example = remote_shell_command-sudo_words restart _ refl refl

words-safe_env_prefix_example :
    (prefix : String) × (safe_env_prefix (("A", "x y") ∷ ("_b1", "it's") ∷ []) ≡ ok prefix)
    × (shell_words (codes prefix)
        ≡ some (map assignment_word (("A", "x y") ∷ ("_b1", "it's") ∷ [])))
words-safe_env_prefix_example =
    words-safe_env_prefix (("A", "x y") ∷ ("_b1", "it's") ∷ []) (refl, (refl, tt))

newline_name_breaks_example :
    (prefix : String) × (safe_env_prefix (("PATH" <> "\n", "x") ∷ []) ≡ ok prefix)
    × (shell_words (codes prefix) ≡ none)
newline_name_breaks_example = newline_name_breaks "PATH" "x" refl

ssh_run-zero_Succeeded_example : Succeeded quiet_ssh lab_host restart 30 0
unfolding ssh_run remote_shell_command with_env safe_env_prefix assignments is_env_name name_rest
ssh_run-zero_Succeeded_example = ssh_run-zero_Succeeded quiet_ssh lab_host restart 30 0 refl

resolve_bootstrap_steps-ids_example : map (λ s. s.id) (b7 ∷ b1 ∷ []) ≡ "B7" ∷ "B1" ∷ []
unfolding resolve_bootstrap_steps lookup_steps find_step bootstrap_steps
resolve_bootstrap_steps-ids_example =
    resolve_bootstrap_steps-ids "full" (some ("B7" ∷ "B1" ∷ [])) (b7 ∷ b1 ∷ []) refl

resolve_bootstrap_steps-profile_example :
    (steps : List ShellRemoteStep) × (resolve_bootstrap_steps "full" none ≡ ok steps)
    × (map (λ s. s.id) steps ≡ modules_of full)
resolve_bootstrap_steps-profile_example = resolve_bootstrap_steps-profile full

resolve_bootstrap_steps_unknown_example :
    resolve_bootstrap_steps "minimal" (some ("B1" ∷ "B9" ∷ "B2" ∷ [])) ≡ err (key_error "B9")
unfolding find_step bootstrap_steps
resolve_bootstrap_steps_unknown_example =
    resolve_bootstrap_steps_unknown "minimal" ("B1" ∷ []) ("B2" ∷ []) "B9" ((_, refl), tt) refl

abbrev dry : ExecutionContext
dry = record {
  machine_id = "m1";
  dry_run = true;
  artifacts_prefix = "memory://artifacts";
  env = [];
}

abbrev dry_commands : List CommandRecord
dry_commands = (run_steps {F = ℕ} dry fake_executor (b2 ∷ []) []).1

run_steps-recording_example :
    (run_steps {F = ℕ} dry (recording fake_executor) (b2 ∷ []) ([], [])) ≡ (
      (run_steps {F = ℕ} dry fake_executor (b2 ∷ []) []).0,
      (dry_commands, all_phases dry (b2 ∷ [])),
    )
run_steps-recording_example = run_steps-recording ℕ dry fake_executor (b2 ∷ []) [] []

abbrev ended : ℤ → CommandResult
ended code = command_result (plain_command "true") code "" ""

step_result-status_example :
    (((step_result {F = ℕ} b2 dry (ended (pos 0)) (ended (pos 3)) (ended (pos 0))).status
        ≡ StepStatus.changed)
      ↔ ((pos 0 ≡ pos 0) × (pos 3 ≡ pos 0) × (pos 0 ≡ pos 0)))
    × IsReported b2
        (pos 0)
        (pos 3)
        (pos 0)
        (step_result {F = ℕ} b2 dry (ended (pos 0)) (ended (pos 3)) (ended (pos 0)))
step_result-status_example =
    step_result-status ℕ b2 dry (ended (pos 0)) (ended (pos 3)) (ended (pos 0)) (λ h. h) (λ h. h)
      (λ h. h)

step_result_negative_example :
    ((step_result {F = ℕ} b2 dry (ended (pos 0)) (ended (negsuc 0)) (ended (pos 0))).status
      ≡ StepStatus.changed)
    × ((step_result {F = ℕ} b2 dry (ended (pos 0)) (ended (negsuc 0)) (ended (pos 0))).exit_code
        ≡ pos 0)
    × ((step_result {F = ℕ} b2 dry (ended (pos 0)) (ended (negsuc 0)) (ended (pos 0))).failure_hint
        ≡ none)
step_result_negative_example =
    step_result_negative ℕ b2 dry (ended (pos 0)) (ended (negsuc 0)) (ended (pos 0)) refl tt refl
