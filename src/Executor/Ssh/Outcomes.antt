-- ===== src/Executor/Ssh/Outcomes.antt =====
-- When a command that is run over SSH counts as a success.
use inference_lab.Prelude.{
  ℕ, ◌≡◌, ◌≢◌, refl, String, Option, none, some, arith, Bool-cases, inl, inr,
}
use inference_lab.Prelude.Int.{pos}
use inference_lab.Prelude.Text.{is_empty}
use inference_lab.Result.{Result, ok, err}
use inference_lab.Schemas.{CommandRecord}
use inference_lab.Executor.{remote_shell_command}
use inference_lab.Executor.Ssh.{
  SshLibrary, SshConnectionConfig, connect_kwargs, Outcome, completed, timed_out, refused,
  result_of, run_line, run_built, ssh_run,
}

not_255 : pos 255 ≢ pos 0
not_255 h = ground arith

not_124 : pos 124 ≢ pos 0
not_124 h = ground arith

module _ {W : Type 0} (ssh : SshLibrary W) (config : SshConnectionConfig) where
  -- A command that ended with status 0 over the connection.
  pub record Succeeded (command : CommandRecord) (timeout : ℕ) (w : W) : Type 0 where
    pub line : String
    pub built : remote_shell_command command ≡ ok line
    pub signal : Option String
    pub stdout : Option String
    pub stderr : Option String
    pub ended :
        (ssh.exec config.host (connect_kwargs config) line timeout w).0
        ≡ completed (some (pos 0)) signal stdout stderr

  outcome-Succeeded :
      (command : CommandRecord) (line : String) (timeout : ℕ) (w : W) (outcome : Outcome)
      → remote_shell_command command ≡ ok line
      → (ssh.exec config.host (connect_kwargs config) line timeout w).0 ≡ outcome
      → (result_of command line timeout outcome).exit_code ≡ pos 0
      → Succeeded command timeout w
  unfolding result_of
  outcome-Succeeded command line timeout w (completed (some n) signal stdout stderr) b e h =
      record {
        line = line;
        built = b;
        signal = signal;
        stdout = stdout;
        stderr = stderr;
        ended = cc;
      }
  outcome-Succeeded command line timeout w (completed none signal stdout stderr) b e h =
      absurd (ground arith)
  outcome-Succeeded command line timeout w (timed_out exc) b e h = absurd (ground arith)
  outcome-Succeeded command line timeout w (refused exc) b e h = absurd (ground arith)

  run_line-Succeeded :
      (command : CommandRecord) (line : String) (timeout : ℕ) (w : W)
      → remote_shell_command command ≡ ok line
      → (run_line ssh config command line timeout w).0.exit_code ≡ pos 0
      → Succeeded command timeout w
  unfolding run_line
  run_line-Succeeded command line timeout w b h = elim (Bool-cases (is_empty config.host)) [
    | inl none_given ↦ absurd (not_255 (rw none_given at h))
    | inr given ↦ outcome-Succeeded command line timeout w _ b refl (rw given at h)
  ]

  run_built-Succeeded :
      (r : Result String) (command : CommandRecord) (timeout : ℕ) (w : W)
      → remote_shell_command command ≡ r
      → (run_built ssh config r command timeout w).0.exit_code ≡ pos 0
      → Succeeded command timeout w
  run_built-Succeeded (err exc) command timeout w b h = absurd (not_255 (unfold run_built in h))
  run_built-Succeeded (ok line) command timeout w b h =
      run_line-Succeeded command line timeout w b (unfold run_built in h)

  -- The exit code of `run` is 0 only if the line was built, the connection was made and the remote
  -- process ended with status 0: no error, timeout or missing status looks like success.
  pub ssh_run-zero_Succeeded :
      (command : CommandRecord) (timeout : ℕ) (w : W)
      → (ssh_run ssh config command timeout w).0.exit_code ≡ pos 0
      → Succeeded command timeout w
  ssh_run-zero_Succeeded command timeout w h =
      run_built-Succeeded (remote_shell_command command) command timeout w refl
        (unfold ssh_run in h)
