-- ===== src/Executor/Ssh.antt =====
-- `AsyncSSHExecutor` of backend/src/inflab/executor.py. The SSH library and the remote machine are
-- a parameter: what a connection answers to a line, and how it changes the state `W`.
pub mod Outcomes
use inference_lab.Prelude.{
  ℕ, ◌≡◌, refl, String, Bool, true, false, ◌||◌, Option, none, some, List, [], ◌∷◌, map,
  if◌then◌else◌, arith, ◌==◌, ℕ-eq, String-eq, keep,
}
use inference_lab.Prelude.Int.{ℤ, pos, negsuc}
use inference_lab.Prelude.Text.{◌<>◌, is_empty, join, show, strip, rstrip_by}
use inference_lab.Result.{Result, ok, err, message, value_error, ◌>>=◌}
use inference_lab.Schemas.{CommandRecord, plain_command, CommandResult, command_result}
use inference_lab.Executor.{RemoteExecutor, remote_shell_command}

pub record SshConnectionConfig : Type 0 where
  pub host : String
  pub port : ℕ
  pub username : Option String
  pub credential_type : String
  pub secret : Option String
  pub known_hosts_policy : String
  pub connect_timeout_seconds : ℕ

pub data Authentication : Type 0 where
  agent : Authentication
  password client_key : String → Authentication

-- The keyword arguments of `asyncssh.connect`. `unchecked_hosts` is the entry `known_hosts=None`.
pub record ConnectKwargs : Type 0 where
  pub port : ℕ
  pub username : Option String
  pub connect_timeout : ℕ
  pub unchecked_hosts : Bool
  pub authentication : Authentication

unfoldable pub authentication : String → Option String → Authentication
authentication credential_type none = agent
authentication credential_type (some secret) =
    if is_empty secret
    then agent
    else if credential_type == "private_key"
    then client_key secret
    else password secret

unfoldable pub connect_kwargs : SshConnectionConfig → ConnectKwargs
unfolding authentication
connect_kwargs config = record {
  port = config.port;
  username = config.username;
  connect_timeout = config.connect_timeout_seconds;
  unchecked_hosts = config.known_hosts_policy == "permissive";
  authentication = authentication config.credential_type config.secret;
}

-- How a command on a connection ends. `refused` is an `OSError`, an `asyncssh.Error` or a
-- `ValueError`, and carries its text.
pub data Outcome : Type 0 where
  completed : (exit_status : Option ℤ) (exit_signal stdout stderr : Option String) → Outcome
  timed_out refused : String → Outcome

-- A line of a stream, from the standard output or the standard error.
pub data StreamLine : Type 0 where
  out_line err_line : String → StreamLine

-- How a streamed process ends, after the lines that it sent.
pub data StreamEnd : Type 0 where
  closed : (exit_status returncode : Option ℤ) (exit_signal : Option String) → StreamEnd
  stream_timed_out stream_refused : String → StreamEnd

pub record SshLibrary (W : Type 0) : Type 0 where
  pub exec : String → ConnectKwargs → String → ℕ → W → Outcome × W
  pub exec_stream : String → ConnectKwargs → String → ℕ → W → (List StreamLine × StreamEnd) × W
  -- A transfer over SFTP, from one path to another: none, or the text of its error.
  pub sftp_put : String → ConnectKwargs → String → String → W → Option String × W
  pub sftp_get : String → ConnectKwargs → String → String → W → Option String × W

abbrev or_empty : Option String → String
or_empty none = ""
or_empty (some s) = s

abbrev or_255 : Option ℤ → ℤ
or_255 none = pos 255
or_255 (some n) = n

abbrev or_else : Option ℤ → Option ℤ → Option ℤ
or_else none b = b
or_else (some a) b = some a

with_signal : String → Option String → String
with_signal stderr none = stderr
with_signal stderr (some signal) = strip (stderr <> ("\nexit signal: " <> signal))

timeout_text : ℕ → String → String
timeout_text seconds exc = "SSH command timed out after " <> (show seconds <> ("s: " <> exc))

-- `CommandRecord(command=remote_command, cwd=…, env=…, sudo=…)`
abbrev pub executed : CommandRecord → String → CommandRecord
executed command line = record command { command = line }

result_of : CommandRecord → String → ℕ → Outcome → CommandResult
unfolding with_signal timeout_text
result_of command line timeout (completed status signal stdout stderr) =
    command_result (executed command line) (or_255 status) (or_empty stdout)
      (with_signal (or_empty stderr) signal)
result_of command line timeout (timed_out exc) =
    command_result (executed command line) (pos 124) "" (timeout_text timeout exc)
result_of command line timeout (refused exc) = command_result command (pos 255) "" exc

out_lines : List StreamLine → List String
out_lines [] = []
out_lines (out_line s ∷ more) = s ∷ out_lines more
out_lines (err_line s ∷ more) = out_lines more

err_lines : List StreamLine → List String
err_lines [] = []
err_lines (out_line s ∷ more) = err_lines more
err_lines (err_line s ∷ more) = s ∷ err_lines more

abbrev trim : String → String
trim = rstrip_by (λ c. c == 13 || c == 10)

trimmed : StreamLine → StreamLine
trimmed (out_line s) = out_line (trim s)
trimmed (err_line s) = err_line (trim s)

line_text : StreamLine → String
line_text (out_line s) = s
line_text (err_line s) = s

stream_result : CommandRecord → String → ℕ → List StreamLine → StreamEnd → CommandResult
unfolding with_signal timeout_text out_lines err_lines
stream_result command line timeout lines (closed status returncode signal) =
    command_result (executed command line) (or_255 (or_else status returncode))
      (join "\n" (out_lines lines)) (with_signal (join "\n" (err_lines lines)) signal)
stream_result command line timeout lines (stream_timed_out exc) =
    command_result (executed command line) (pos 124) (join "\n" (out_lines lines))
      (strip (join "\n" (err_lines lines) <> ("\n" <> timeout_text timeout exc)))
stream_result command line timeout lines (stream_refused exc) =
    command_result command (pos 255) "" exc

module _ {W : Type 0} (ssh : SshLibrary W) (config : SshConnectionConfig) where
  -- The body of the `try`: `_connection` refuses an empty host.
  run_line : CommandRecord → String → ℕ → W → CommandResult × W
  unfolding result_of
  run_line command line timeout w =
      if is_empty config.host
      then (command_result command (pos 255) "" "SSH host is required", w)
      else (let (outcome, after) = ssh.exec config.host (connect_kwargs config) line timeout w in
          (result_of command line timeout outcome, after))

  -- A `ValueError` of the line is caught here.
  run_built : Result String → CommandRecord → ℕ → W → CommandResult × W
  run_built (err exc) command timeout w = (command_result command (pos 255) "" (message exc), w)
  run_built (ok line) command timeout w = run_line command line timeout w

  unfoldable pub ssh_run : CommandRecord → ℕ → W → CommandResult × W
  unfolding run_built run_line
  ssh_run command = run_built (remote_shell_command command) command

  stream_line : CommandRecord → String → ℕ → W → (CommandResult × List String) × W
  stream_line command line timeout w =
      if is_empty config.host
      then ((command_result command (pos 255) "" "SSH host is required", []), w)
      else (let (r, after) = ssh.exec_stream config.host (connect_kwargs config) line timeout w in
          let lines = map trimmed r.0 in
          ((stream_result command line timeout lines r.1, map line_text lines), after))

  -- A transfer, for its command, what it says when it is done, and the call of the library.
  transfer : CommandRecord → String → (W → Option String × W) → W → CommandResult × W
  transfer command done call w =
      if is_empty config.host
      then (command_result command (pos 255) "" "SSH host is required", w)
      else (let (failed, after) = call w in
          (
            elim failed [
              | none ↦ command_result command (pos 0) done ""
              | some exc ↦ command_result command (pos 255) "" exc
            ],
            after,
          ))

  unfoldable ssh_upload : String → String → W → CommandResult × W
  unfolding transfer
  ssh_upload local_path remote_path =
      transfer (plain_command ("sftp put " <> (local_path <> (" " <> remote_path))))
        ("uploaded " <> local_path)
        (ssh.sftp_put config.host (connect_kwargs config) local_path remote_path)

  unfoldable ssh_download : String → String → W → CommandResult × W
  unfolding transfer
  ssh_download remote_path local_path =
      transfer (plain_command ("sftp get " <> (remote_path <> (" " <> local_path))))
        ("downloaded " <> remote_path)
        (ssh.sftp_get config.host (connect_kwargs config) remote_path local_path)

  -- Here the line is built before the `try`, so its `ValueError` is not caught.
  pub ssh_stream : CommandRecord → ℕ → W → Result (CommandResult × List String) × W
  unfolding stream_line
  ssh_stream command timeout w = elim (remote_shell_command command) [
    | err exc ↦ (err exc, w)
    | ok line ↦ (let (r, after) = stream_line command line timeout w in (ok r, after))
  ]

  pub ssh_executor : RemoteExecutor W
  unfolding ssh_run ssh_stream
  ssh_executor = record { run = ssh_run; stream = ssh_stream }
