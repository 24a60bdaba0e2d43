-- ===== src/Executor.antt =====
-- backend/src/inflab/executor.py: what an executor of remote commands offers, the executor of dry
-- runs, and the shell line that is sent over SSH.
pub mod Ssh
pub mod Words
pub mod Environment
use Prim.Native.Char.{Char, code}
use Prim.Native.String.{[], ◌∷◌}
use mathlib.Core.List
use inference_lab.Prelude.{
  ℕ, String, Bool, true, false, ◌&&◌, ◌||◌, Option, none, some, List, ◌==◌, ℕ-eq, leb,
  if◌then◌else◌, ◌++◌,
}
use inference_lab.Prelude.Int.{ℤ, pos}
use inference_lab.Prelude.Text.{◌<>◌, is_empty, join, split_lines}
use inference_lab.Result.{Result, ok, err, value_error, ◌>>=◌}
use inference_lab.Schemas.{CommandRecord, plain_command, CommandResult, command_result}
use inference_lab.Shell.{quote}

pub record ExecutionContext : Type 0 where
  pub machine_id : String
  pub dry_run : Bool
  pub artifacts_prefix : String
  pub env : List (String × String)

-- `RemoteExecutor`: each method may change the state `W` of the machines that it reaches. `run`
-- takes its timeout in seconds, and raises nothing in the executors that the program connects.
-- `stream` also returns the lines that it hands to `on_line`, and may raise.
pub record RemoteExecutor (W : Type 0) : Type 0 where
  pub run : CommandRecord → ℕ → W → CommandResult × W
  pub stream : CommandRecord → ℕ → W → Result (CommandResult × List String) × W

-- `FakeExecutor`: its state is the list of the commands that it was given.
unfoldable pub fake_run :
    CommandRecord → ℕ → List CommandRecord → CommandResult × List CommandRecord
fake_run command timeout commands = (
  command_result command (pos 0) ("dry-run: " <> command.command) "",
  commands ++ List.◌∷◌ command List.[],
)

-- `FakeExecutor.upload` and `FakeExecutor.download` run a command of the same name.
unfoldable fake_upload : String → String → List CommandRecord → CommandResult × List CommandRecord
unfolding fake_run
fake_upload local_path remote_path =
    fake_run (plain_command ("upload " <> (local_path <> (" " <> remote_path)))) 30

unfoldable fake_download : String → String → List CommandRecord → CommandResult × List CommandRecord
unfolding fake_run
fake_download remote_path local_path =
    fake_run (plain_command ("download " <> (remote_path <> (" " <> local_path)))) 30

fake_stream :
    CommandRecord → ℕ → List CommandRecord → (CommandResult × List String) × List CommandRecord
fake_stream command timeout commands =
    let (result, after) = fake_run command timeout commands in
    ((result, split_lines result.stdout ++ split_lines result.stderr), after)

unfoldable pub fake_executor : RemoteExecutor (List CommandRecord)
unfolding fake_run fake_stream
fake_executor = record {
  run = fake_run;
  stream = λ command timeout w. let (r, w') = fake_stream command timeout w in (ok r, w');
}

abbrev pub is_name_start : ℕ → Bool
is_name_start c = (leb b'A' c && leb c b'Z') || (leb b'a' c && leb c b'z') || c == b'_'

abbrev pub is_name_char : ℕ → Bool
is_name_char c = is_name_start c || (leb b'0' c && leb c b'9')

-- The rest of `^[A-Za-z_][A-Za-z0-9_]*$`: in Python `$` also matches before a last newline.
unfoldable pub name_rest : String → Bool
name_rest [] = true
name_rest (c ∷ s) = (is_name_char (code c) && name_rest s) || (code c == 10 && is_empty s)

-- `_ENV_NAME.match(name)`
unfoldable pub is_env_name : String → Bool
is_env_name [] = false
is_env_name (c ∷ s) = is_name_start (code c) && name_rest s

-- The loop of `_safe_env_prefix`.
unfoldable pub assignments : List (String × String) → Result (List String)
assignments List.[] = ok List.[]
assignments (List.◌∷◌ (name, value) env) =
    let rest = assignments env in
    if is_env_name name
    then (do more ← rest; ok (List.◌∷◌ (name <> ("=" <> quote value)) more))
    else err (value_error ("Invalid remote environment variable name: " <> name))

unfoldable pub safe_env_prefix : List (String × String) → Result String
safe_env_prefix env = do parts ← assignments env; ok (join " " parts)

unfoldable pub with_env : List (String × String) → String → Result String
with_env List.[] line = ok line
with_env (List.◌∷◌ e env) line = do
  prefix ← safe_env_prefix (List.◌∷◌ e env)
  ok ("env " <> (prefix <> (" " <> line)))

unfoldable pub with_cwd : Option String → String → String
with_cwd none line = line
with_cwd (some cwd) line = if is_empty cwd then line else "cd " <> (quote cwd <> (" && " <> line))

unfoldable pub with_sudo : Bool → String → String
with_sudo true line = "sudo -n -- sh -lc " <> quote line
with_sudo false line = line

unfoldable pub remote_shell_command : CommandRecord → Result String
remote_shell_command command = do
  line ← with_env command.env command.command
  ok (with_sudo command.sudo (with_cwd command.cwd line))
