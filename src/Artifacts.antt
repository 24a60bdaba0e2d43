-- ===== src/Artifacts.antt =====
-- backend/src/inflab/artifacts.py: the distribution of a model to a machine.
pub mod Distribution
use inference_lab.Prelude.{
  ℕ, String, Bool, Option, none, some, List, [], ◌∷◌, get, ◌==◌, String-eq, if◌then◌else◌,
}
use inference_lab.Prelude.Int.{ℤ}
use inference_lab.Prelude.Text.{◌<>◌, is_empty, join}
use inference_lab.Schemas.{CommandRecord, CommandResult, plain_command}
use inference_lab.Shell.{quote}
use inference_lab.Executor.{RemoteExecutor}

-- `distribution_plan(source, path)["plan"]`
unfoldable pub distribution_plan : String → String → String
distribution_plan source path =
    if source == "rsync"
    then "rsync --partial --checksum " <> (path <> (" target:" <> path))
    else if source == "nfs"
    then "test -d " <> (path <> " on mounted NFS path")
    else if source == "minio"
    then "aws s3 sync object prefix into " <> path
    else if source == "huggingface"
    then "huggingface-cli download into " <> path
    else if source == "modelscope"
    then "modelscope download into " <> path
    else "model already available at " <> path

unfoldable pub model_distribution_command : String → String → String → String
model_distribution_command source cache_path target_path =
    let cache = quote cache_path in
    let target = quote target_path in
    if source == "rsync"
    then join "" (
        "mkdir -p " ∷ target ∷ " && rsync -a --partial --checksum " ∷ cache ∷ "/ " ∷ target ∷ "/"
        ∷ [])
    else if source == "nfs"
    then join ""
        ("test -d " ∷ cache ∷ " && mkdir -p " ∷ target ∷ " && ln -sfn " ∷ cache ∷ " " ∷ target ∷ [])
    else if source == "minio"
    then join "" ("mkdir -p " ∷ target ∷ " && aws s3 sync " ∷ cache ∷ " " ∷ target ∷ [])
    else if source == "huggingface"
    then join "" (
        "mkdir -p " ∷ target ∷ " && huggingface-cli download " ∷ cache ∷ " --local-dir " ∷ target
        ∷ " --resume-download" ∷ [])
    else if source == "modelscope"
    then join "" (
        "mkdir -p " ∷ target ∷ " && modelscope download --model " ∷ cache ∷ " --local_dir " ∷ target
        ∷ [])
    else "test -e " <> cache

hash_command : String → String
hash_command target = join "" (
    "if [ -d " ∷ target ∷ " ]; then find " ∷ target
    ∷ " -type f -print0 | sort -z | xargs -0 sha256sum | sha256sum | awk '{print $1}'; else sha256sum "
    ∷ target ∷ " | awk '{print $1}'; fi" ∷ [])

checked_command : String → String → String
unfolding hash_command
checked_command target expected =
    if is_empty expected
    then "test -e " <> target
    else join "" (
        "actual=$("
        ∷ hash_command target
        ∷ "); test \"$actual\" = "
        ∷ quote expected
        ∷ " || (echo \"sha256 mismatch: expected "
        ∷ expected
        ∷ " actual $actual\" >&2; exit 1)"
        ∷ [])

unfoldable pub model_verification_command : String → Option String → String
unfolding checked_command
model_verification_command target_path none = "test -e " <> quote target_path
model_verification_command target_path (some expected) =
    checked_command (quote target_path) expected

pub record DistributionResult : Type 0 where
  pub command : String
  pub exit_code : ℤ
  pub verify_command : String
  pub verify_exit_code : ℤ
  pub stdout : String
  pub stderr : String
  pub expected_sha256 : Option String

unfoldable pub distribute_model :
    {W : Type 0}
    → RemoteExecutor W
    → (source cache_path target_path : String) → Option String
    → W
    → DistributionResult × W
distribute_model executor source cache_path target_path expected w =
    let (result, w1) =
      executor.run (plain_command (model_distribution_command source cache_path target_path)) 3600
        w in
    let (verify, w2) =
      executor.run (plain_command (model_verification_command target_path expected)) 600 w1 in
    (
      record {
        command = result.command.command;
        exit_code = result.exit_code;
        verify_command = verify.command.command;
        verify_exit_code = verify.exit_code;
        stdout = result.stdout;
        stderr = result.stderr;
        expected_sha256 = expected;
      },
      w2,
    )
