-- ===== src/Lib.antt =====
-- InferenceLab: a model of the program's core under backend/src/inflab, and what makes it correct.
--
-- The program manages GPU machines over SSH. An executor (executor.py) turns a command with its
-- directory, environment and `sudo` into one shell line and sends it; the steps of a scripted
-- bootstrap (steps.py) and the benchmark runner (benchmark.py) run through such an executor. The
-- tuning loop (tuning.py) plans candidates of framework parameters, runs each and reports the best.
-- The handlers of the API (api/v1.py) read and write the database and call these parts for a
-- machine, an experiment or a job; a worker (worker_tasks.py) runs the jobs of the queue.
--
--   Prelude    lists, tests, texts, integers, JSON values and floats that the modules share
--   Result     exceptions as values
--   Schemas    the enumerations and records of schemas.py
--   Shell      `shlex.quote`; in Shell.Lexer the word rules of the POSIX shell, in Shell.Quoting and
--              Shell.Words what it reads in quoted texts and in joined words
--   Executor   executor.py: `_remote_shell_command`, FakeExecutor; Executor.Ssh: AsyncSSHExecutor
--   Steps      steps.py: ShellRemoteStep, run_step, run_steps; Steps.Catalog: BOOTSTRAP_STEPS
--   Tuning     tuning.py: plan_candidates, standard_matrix (Tuning.Matrix), the loop (Tuning.Loop)
--   Discovery  discovery.py: the allowlist, `_parse_*` and the profile (Discovery.Profile), and
--              `evaluate_discovery` and the runs (Discovery.Verdict); parse_nvidia_smi_csv of probe.py
--   Security   security.py: encryption of credentials, masking and redaction
--   Plugins    plugins.py: launch commands
--   Benchmark  benchmark.py: metrics and validate_fair_comparison; Benchmark.Plan: the command
--              plans; Benchmark.Remote: run_remote_benchmark
--   Jobs       jobs.py: FakeQueue and RQQueue over a table of pending and committed rows
--   Artifacts  artifacts.py: the distribution of a model and its verification
--   Machines   api/v1.py: the row of create_machine and `_ssh_executor_for_machine`; SSHCredential
--   Database   db/models.py: the rows and tables; Database.Session: sessions and actions on them
--   Settings   api/v1.py: the agent settings; their validation and the key in effect in child modules
--   Agents     agent_executor.py: plans, prompts and the Pi workflow; Llm: llm_provider.py
--   Probe      probe.py: probe_remote_machine; ObjectStore: the upload of object_store.py
--   Api        api/v1.py: Api.Machines, Api.Discovery, Api.Bootstrap, Api.Plans, Api.Trials,
--              Api.Experiments, Api.Models, Api.Artifacts, Api.Benchmarks, Api.Persistence
--              (benchmark_artifacts.py) and Api.Reports (with reports.py); Api.Soundness: sequences of
--              requests
--   Worker     worker_tasks.py: the task that runs a remote benchmark
--   Samples    the theorems at concrete inputs
--
-- State that the code keeps elsewhere is passed explicitly: an executor acts on a state `W` of the
-- machines that it reaches, a queue on its table of rows. Loops over lists are structural
-- recursion. The loop of `_key_stream` runs for as many rounds as it needs bytes, which is enough
-- since every round adds 32 bytes, and printing a number for one more round than the number.
--
-- Code outside the repository is a parameter: the SSH library (`SshLibrary`), random numbers
-- (`Rng`), floats (`Floats`), encodings and hashes (`Codecs`), JSON, character tests and regular
-- expressions (`PythonText`, `OutputReader`), and Redis (`submit`). Integers of a request are
-- natural numbers where its schema bounds them from below.
--
-- A database session (Database.Session) holds the pending and the committed tables, and an action
-- is a function of the session. Identifiers of new rows are those that `new_id` of the deployment
-- gives, `enforces_keys` says whether the database checks foreign keys, and the object store, the
-- LLM library and the subprocess of an agent (`S3Client`, `LlmLibrary`, `Subprocess`) are
-- parameters as well. A payload that pydantic has validated is a record of Schemas.
--
-- Not modelled: time stamps, the local executor of executor.py, migrations, the export of reports
-- to other formats, company_report.py, demo_data.py, the endpoints of images, metrics and run
-- logs, endpoints that only list rows, the HTTP layer, logging, and the web frontend.
pub mod Prelude
pub mod Result
pub mod Shell
pub mod Schemas
pub mod Executor
pub mod Steps
pub mod Tuning
pub mod Security
pub mod Discovery
pub mod Plugins
pub mod Benchmark
pub mod Jobs
pub mod Artifacts
pub mod Machines
pub mod Database
pub mod Agents
pub mod Settings
pub mod Llm
pub mod Probe
pub mod ObjectStore
pub mod Api
pub mod Worker
pub mod Samples
