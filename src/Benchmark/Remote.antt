-- ===== src/Benchmark/Remote.antt =====
-- `run_remote_benchmark` of backend/src/inflab/benchmark.py.
pub mod Stops
use Prim.Native.Char.{code}
use Prim.Native.String
use inference_lab.Prelude.{
  ℕ, String, Bool, true, false, Option, none, some, List, [], ◌∷◌, ◌++◌, put, if◌then◌else◌, ◌==◌,
  ℕ-eq, String-eq,
}
use inference_lab.Prelude.Float.{Floats}
use inference_lab.Prelude.Int.{ℤ, pos, is_zero}
use inference_lab.Prelude.Json.{Json, float, obj, fields}
use inference_lab.Prelude.Text.{◌<>◌, is_empty, join, strip, split_lines}
use inference_lab.Result.{Result, ok, err, value_error, ◌>>=◌}
use inference_lab.Schemas.{CommandRecord, CommandResult, plain_command}
use inference_lab.Shell.{quote}
use inference_lab.Executor.{RemoteExecutor}
use inference_lab.Benchmark.Plan.{BenchmarkCommandPlan}

-- `json.loads`, none for a `JSONDecodeError`, and the first group of
-- `re.search(pattern, raw, re.IGNORECASE)`.
pub record OutputReader (F : Type 0) : Type 0 where
  pub loads : String → Option (Json F)
  pub search : (pattern raw : String) → Option String

abbrev Facts : Type 0 → Type 0
Facts F = List (String × Json F)

abbrev patterns : List (String × String)
patterns =
    ("request_throughput", "Request throughput.*?:\\s*([0-9.]+)")
    ∷ ("output_throughput", "Output token throughput.*?:\\s*([0-9.]+)")
    ∷ ("total_token_throughput", "Total token throughput.*?:\\s*([0-9.]+)")
    ∷ ("mean_ttft_ms", "Mean TTFT.*?:\\s*([0-9.]+)")
    ∷ ("median_ttft_ms", "Median TTFT.*?:\\s*([0-9.]+)")
    ∷ ("p99_ttft_ms", "P99 TTFT.*?:\\s*([0-9.]+)")
    ∷ []

abbrev dict_of : {F : Type 0} → Option (Json F) → Option (Facts F)
dict_of (some (obj m)) = some (fields m)
dict_of _ = none

module _ {F : Type 0} (fl : Floats F) (reader : OutputReader F) where
  read_float : Option F → Result F
  read_float none = err (value_error "could not convert string to float")
  read_float (some x) = ok x

  -- A fact from what the search found.
  found : String → Option String → Facts F → Result (Facts F)
  unfolding read_float
  found key none facts = ok facts
  found key (some group) facts = do x ← read_float (fl.of_text group); ok (put key (float x) facts)

  search_all : String → List (String × String) → Facts F → Result (Facts F)
  unfolding found
  search_all raw [] facts = ok facts
  search_all raw ((key, pattern) ∷ more) facts = do
    next ← found key (reader.search pattern raw) facts
    search_all raw more next

  unfoldable pub parse_vllm_bench_output : String → Result (Facts F)
  unfolding search_all
  parse_vllm_bench_output raw =
      let s = strip raw in
      if is_empty s then ok [] else elim (dict_of (reader.loads s)) [
        | some facts ↦ ok facts
        | none ↦ search_all raw patterns []
      ]

  or_dict : Facts F → String → Facts F
  or_dict [] raw = elim (dict_of (reader.loads raw)) [ some facts ↦ facts | none ↦ [] ]
  or_dict (fact ∷ facts) raw = fact ∷ facts

  unfoldable pub parse_sglang_bench_output : String → Result (Facts F)
  unfolding or_dict
  parse_sglang_bench_output raw = do facts ← parse_vllm_bench_output raw; ok (or_dict facts raw)

-- What precedes the last slash, none without one.
before_slash : String → Option String
before_slash String.[] = none
before_slash (String.◌∷◌ c s) = elim (before_slash s) [
  | some rest ↦ some (String.◌∷◌ c rest)
  | none ↦ if code c == b'/' then some "" else none
]

-- `path.rsplit("/", 1)[0]`
directory : String → String
unfolding before_slash
directory path = elim (before_slash path) [ some front ↦ front | none ↦ path ]

unfoldable pub last_of : String → List String → String
last_of before [] = before
last_of before (line ∷ lines) = last_of line lines

-- The last line of the stripped output, none where nothing is left of it.
unfoldable pub pid_of : String → Option String
unfolding last_of
pid_of stdout = elim (split_lines (strip stdout)) [
  | [] ↦ none
  | line ∷ lines ↦ some (last_of line lines)
]

pub data RemoteRun (F : Type 0) : Type 0 where
  -- A failed setup or start, with its standard error.
  not_started : String → RemoteRun F
  ran :
      (status : String) (exit_code : ℤ) (logs : List String) (stdout stderr raw_result : String)
      (parsed : Facts F)
      → RemoteRun F

-- The commands, in the order in which they are sent.
unfoldable pub setup_command : BenchmarkCommandPlan → CommandRecord
unfolding directory
setup_command plan = plain_command ("mkdir -p " <> quote (directory plan.result_path))

unfoldable pub start_command : BenchmarkCommandPlan → String → CommandRecord
start_command plan serve_command = plain_command (
    "nohup "
    <> (serve_command
        <> (" > " <> (quote (plan.result_path <> ".server.log") <> " 2>&1 < /dev/null & echo $!"))))

unfoldable pub kill_command : String → CommandRecord
kill_command pid = plain_command ("kill " <> (quote pid <> " || true"))

unfoldable pub cat_command : BenchmarkCommandPlan → CommandRecord
cat_command plan = plain_command ("cat " <> (quote plan.result_path <> " || true"))

module _ {F : Type 0} (fl : Floats F) (reader : OutputReader F) {W : Type 0}
    (executor : RemoteExecutor W) where
  -- The `finally` clause.
  stop_server : Option String → W → W
  stop_server none w = w
  stop_server (some pid) w = if is_empty pid then w else (executor.run (kill_command pid) 30 w).1

  parsed_run :
      BenchmarkCommandPlan → CommandResult → List String → CommandResult → Result (RemoteRun F)
  parsed_run plan result logs raw = do
    let output = if is_empty raw.stdout then join "\n" logs else raw.stdout
    parsed ←
        (if plan.framework == "sglang"
          then parse_sglang_bench_output fl reader output
          else parse_vllm_bench_output fl reader output)
    ok (
        ran (if is_zero result.exit_code then "succeeded" else "failed") result.exit_code logs
          result.stdout result.stderr raw.stdout parsed)

  -- After the stream; an exception of the stream passes on.
  read_result :
      BenchmarkCommandPlan → Result (CommandResult × List String) → W → Result (RemoteRun F) × W
  unfolding parsed_run
  read_result plan (err e) w = (err e, w)
  read_result plan (ok (result, logs)) w =
      let (raw, after) = executor.run (cat_command plan) 30 w in
      (parsed_run plan result logs raw, after)

  bench : BenchmarkCommandPlan → ℕ → Option String → W → Result (RemoteRun F) × W
  unfolding stop_server read_result
  bench plan timeout pid w =
      let (streamed, after) = executor.stream (plain_command plan.bench_command) timeout w in
      read_result plan streamed (stop_server pid after)

  start_and_bench : BenchmarkCommandPlan → ℕ → String → W → Result (RemoteRun F) × W
  unfolding bench pid_of
  start_and_bench plan timeout serve_command w =
      let (start, w1) = executor.run (start_command plan serve_command) 60 w in
      let (slept, w2) = executor.run (plain_command "sleep 10") 20 w1 in
      if is_zero start.exit_code
      then bench plan timeout (pid_of start.stdout) w2
      else (ok (not_started start.stderr), w1)

  serve_and_bench : BenchmarkCommandPlan → ℕ → Option String → W → Result (RemoteRun F) × W
  unfolding bench start_and_bench
  serve_and_bench plan timeout none w = bench plan timeout none w
  serve_and_bench plan timeout (some serve_command) w =
      if is_empty serve_command
      then bench plan timeout none w
      else start_and_bench plan timeout serve_command w

  unfoldable pub run_remote_benchmark : BenchmarkCommandPlan → ℕ → W → Result (RemoteRun F) × W
  unfolding serve_and_bench
  run_remote_benchmark plan timeout w =
      let (setup, after) = executor.run (setup_command plan) 60 w in
      if is_zero setup.exit_code
      then serve_and_bench plan timeout plan.serve_command after
      else (ok (not_started setup.stderr), after)
