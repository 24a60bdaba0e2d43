-- ===== src/Benchmark/Remote/Stops.antt =====
-- A server that a benchmark starts is stopped.
use inference_lab.Prelude.{
  ℕ, ◌≡◌, refl, ◌∙◌, String, true, false, some, List, [], ◌∷◌, ◌++◌, append_assoc, append-nil,
}
use inference_lab.Prelude.Float.{Floats}
use inference_lab.Prelude.Int.{is_zero}
use inference_lab.Prelude.Text.{is_empty}
use inference_lab.Result.{Result, ok, err}
use inference_lab.Schemas.{CommandRecord, CommandResult, plain_command}
use inference_lab.Executor.{RemoteExecutor}
use inference_lab.Steps.Running.{recording}
use inference_lab.Benchmark.Plan.{BenchmarkCommandPlan}
use inference_lab.Benchmark.Remote.{
  OutputReader, pid_of, setup_command, start_command, kill_command, cat_command, stop_server,
  read_result, bench, start_and_bench, serve_and_bench, run_remote_benchmark,
}

-- The command that reads the result is sent only if the stream returned.
abbrev pub reading : {A : Type 0} → BenchmarkCommandPlan → Result A → List CommandRecord
reading plan (err e) = []
reading plan (ok a) = cat_command plan ∷ []

module _ {F : Type 0} (fl : Floats F) (reader : OutputReader F) {W : Type 0}
    (ex : RemoteExecutor W) where
  abbrev streamed : BenchmarkCommandPlan → ℕ → W → Result (CommandResult × List String)
  streamed plan timeout w = (ex.stream (plain_command plan.bench_command) timeout w).0

  read_result-log :
      (plan : BenchmarkCommandPlan) (r : Result (CommandResult × List String)) (w : W)
      (log : List CommandRecord)
      → (read_result fl reader (recording ex) plan r (w, log)).1.1 ≡ log ++ reading plan r
  unfolding read_result
  read_result-log plan (err e) w log = rw append-nil
  read_result-log plan (ok (result, logs)) w log = refl

  bench-log :
      (plan : BenchmarkCommandPlan) (timeout : ℕ) (pid : String) (w : W) (log : List CommandRecord)
      → is_empty pid ≡ false
      → (bench fl reader (recording ex) plan timeout (some pid) (w, log)).1.1
        ≡ log
          ++ plain_command plan.bench_command
            ∷ kill_command pid
            ∷ reading plan (streamed plan timeout w)
  unfolding bench stop_server
  bench-log plan timeout pid w log h =
      let (r, after) = ex.stream (plain_command plan.bench_command) timeout w in
      rw h (
        read_result-log plan r (ex.run (kill_command pid) 30 after).1
          ((log ++ plain_command plan.bench_command ∷ []) ++ kill_command pid ∷ [])
        ∙ simp append_assoc)

  -- The state before the stream of a server that was started.
  abbrev after_start : BenchmarkCommandPlan → String → W → W
  after_start plan serve_command w =
      (ex.run (plain_command "sleep 10") 20
        (ex.run (start_command plan serve_command) 60 (ex.run (setup_command plan) 60 w).1).1).1

  -- A benchmark that started a server, and learnt its process from the output of the start, sends
  -- exactly these commands: the setup, the start, the wait, the benchmark, and the command that
  -- kills the server, which comes also if the stream of the benchmark raises; and at last, if it
  -- does not raise, the command that reads the result.
  pub run_remote_benchmark-stops :
      (plan : BenchmarkCommandPlan) (timeout : ℕ) (serve_command pid : String) (w : W)
      → plan.serve_command ≡ some serve_command
      → is_empty serve_command ≡ false
      → is_zero (ex.run (setup_command plan) 60 w).0.exit_code ≡ true
      → is_zero
          (ex.run
            (start_command plan serve_command)
            60
            (ex.run (setup_command plan) 60 w).1).0.exit_code
        ≡ true
      → pid_of
          (ex.run
            (start_command plan serve_command)
            60
            (ex.run (setup_command plan) 60 w).1).0.stdout
        ≡ some pid
      → is_empty pid ≡ false
      → (run_remote_benchmark fl reader (recording ex) plan timeout (w, [])).1.1
        ≡ setup_command plan
          ∷ start_command plan serve_command
          ∷ plain_command "sleep 10"
          ∷ plain_command plan.bench_command
          ∷ kill_command pid
          ∷ reading plan (streamed plan timeout (after_start plan serve_command w))
  unfolding run_remote_benchmark serve_and_bench start_and_bench start_command setup_command
      kill_command cat_command
  run_remote_benchmark-stops plan timeout serve_command pid w served given set_up started known
        pid_given =
      rw (set_up, served, given, started, known)
        (bench-log plan timeout pid (after_start plan serve_command w)
          (setup_command plan ∷ start_command plan serve_command ∷ plain_command "sleep 10" ∷ [])
          pid_given)
