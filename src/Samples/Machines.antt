-- ===== src/Samples/Machines.antt =====
-- Discoveries of machines.
use inference_lab.Prelude.{
  ℕ, suc, ◌*◌, ◌+◌, ◌-◌, String, Bool, List, some, ◌∷◌, all, leb, not, ◌&&◌, if◌then◌else◌, ◌≡◌,
  refl, true, false, none, [], ◌++◌,
}
use inference_lab.Prelude.Int.{pos}
use inference_lab.Result.{ok, err, value_error}
use inference_lab.Prelude.Float.{Floats}
use inference_lab.Schemas.{command_result}
use inference_lab.Executor.{RemoteExecutor}
use inference_lab.Steps.Running.{recording}
use inference_lab.Discovery.{
  PythonText, MachineContext, stdout_of, result_failed, safe_discovery_commands,
}
use inference_lab.Discovery.Profile.{
  build_profile, memory_gb, parse_nvidia_smi_csv, split_on, without_point,
}
use inference_lab.Prelude.Text.{split_lines, strip, contains, codes, is_empty}
use inference_lab.Discovery.Verdict.{Discovery, evaluate_discovery, run_discovery}
use inference_lab.Discovery.Verdict.Ready.{Evidence, run_discovery-ready}
use inference_lab.Discovery.Verdict.Sent.{sent, run_discovery-recording}
use inference_lab.Samples.Values.{millionths, value_of}

-- Sees digits nowhere.
abbrev pub wordy : PythonText ℕ
wordy = record {
  loads = λ _. none;
  dumps = λ _. "{}";
  is_digit = λ _. false;
  to_int = λ _. ok (pos 0);
  is_alnum = λ _. true;
  sha256_hex = λ s. s;
  show_value = λ v. "{}";
}

abbrev is_digits : String → Bool
is_digits s = not (is_empty s) && all (λ c. leb 48 c && leb c 57) (codes s)

abbrev value : ℕ → List ℕ → ℕ
value n [] = n
value n (c ∷ digits) = value (n * 10 + (c - 48)) digits

-- Reads decimal numbers.
abbrev decimal : PythonText ℕ
decimal = record wordy {
  is_digit = is_digits;
  to_int = λ s.
      if is_digits s then ok (pos (value 0 (codes s))) else err (value_error "invalid literal");
}

-- Reads floats as well, the digits behind a point as if it were not there.
abbrev pointless : Floats ℕ
pointless = record millionths {
  of_text = λ s.
      if is_digits (without_point s)
      then some (value 0 (codes (without_point s)) * 1000000)
      else none;
}

abbrev lab_machine : MachineContext
lab_machine = record {
  id = "m1";
  name = "lab";
  host = "gpu-1";
  port = 22;
  username = "root";
  runtime_mode = "container";
}

-- Gives every command the same answer, and counts.
abbrev uniform : RemoteExecutor ℕ
uniform = record {
  run = λ c t w. (command_result c (pos 0) "0, A, 8, 5, 12 /data" "", suc w);
  stream = λ c t w. (ok (command_result c (pos 0) "" "", []), suc w);
}

-- Has a GPU, and answers every other command with a number.
abbrev numbers : RemoteExecutor ℕ
numbers = record uniform {
  run = λ c t w. (
    command_result c (pos 0)
        (if contains "nvidia-smi" c.command then "0, A100, 81920, 555, 12" else "65536000") "",
    suc w,
  );
}

uniform_discovery : Discovery ℕ
unfolding run_discovery build_profile memory_gb parse_nvidia_smi_csv split_lines stdout_of
    safe_discovery_commands split_on
uniform_discovery = value_of (run_discovery millionths wordy uniform lab_machine 0).0 tt

run_discovery-ready_example : Evidence "container" uniform_discovery.command_results
unfolding run_discovery build_profile memory_gb parse_nvidia_smi_csv split_lines stdout_of
    safe_discovery_commands split_on uniform_discovery evaluate_discovery result_failed strip
    contains
run_discovery-ready_example =
    run_discovery-ready millionths wordy uniform lab_machine 0 uniform_discovery refl refl

run_discovery-recording_example :
    run_discovery millionths wordy (recording uniform) lab_machine (0, []) ≡ (
      (run_discovery millionths wordy uniform lab_machine 0).0,
      (
        (run_discovery millionths wordy uniform lab_machine 0).1,
        [] ++ sent safe_discovery_commands,
      ),
    )
run_discovery-recording_example = run_discovery-recording millionths wordy uniform lab_machine 0 []
