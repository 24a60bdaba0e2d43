-- ===== src/Plugins/Launch.antt =====
-- When `build_launch_command` of backend/src/inflab/benchmark.py returns.
use inference_lab.Prelude.{
  String, Bool, true, false, ◌≡◌, refl, ◌||◌, ◌==◌, String-eq, if◌then◌else◌,
}
use inference_lab.Prelude.Float.{Floats}
use inference_lab.Result.{ok, err, Exception}
use inference_lab.Schemas.{RuntimeMode, container, bare_metal, both}
use inference_lab.Plugins.{RunSpec, build_launch_command, framework_command, run_command}

abbrev pub is_single : RuntimeMode → Bool
is_single both = false
is_single mode = true

-- What the schema of a run demands: a known framework, and a single runtime mode.
pub record IsRunnable {F : Type 0} (spec : RunSpec F) : Type 0 where
  pub framework : (spec.framework == "vllm" || spec.framework == "sglang") ≡ true
  pub mode : is_single spec.runtime_mode ≡ true

-- A choice between two frameworks that is made.
chosen :
    (a b : Bool) (x y : String) (e : Exception)
    → (a || b) ≡ true
    → (line : String) × ((if a then ok x else if b then ok y else err e) ≡ ok line)
chosen true b x y e h = (x, refl)
chosen false true x y e h = (y, refl)
chosen false false x y e h = cc

module _ {F : Type 0} (fl : Floats F) where
  framework_command_Returns :
      (spec : RunSpec F)
      → (spec.framework == "vllm" || spec.framework == "sglang") ≡ true
      → (line : String) × (framework_command fl spec ≡ ok line)
  unfolding framework_command
  framework_command_Returns spec h =
      chosen (spec.framework == "vllm") (spec.framework == "sglang") _ _ _ h

  run_command_Returns :
      (mode : RuntimeMode) (command : String)
      → is_single mode ≡ true
      → (line : String) × (run_command mode command ≡ ok line)
  unfolding run_command
  run_command_Returns container command h = (_, refl)
  run_command_Returns bare_metal command h = (_, refl)
  run_command_Returns both command h = cc

  pub build_launch_command_Returns :
      (spec : RunSpec F)
      → IsRunnable spec
      → (line : String) × (build_launch_command fl spec ≡ ok line)
  unfolding build_launch_command
  build_launch_command_Returns spec h =
      let (command, made) = framework_command_Returns spec h.framework in
      let (line, wrapped) = run_command_Returns spec.runtime_mode command h.mode in
      (line, rw (made, wrapped) refl)
