-- ===== src/Steps/Running.antt =====
-- What a run of steps sends to the machine, and what it reports.
use inference_lab.Prelude.{
  ◌≡◌, refl, true, false, none, some, Bool-cases, ◌⊎◌, inl, inr, List, [], ◌∷◌, ◌++◌, append_assoc,
  append-nil, arith, ◌↔◌, if◌then◌else◌,
}
use inference_lab.Prelude.Int.{ℤ, pos, negsuc, max_ℤ, is_zero, IsNegative}
use inference_lab.Schemas.{CommandRecord, CommandResult, StepStatus}
use inference_lab.Executor.{ExecutionContext, RemoteExecutor}
use inference_lab.Steps.{
  ShellRemoteStep, StepResult, detect_record, apply_record, verify_record, step_result, run_step,
  run_steps,
}

-- An executor that also writes down the commands that it is given.
abbrev pub recording : {W : Type 0} → RemoteExecutor W → RemoteExecutor (W × List CommandRecord)
recording ex = record {
  run = λ c t w. let (r, after) = ex.run c t w.0 in (r, (after, w.1 ++ c ∷ []));
  stream = λ c t w. let (r, after) = ex.stream c t w.0 in (r, (after, w.1 ++ c ∷ []));
}

-- The three commands of a step, in order.
abbrev pub phases : ExecutionContext → ShellRemoteStep → List CommandRecord
phases ctx step = detect_record step ∷ apply_record ctx step ∷ verify_record step ∷ []

abbrev pub all_phases : ExecutionContext → List ShellRemoteStep → List CommandRecord
all_phases ctx [] = []
all_phases ctx (step ∷ steps) = phases ctx step ++ all_phases ctx steps

append_three :
    (log : List CommandRecord) (a b c : CommandRecord)
    → ((log ++ a ∷ []) ++ b ∷ []) ++ c ∷ [] ≡ log ++ a ∷ b ∷ c ∷ []
append_three log a b c = simp append_assoc

module _ (F : Type 0) {W : Type 0} (ctx : ExecutionContext) (ex : RemoteExecutor W) where
  abbrev with_log : {A : Type 0} → A × W → List CommandRecord → A × (W × List CommandRecord)
  with_log r log = (r.0, (r.1, log))

  run_step-recording :
      (step : ShellRemoteStep) (w : W) (log : List CommandRecord)
      → run_step {F = F} ctx (recording ex) step (w, log)
        ≡ with_log (run_step ctx ex step w) (log ++ phases ctx step)
  unfolding run_step
  run_step-recording step w log = λ i. (
    (run_step {F = F} ctx ex step w).0,
    (
      (run_step {F = F} ctx ex step w).1,
      append_three log (detect_record step) (apply_record ctx step) (verify_record step) i,
    ),
  )

  -- Whatever the phases answer, a run sends the three commands of every step, in order, and
  -- nothing else; the results and the machine's state are those of the executor itself.
  pub run_steps-recording :
      (steps : List ShellRemoteStep) (w : W) (log : List CommandRecord)
      → run_steps {F = F} ctx (recording ex) steps (w, log)
        ≡ with_log (run_steps ctx ex steps w) (log ++ all_phases ctx steps)
  unfolding run_steps
  run_steps-recording [] w log = rw append-nil
  run_steps-recording (step ∷ steps) w log =
      rw
        (
          run_step-recording step w log,
          run_steps-recording steps (run_step {F = F} ctx ex step w).1 (log ++ phases ctx step),
        )
        (λ i. (
          (run_steps {F = F} ctx ex (step ∷ steps) w).0,
          (
            (run_steps {F = F} ctx ex (step ∷ steps) w).1,
            append_assoc log (phases ctx step) (all_phases ctx steps) i,
          ),
        ))

-- Exit codes that are not negative.
abbrev pub NotNegative : ℤ → Type 0
NotNegative n = ¬ (IsNegative n)

abbrev pub IsZero : ℤ → Type 0
IsZero n = n ≡ pos 0

status_of : (d a v : ℤ) → StepStatus
status_of d a v = if is_zero (max_ℤ (max_ℤ d a) v) then StepStatus.changed else StepStatus.failed

status_of-changed :
    (d a v : ℤ)
    → NotNegative d
    → NotNegative a
    → NotNegative v
    → (status_of d a v ≡ StepStatus.changed) ↔ (IsZero d × IsZero a × IsZero v)
unfolding status_of
status_of-changed (pos d) (pos a) (pos v) hd ha hv = ground arith
status_of-changed (pos d) (pos a) (negsuc v) hd ha hv = absurd (hv tt)
status_of-changed (pos d) (negsuc a) v hd ha hv = absurd (ha tt)
status_of-changed (negsuc d) a v hd ha hv = absurd (hd tt)

abbrev code_of : CommandResult → CommandResult → CommandResult → ℤ
code_of d a v = max_ℤ (max_ℤ d.exit_code a.exit_code) v.exit_code

is_zero_lem : (n : ℤ) → is_zero n ≡ true → n ≡ pos 0
is_zero_lem (pos n) h = ground arith
is_zero_lem (negsuc n) h = cc

not-IsZero : (n : ℤ) → is_zero n ≡ false → ¬ (IsZero n)
not-IsZero n h e = cc (rw e at h)

max_negative : (d a v : ℤ) → IsZero d → IsNegative a → IsZero v → max_ℤ (max_ℤ d a) v ≡ pos 0
max_negative d (pos a) v hd ha hv = absurd ha
max_negative d (negsuc a) v hd ha hv = rw (hd, hv)

-- What a step reports for three exit codes that are not negative.
abbrev pub IsReported :
    {F : Type 0} → ShellRemoteStep → (detected applied verified : ℤ) → StepResult F → Type 0
IsReported step d a v r =
    ((IsZero d × IsZero a × IsZero v)
      × (r.status ≡ StepStatus.changed)
      × (r.exit_code ≡ pos 0)
      × (r.failure_hint ≡ none))
    ⊎ ((¬ (IsZero d × IsZero a × IsZero v))
        × (r.status ≡ StepStatus.failed)
        × (¬ (IsZero r.exit_code))
        × (r.failure_hint ≡ some step.failure_hint))

-- Where no phase has a negative exit code, a step has changed the machine exactly if all three
-- phases ended with 0, then with exit code 0 and no hint; otherwise it has failed, with another
-- exit code and with its hint.
pub step_result-status :
    (F : Type 0) (step : ShellRemoteStep) (ctx : ExecutionContext) (d a v : CommandResult)
    → NotNegative d.exit_code
    → NotNegative a.exit_code
    → NotNegative v.exit_code
    → (((step_result {F = F} step ctx d a v).status ≡ StepStatus.changed)
        ↔ (IsZero d.exit_code × IsZero a.exit_code × IsZero v.exit_code))
      × IsReported step d.exit_code a.exit_code v.exit_code (step_result {F = F} step ctx d a v)
unfolding step_result status_of
step_result-status F step ctx d a v hd ha hv =
    let (changed_zero, zero_changed) =
      status_of-changed d.exit_code a.exit_code v.exit_code hd ha hv in
    (
      (changed_zero, zero_changed),
      elim (Bool-cases (is_zero (code_of d a v))) [
        | inl zero ↦ inl (
          changed_zero (rw zero refl),
          rw zero refl,
          is_zero_lem (code_of d a v) zero,
          rw zero refl,
        )
        | inr other ↦ inr (
          λ all. cc (rw other at (zero_changed all)),
          rw other refl,
          not-IsZero (code_of d a v) other,
          rw other refl,
        )
      ],
    )

-- A negative exit code, by which the SSH library reports a process that a signal ended, does not
-- show: with 0 in the other phases the step counts as changed, with exit code 0 and no hint.
pub step_result_negative :
    (F : Type 0) (step : ShellRemoteStep) (ctx : ExecutionContext) (d a v : CommandResult)
    → IsZero d.exit_code
    → IsNegative a.exit_code
    → IsZero v.exit_code
    → ((step_result {F = F} step ctx d a v).status ≡ StepStatus.changed)
      × ((step_result {F = F} step ctx d a v).exit_code ≡ pos 0)
      × ((step_result {F = F} step ctx d a v).failure_hint ≡ none)
unfolding step_result
step_result_negative F step ctx d a v hd ha hv =
    rw (max_negative d.exit_code a.exit_code v.exit_code hd ha hv) (refl, refl, refl)
