-- ===== src/Discovery/Verdict/Ready.antt =====
-- What a verdict says about the machine.
use inference_lab.Prelude.{
  ◌≡◌, refl, sym, ap, ◌∙◌, inl, inr, String, Bool, true, false, not, ◌&&◌, ◌||◌, Option, none, some,
  List, [], ◌∷◌, ◌++◌, any, get, Bool-cases, ◌==◌, String-eq, arith, if◌then◌else◌,
}
use inference_lab.Prelude.Int.{ℤ, pos, negsuc, is_zero}
use inference_lab.Prelude.Float.{Floats}
use inference_lab.Prelude.Json.{Json}
use inference_lab.Prelude.Text.{is_empty, strip, contains, split_lines}
use inference_lab.Result.{Result, ok, >>=-eq-ok, ok_inj}
use inference_lab.Schemas.{CommandResult}
use inference_lab.Executor.{RemoteExecutor}
use inference_lab.Discovery.{
  PythonText, MachineContext, Results, stdout_of, result_failed, safe_discovery_commands, failed_if,
  stdout_if,
}
use inference_lab.Discovery.Profile.{Profile, build_profile, memory_gb, parse_nvidia_smi_csv}
use inference_lab.Discovery.Verdict.{
  Blocker, Verdict, Discovery, blockers_of, verdict_of, when, is_nil, lacks_docker, is_blocking,
  required_failures, evaluate_discovery, discovered, concluded, collect, run_discovery,
}

-- A command that was run and ended with status 0.
abbrev pub Ended : Results → String → Type 0
Ended results id = (r : CommandResult) × (get id results ≡ some r) × (r.exit_code ≡ pos 0)

is_zero_lem : (n : ℤ) → is_zero n ≡ true → n ≡ pos 0
is_zero_lem (pos n) h = ground arith
is_zero_lem (negsuc n) h = cc

failed_if-none :
    (o : Option CommandResult)
    → failed_if o ≡ false
    → (r : CommandResult) × (o ≡ some r) × (r.exit_code ≡ pos 0)
failed_if-none none h = cc
failed_if-none (some r) h = elim (Bool-cases (is_zero r.exit_code)) [
  | inl zero ↦ (r, refl, is_zero_lem r.exit_code zero)
  | inr other ↦ cc (h, ap not other)
]

Ended-result_failed :
    (results : Results) (id : String) → result_failed results id ≡ false → Ended results id
unfolding result_failed
Ended-result_failed results id h = failed_if-none (get id results) h

failed_stdout_if : (o : Option CommandResult) → failed_if o ≡ true → stdout_if o ≡ ""
failed_stdout_if none h = refl
failed_stdout_if (some r) h = elim (Bool-cases (is_zero r.exit_code)) [
  | inl zero ↦ cc (h, ap not zero)
  | inr other ↦ rw other
]

failed_stdout :
    (results : Results) (id : String) → result_failed results id ≡ true → stdout_of results id ≡ ""
unfolding result_failed stdout_of
failed_stdout results id h = failed_stdout_if (get id results) h

-- Output that a test accepts, and that it does not accept when empty, is of a command that ended.
Ended-output :
    (results : Results) (id : String) (test : String → Bool)
    → test "" ≡ false
    → test (stdout_of results id) ≡ true
    → Ended results id
Ended-output results id test nothing h = elim (Bool-cases (result_failed results id)) [
  | inl failed ↦ cc (h, nothing, ap test (failed_stdout results id failed))
  | inr good ↦ Ended-result_failed results id good
]

append_is_nil : {A : Type 0} (xs ys : List A) → xs ++ ys ≡ [] → (xs ≡ []) × (ys ≡ [])
append_is_nil [] ys h = (refl, h)
append_is_nil (x ∷ xs) ys h = cc

when_is_nil : (b : Bool) (x : Blocker) → when b x ≡ [] → b ≡ false
when_is_nil true x h = cc
when_is_nil false x h = refl

verdict_of-ready : (l : List Blocker) → verdict_of l ≡ Verdict.ready → l ≡ []
verdict_of-ready [] h = refl
verdict_of-ready (b ∷ l) h = elim (Bool-cases (any is_blocking (b ∷ l))) [
  | inl some_block ↦
      cc (h, ap (λ t. if t then Verdict.blocked else Verdict.partially_ready) some_block)
  | inr no_block ↦ cc (h, ap (λ t. if t then Verdict.blocked else Verdict.partially_ready) no_block)
]

-- The tests behind the verdict.
record Clear {F : Type 0} (mode : String) (p : Profile F) (results : Results) : Type 0 where
  identity : result_failed results "identity" ≡ false
  gpu : is_nil p.gpu ≡ false
  python : is_empty p.python ≡ false
  docker : lacks_docker mode p.docker_available ≡ false
  data_path : not p.data_path_available ≡ false

blockers_of-Clear :
    {F : Type 0} (mode : String) (p : Profile F) (results : Results)
    → blockers_of mode p results ≡ []
    → Clear mode p results
unfolding blockers_of required_failures safe_discovery_commands
blockers_of-Clear mode p results h =
    let (i, rest) = append_is_nil _ _ h in
    let (g, rest2) = append_is_nil _ _ rest in
    let (y, rest3) = append_is_nil _ _ rest2 in
    let (d, s) = append_is_nil _ _ rest3 in
    record {
      identity = when_is_nil _ _ (append_is_nil _ _ i).0;
      gpu = when_is_nil _ _ g;
      python = when_is_nil _ _ y;
      docker = when_is_nil _ _ d;
      data_path = when_is_nil _ _ s;
    }

-- What has to hold of the commands for a machine to be ready.
pub record Evidence (mode : String) (results : Results) : Type 0 where
  pub identity : Ended results "identity"
  pub gpu : Ended results "gpu"
  pub python : Ended results "python"
  pub storage : Ended results "storage"
  pub docker : (mode == "container" || mode == "both") ≡ true → Ended results "docker"

abbrev gives_rows : {F : Type 0} → Result (List (Json F)) → Bool
gives_rows (ok (row ∷ rows)) = true
gives_rows _ = false

gives_rows-ok :
    {F : Type 0} (r : Result (List (Json F))) (gpu : List (Json F))
    → r ≡ ok gpu
    → is_nil gpu ≡ false
    → gives_rows r ≡ true
gives_rows-ok r [] e h = cc
gives_rows-ok r (row ∷ rows) e h = ap gives_rows e

negated : (b : Bool) → b ≡ false → not b ≡ true
negated b h = ap not h

docker_given : (a b : Bool) → a && not b ≡ false → a ≡ true → b ≡ true
docker_given true true h k = refl
docker_given true false h k = cc
docker_given false b h k = cc

module _ {F : Type 0} (fl : Floats F) (py : PythonText F) where
  -- A profile built from the results, and its parts that the verdict reads.
  built_parts :
      (m : MachineContext) (results : Results) (p : Profile F)
      → build_profile fl py m results ≡ ok p
      → (parse_nvidia_smi_csv fl py (stdout_of results "gpu") ≡ ok p.gpu)
        × (p.python ≡ strip (stdout_of results "python"))
        × (p.docker_available ≡ not (is_empty (strip (stdout_of results "docker"))))
        × (p.data_path_available ≡ contains "/data" (stdout_of results "storage"))
  unfolding build_profile
  built_parts m results p h =
      let (memory, counted, rest) = >>=-eq-ok (memory_gb fl py (stdout_of results "memory")) _ h in
      let (gpu, listed, built) =
        >>=-eq-ok (parse_nvidia_smi_csv fl py (stdout_of results "gpu")) _ rest in
      let e = ok_inj built in
      (
        listed ∙ ap (λ q. ok (Profile.gpu q)) e,
        sym (ap (λ q. Profile.python q) e),
        sym (ap (λ q. Profile.docker_available q) e),
        sym (ap (λ q. Profile.data_path_available q) e),
      )

  Evidence-Clear :
      (m : MachineContext) (results : Results) (p : Profile F)
      → build_profile fl py m results ≡ ok p
      → Clear m.runtime_mode p results
      → Evidence m.runtime_mode results
  unfolding parse_nvidia_smi_csv strip contains split_lines
  Evidence-Clear m results p h clear =
      let (listed, named, docker, path) = built_parts m results p h in
      record {
        identity = Ended-result_failed results "identity" clear.identity;
        gpu =
            Ended-output results "gpu" (λ s. gives_rows (parse_nvidia_smi_csv fl py s)) refl
              (gives_rows-ok _ p.gpu listed clear.gpu);
        python =
            Ended-output results "python" (λ s. not (is_empty (strip s))) refl
              (negated _ (ap is_empty (sym named) ∙ clear.python));
        storage =
            Ended-output results "storage" (contains "/data") refl
              (sym path ∙ docker_given true p.data_path_available clear.data_path refl);
        docker = λ wanted.
            Ended-output results "docker" (λ s. not (is_empty (strip s))) refl
              (sym docker ∙ docker_given _ p.docker_available clear.docker wanted);
      }

  concluded-ready :
      (m : MachineContext) (results : Results) (d : Discovery F)
      → concluded fl py m results ≡ ok d
      → d.verdict ≡ Verdict.ready
      → Evidence m.runtime_mode d.command_results
  unfolding concluded discovered evaluate_discovery
  concluded-ready m results d h v =
      let (p, built, e) = >>=-eq-ok (build_profile fl py m results) _ h in
      let same = ok_inj e in
      rw (← same) (
        Evidence-Clear m results p built (
          blockers_of-Clear m.runtime_mode p results (
            verdict_of-ready (blockers_of m.runtime_mode p results)
              (ap (λ q. Discovery.verdict q) same ∙ v))))

  module _ {W : Type 0} (executor : RemoteExecutor W) where
    -- A discovery that returns the verdict `ready` has seen the commands for the identity, the GPU,
    -- Python and the storage end with status 0, and the one for Docker where the machine is to run
    -- containers.
    pub run_discovery-ready :
        (m : MachineContext) (w : W) (d : Discovery F)
        → (run_discovery fl py executor m w).0 ≡ ok d
        → d.verdict ≡ Verdict.ready
        → Evidence m.runtime_mode d.command_results
    unfolding run_discovery
    run_discovery-ready m w d h v =
        concluded-ready m (collect fl py executor m safe_discovery_commands [] w).0 d h v
