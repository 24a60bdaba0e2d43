-- ===== src/Api/Soundness.antt =====
-- What the handlers of backend/src/inflab/api/v1.py keep true of the tables of machines, snapshots,
-- runs, experiments and reports.
pub mod Handlers
pub mod Runs
pub mod Trials
pub mod Models
pub mod Reports
pub mod Jobs
pub mod Requests
use inference_lab.Prelude.{
  ℕ, String, ◌≡◌, refl, sym, ap, ◌∙◌, ◌⊎◌, inl, inr, Bool, true, false, not, ◌||◌, Option, some,
  none, List, All, All-weaken, All-put, All-get, All-keep, All-not_any, get, put, has, has-put,
  has-put_more, get-has, keep, any, ◌==◌, String-eq, text_iff, Bool-cases, or_split,
}
use inference_lab.Database.{Tables, Machine, MachineSnapshot, BootstrapRun, Experiment}
use inference_lab.Api.Machines.{save_machine, add_snapshot, without_machine, is_referred_to}
use inference_lab.Api.Discovery.{add_run}
use inference_lab.Api.Experiments.{add_experiment}

abbrev pub HasEnded : String → Type 0
HasEnded status = (status ≡ "succeeded") ⊎ (status ≡ "failed")

-- A link to a row that is there, or none.
abbrev pub has_or_none : {V : Type 0} → Option String → List (String × V) → Bool
has_or_none none m = true
has_or_none (some id) m = has id m

module _ {F : Type 0} where
  -- Every machine and experiment is kept under its own id, every snapshot, run and experiment
  -- refers to a machine that is there, every run has ended, and every report refers to an
  -- experiment that is there and to no artifact but one that is there.
  pub record IsSound (t : Tables F) : Type 0 where
    pub keyed : All (λ e. e.1.id ≡ e.0) t.machines
    pub snapshots : All (λ e. has e.1.machine_id t.machines ≡ true) t.snapshots
    pub runs : All (λ e. has e.1.machine_id t.machines ≡ true) t.runs
    pub experiments : All (λ e. has e.1.machine_id t.machines ≡ true) t.experiments
    pub ended : All (λ e. HasEnded e.1.status) t.runs
    pub named : All (λ e. e.1.id ≡ e.0) t.experiments
    pub reports : All (λ e. has e.1.experiment_id t.experiments ≡ true) t.reports
    pub filed : All (λ e. has_or_none e.1.artifact_id t.artifacts ≡ true) t.reports

  -- The tables hold a machine with this id.
  abbrev pub IsSoundWith : String → Tables F → Type 0
  IsSoundWith id t = IsSound t × (has id t.machines ≡ true)

  pub save_machine-IsSound : (m : Machine F) (t : Tables F) → IsSound t → IsSound (save_machine m t)
  save_machine-IsSound m t h = record {
    keyed = All-put (λ e. e.1.id ≡ e.0) m.id m t.machines refl h.keyed;
    snapshots =
        All-weaken _ _ (λ e. has-put_more e.1.machine_id m.id m t.machines) t.snapshots h.snapshots;
    runs = All-weaken _ _ (λ e. has-put_more e.1.machine_id m.id m t.machines) t.runs h.runs;
    experiments =
        All-weaken _ _ (λ e. has-put_more e.1.machine_id m.id m t.machines) t.experiments
          h.experiments;
    ended = h.ended;
    named = h.named;
    reports = h.reports;
    filed = h.filed;
  }

  pub save_machine-IsSoundWith :
      (id : String) (m : Machine F) (t : Tables F)
      → IsSoundWith id t
      → IsSoundWith id (save_machine m t)
  save_machine-IsSoundWith id m t h =
      (save_machine-IsSound m t h.0, has-put_more id m.id m t.machines h.1)

  pub add_snapshot-IsSoundWith :
      (id : String) (x : MachineSnapshot F) (t : Tables F)
      → x.machine_id ≡ id
      → IsSoundWith id t
      → IsSoundWith id (add_snapshot x t)
  add_snapshot-IsSoundWith id x t e (h, there) = (
    record {
      keyed = h.keyed;
      snapshots =
          All-put (λ e. has e.1.machine_id t.machines ≡ true) x.id x t.snapshots
            (ap (λ k. has k t.machines) e ∙ there) h.snapshots;
      runs = h.runs;
      experiments = h.experiments;
      ended = h.ended;
      named = h.named;
      reports = h.reports;
      filed = h.filed;
    },
    there,
  )

  pub add_run-IsSoundWith :
      (id : String) (x : BootstrapRun F) (t : Tables F)
      → x.machine_id ≡ id
      → HasEnded x.status
      → IsSoundWith id t
      → IsSoundWith id (add_run x t)
  add_run-IsSoundWith id x t e finished (h, there) = (
    record {
      keyed = h.keyed;
      snapshots = h.snapshots;
      runs =
          All-put (λ e. has e.1.machine_id t.machines ≡ true) x.id x t.runs
            (ap (λ k. has k t.machines) e ∙ there) h.runs;
      experiments = h.experiments;
      ended = All-put (λ e. HasEnded e.1.status) x.id x t.runs finished h.ended;
      named = h.named;
      reports = h.reports;
      filed = h.filed;
    },
    there,
  )

  pub add_experiment-IsSoundWith :
      (id : String) (x : Experiment F) (t : Tables F)
      → x.machine_id ≡ id
      → IsSoundWith id t
      → IsSoundWith id (add_experiment x t)
  add_experiment-IsSoundWith id x t e (h, there) = (
    record {
      keyed = h.keyed;
      snapshots = h.snapshots;
      runs = h.runs;
      experiments =
          All-put (λ e. has e.1.machine_id t.machines ≡ true) x.id x t.experiments
            (ap (λ k. has k t.machines) e ∙ there) h.experiments;
      ended = h.ended;
      named = All-put (λ e. e.1.id ≡ e.0) x.id x t.experiments refl h.named;
      reports =
          All-weaken _ _ (λ e. has-put_more e.1.experiment_id x.id x t.experiments) t.reports
            h.reports;
      filed = h.filed;
    },
    there,
  )

  -- A machine that is found under an id has that id.
  pub id_of_found :
      (id : String) (m : Machine F) (t : Tables F)
      → IsSound t
      → get id t.machines ≡ some m
      → m.id ≡ id
  id_of_found id m t h e = All-get (λ e. e.1.id ≡ e.0) id t.machines e h.keyed

  -- Another machine than the one deleted stays.
  has-keep :
      (k id : String) (l : List (String × Machine F))
      → has k l ≡ true
      → (k == id) ≡ false
      → has k (keep (λ e. not (e.0 == id)) l) ≡ true
  has-keep k id List.[] h other = cc
  has-keep k id (List.◌∷◌ (j, m) l) h other = elim (Bool-cases (j == k)) [
    | inl same ↦ rw ((text_iff j k).0 same, other, (text_iff k k).1 refl) refl
    | inr differs ↦ elim (Bool-cases (j == id)) [
      | inl gone ↦ rw gone (has-keep k id l (rw differs at h) other)
      | inr stays ↦ rw (stays, differs) (has-keep k id l (rw differs at h) other)
    ]
  ]

  pub without_machine-IsSound :
      (id : String) (t : Tables F)
      → is_referred_to id t ≡ false
      → IsSound t
      → IsSound (without_machine id t)
  unfolding is_referred_to without_machine
  without_machine-IsSound id t free h =
      let (no_runs, no_experiments) = or_split _ _ free in
      record {
        keyed = All-keep (λ e. not (e.0 == id)) _ _ (λ e k q. k) t.machines h.keyed;
        snapshots =
            All-keep (λ e. not (e.1.machine_id == id)) _ _
              (λ e k q. has-keep e.1.machine_id id t.machines k (not_true (e.1.machine_id == id) q))
              t.snapshots h.snapshots;
        runs = both_All t.runs (λ (x : BootstrapRun F). x.machine_id) no_runs h.runs;
        experiments =
            both_All t.experiments (λ (x : Experiment F). x.machine_id) no_experiments
              h.experiments;
        ended = h.ended;
        named = h.named;
        reports = h.reports;
        filed = h.filed;
      }
    where
      not_true : (b : Bool) → not b ≡ true → b ≡ false
      not_true true q = cc
      not_true false q = refl

      both_All :
          {V : Type 0} (l : List (String × V)) (link : V → String)
          → any (λ (e : String × V). link e.1 == id) l ≡ false
          → All (λ (e : String × V). has (link e.1) t.machines ≡ true) l
          → All
              (λ (e : String × V). has (link e.1) (keep (λ e. not (e.0 == id)) t.machines) ≡ true)
              l
      both_All List.[] link q k = tt
      both_All (List.◌∷◌ a l) link q k =
          let (here, more) = or_split _ _ q in
          (has-keep (link a.1) id t.machines k.0 here, both_All l link more k.1)
