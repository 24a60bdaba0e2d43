-- ===== src/Api/Soundness/Handlers.antt =====
-- Each handler that changes machines keeps the tables sound.
use inference_lab.Prelude.{
  ℕ, String, ◌≡◌, inl, inr, Bool, true, false, some, none, List, get, has, get-has, subst,
  Bool-cases, Option-cases,
}
use inference_lab.Prelude.Json.{Json}
use inference_lab.Result.{Result-cases}
use inference_lab.Settings.{ssh_settings}
use inference_lab.Probe.{probe_remote_machine}
use inference_lab.Machines.{MachineCreate, created_row}
use inference_lab.Database.{Tables, Machine}
use inference_lab.Database.Session.{Session, Holds}
use inference_lab.Api.{Deployment}
use inference_lab.Api.Machines.{
  executor_for, save_machine, add_snapshot, MachineUpdate, create_machine, update_machine,
  updated_machine, delete_machine, probe_machine, probed, is_referred_to, new_machine, snapshot_for,
  profiled_machine, fake_machine_profile,
}
use inference_lab.Api.Soundness.{
  IsSound, IsSoundWith, save_machine-IsSound, save_machine-IsSoundWith, add_snapshot-IsSoundWith,
  id_of_found, without_machine-IsSound,
}

module _ {F W : Type 0} (d : Deployment F W) where
  -- At the start of a request the session sees what is committed.
  abbrev pub IsReady : Session F W → Type 0
  IsReady s = (s.pending ≡ s.saved) × Holds IsSound s

  unfoldable pub both : {A : Type 0} → A → A × A
  both a = (a, a)

  pub create_machine-IsSound :
      (payload : MachineCreate) (s : Session F W)
      → Holds IsSound s
      → Holds IsSound (create_machine d payload s).1
  unfolding create_machine both
  create_machine-IsSound payload s h =
      elim (Result-cases (created_row d.codecs (ssh_settings d.app) payload)) [
        | inl (row, e) ↦
            rw e (both (save_machine-IsSound (new_machine (d.new_id s.made) row) s.pending h.0))
        | inr (exc, e) ↦ rw e h
      ]

  -- Where the look-up of a machine finds one, it is there under its id.
  pub found_With :
      (id : String) (m : Machine F) (s : Session F W)
      → IsReady s
      → get id s.pending.machines ≡ some m
      → (m.id ≡ id) × Holds (IsSoundWith id) s
  found_With id m s (same, (p, q)) e =
      let there = get-has id s.pending.machines e in
      (
        id_of_found id m s.pending p e,
        ((p, there), (q, subst (λ t. has id t.machines ≡ true) same there)),
      )

  pub forget : (id : String) (s : Session F W) → Holds (IsSoundWith id) s → Holds IsSound s
  forget id s h = (h.0.0, h.1.0)

  pub update_machine-IsSound :
      (id : String) (payload : MachineUpdate) (s : Session F W)
      → IsReady s
      → Holds IsSound (update_machine d id payload s).1
  unfolding update_machine both
  update_machine-IsSound id payload s h = elim (Option-cases (get id s.pending.machines)) [
    | inl e ↦ rw e h.1
    | inr (m, e) ↦ elim (Result-cases (updated_machine d.codecs d.app payload m)) [
      | inl (next, u) ↦ rw (e, u) (both (save_machine-IsSound next s.pending h.1.0))
      | inr (exc, u) ↦ rw (e, u) h.1
    ]
  ]

  -- Under a database that enforces foreign keys.
  pub delete_machine-IsSound :
      (id : String) (s : Session F W)
      → d.enforces_keys ≡ true
      → IsReady s
      → Holds IsSound (delete_machine d id s).1
  unfolding delete_machine both
  delete_machine-IsSound id s enforced h = elim (Option-cases (get id s.pending.machines)) [
    | inl e ↦ rw e h.1
    | inr (m, e) ↦ elim (Bool-cases (is_referred_to id s.pending)) [
      | inl kept ↦ rw (e, enforced, kept) h.1
      | inr free ↦ rw (e, enforced, free) (both (without_machine-IsSound id s.pending free h.1.0))
    ]
  ]

  probed-IsSound :
      (id : String) (m : Machine F) (profile : List (String × Json F)) (t : Tables F) (made : ℕ)
      → m.id ≡ id
      → IsSoundWith id t
      → IsSound (
          add_snapshot
            (snapshot_for
              (d.new_id made)
              profile
              (d.python.sha256_hex (d.show_items profile))
              "snapshots"
              m)
            (save_machine
              (profiled_machine profile (d.python.sha256_hex (d.show_items profile)) "profiled" m)
              t))
  probed-IsSound id m profile t made e h =
      let print = d.python.sha256_hex (d.show_items profile) in
      (add_snapshot-IsSoundWith id (snapshot_for (d.new_id made) profile print "snapshots" m) _ e
        (save_machine-IsSoundWith id (profiled_machine profile print "profiled" m) t h)).0

  probe_found :
      (id : String) (m : Machine F) (dry_run : Bool) (s : Session F W)
      → (m.id ≡ id) × Holds (IsSoundWith id) s
      → get id s.pending.machines ≡ some m
      → Holds IsSound (probe_machine d id dry_run s).1
  unfolding probe_machine probed both
  probe_found id m true s (same, h) e =
      rw e (both (probed-IsSound id m (fake_machine_profile m) s.pending s.made same h.0))
  probe_found id m false s (same, h) e = elim (Result-cases (executor_for d m)) [
    | inr (exc, x) ↦ rw (e, x) (forget id s h)
    | inl (executor, x) ↦
        elim (Result-cases
          (probe_remote_machine d.floats d.python executor m.row.host m.row.runtime_mode
            s.world).0) [
              | inr (exc, y) ↦ rw (e, x, y) (forget id s h)
              | inl (profile, y) ↦
                  rw (e, x, y) (both (probed-IsSound id m profile s.pending s.made same h.0))
            ]
  ]

  probe_missing :
      (id : String) (dry_run : Bool) (s : Session F W)
      → Holds IsSound s
      → get id s.pending.machines ≡ none
      → Holds IsSound (probe_machine d id dry_run s).1
  unfolding probe_machine
  probe_missing id dry_run s h e = rw e h

  pub probe_machine-IsSound :
      (id : String) (dry_run : Bool) (s : Session F W)
      → IsReady s
      → Holds IsSound (probe_machine d id dry_run s).1
  probe_machine-IsSound id dry_run s h = elim (Option-cases (get id s.pending.machines)) [
    | inl e ↦ probe_missing id dry_run s h.1 e
    | inr (m, e) ↦ probe_found id m dry_run s (found_With id m s h e) e
  ]
