-- ===== src/Api/Machines.antt =====
-- backend/src/inflab/api/v1.py: the handlers of `/machines`.
pub mod Masked
use inference_lab.Prelude.{
  ℕ, String, Bool, true, false, not, Option, none, some, List, [], ◌∷◌, if◌then◌else◌, ◌==◌,
  String-eq, get, put, keep, any, ◌&&◌, ◌||◌,
}
use inference_lab.Prelude.Int.{pos}
use inference_lab.Prelude.Json.{Json, text, int, boolean, object, array}
use inference_lab.Prelude.Text.{◌<>◌}
use inference_lab.Result.{Result, ok, err, value_error, other_error, ◌>>=◌ as bind}
use inference_lab.Schemas.{RuntimeMode, container, bare_metal, both, runtime_mode_value}
use inference_lab.Security.{Codecs, encrypt_secret, mask_secret}
use inference_lab.Settings.{AppSettings, ssh_settings}
use inference_lab.Machines.{
  MachineCreate, MachineRow, SshCredential, created_row, ssh_config, credential_type_value,
}
use inference_lab.Executor.{RemoteExecutor}
use inference_lab.Executor.Ssh.{ssh_executor}
use inference_lab.Probe.{probe_remote_machine}
use inference_lab.Database.{Machine, MachineSnapshot, Tables}
use inference_lab.Database.Session.{
  Action, ◌>>=◌, ◌>>◌, return, reads, lift, change, commit, found, fresh, outside_or_raise,
}
use inference_lab.Api.{Deployment}

pub record MachineRead (F : Type 0) : Type 0 where
  pub id : String
  pub name : String
  pub host : String
  pub port : ℕ
  pub username : String
  pub credential_type : String
  pub credential : String
  pub status : String
  pub runtime_mode : RuntimeMode
  pub machine_profile : List (String × Json F)
  pub fingerprint : Option String

-- `RuntimeMode(value)`
unfoldable pub runtime_mode_of : String → Result RuntimeMode
runtime_mode_of value =
    if value == "container"
    then ok container
    else if value == "bare_metal"
    then ok bare_metal
    else if value == "both"
    then ok both
    else err (value_error (value <> " is not a valid RuntimeMode"))

unfoldable pub machine_read : {F : Type 0} → Machine F → Result (MachineRead F)
unfolding runtime_mode_of
machine_read m = bind (runtime_mode_of m.row.runtime_mode) (λ mode. ok (record {
  id = m.id;
  name = m.row.name;
  host = m.row.host;
  port = m.row.port;
  username = m.row.username;
  credential_type = m.row.credential_type;
  credential =
      if m.row.credential_type == "ssh_agent"
      then "ssh_agent"
      else mask_secret m.row.encrypted_credential;
  status = m.status;
  runtime_mode = mode;
  machine_profile = m.machine_profile;
  fingerprint = m.fingerprint;
}))

-- A field of a partial update: it is absent, or it is set, perhaps to `None`.
abbrev pub Patch : Type 0 → Type 0
Patch A = Option (Option A)

pub record MachineUpdate : Type 0 where
  pub name : Patch String
  pub host : Patch String
  pub port : Patch ℕ
  pub username : Patch String
  pub credential : Option SshCredential
  pub runtime_mode : Patch RuntimeMode
  pub status : Patch String

-- The columns take no `None`: the database refuses the commit.
patched : {A B : Type 0} → (A → B) → Patch A → B → Result B
patched f none old = ok old
patched f (some none) old = err (other_error "NOT NULL constraint failed")
patched f (some (some value)) old = ok (f value)

secret_of : Codecs → AppSettings → Option String → Result (Option String)
secret_of c app none = err (other_error "'NoneType' object has no attribute 'encode'")
secret_of c app (some secret) = bind (encrypt_secret c secret app.secret_key) (λ e. ok (some e))

recredentialed : Codecs → AppSettings → Option SshCredential → MachineRow → Result MachineRow
unfolding secret_of
recredentialed c app none row = ok row
recredentialed c app (some credential) row =
    let value = credential_type_value credential.credential_type in
    bind (if value == "ssh_agent" then ok none else secret_of c app credential.secret)
      (λ stored. ok (record row { credential_type = value; encrypted_credential = stored }))

-- The row that `update_machine` commits.
unfoldable pub updated_machine :
    {F : Type 0} → Codecs → AppSettings → MachineUpdate → Machine F → Result (Machine F)
unfolding recredentialed patched
updated_machine c app payload m = bind (recredentialed c app payload.credential m.row) (λ row.
    bind (patched (λ s. s) payload.name row.name) (λ name.
      bind (patched (λ s. s) payload.host row.host) (λ host.
        bind (patched (λ n. n) payload.port row.port) (λ port.
          bind (patched (λ s. s) payload.username row.username) (λ username.
            bind (patched runtime_mode_value payload.runtime_mode row.runtime_mode) (λ mode.
              bind (patched (λ s. s) payload.status m.status) (λ status.
                let next : MachineRow = record row {
                  name = name;
                  host = host;
                  port = port;
                  username = username;
                  runtime_mode = mode;
                } in
                ok (record m { row = next; status = status }))))))))

-- `_fake_machine_profile`
unfoldable pub fake_machine_profile : {F : Type 0} → Machine F → List (String × Json F)
fake_machine_profile m =
    ("host", text m.row.host)
    ∷ ("runtime_mode", text m.row.runtime_mode)
    ∷ ("access_mode", text "permissive")
    ∷ (
      "hardware",
      object (
          ("cpu", object (("model", text "MockCPU") ∷ ("cores", int (pos 64)) ∷ []))
          ∷ ("memory_gb", int (pos 512))
          ∷ (
            "gpu",
            array (
                object (
                  ("vendor", text "nvidia")
                  ∷ ("model", text "MockGPU")
                  ∷ ("memory_gb", int (pos 80))
                  ∷ ("count", int (pos 4))
                  ∷ [])
                ∷ []),
          )
          ∷ []),
    )
    ∷ (
      "system",
      object (("os", text "ubuntu") ∷ ("version", text "24.04") ∷ ("kernel", text "mock") ∷ []),
    )
    ∷ (
      "container",
      object (("docker", text "dry-run") ∷ ("nvidia_container_toolkit", text "dry-run") ∷ []),
    )
    ∷ ("network", object (("interfaces", array (text "eth0" ∷ [])) ∷ ("rdma", boolean false) ∷ []))
    ∷ ("storage", object (("data_path", text "/data") ∷ ("models", text "/data/models") ∷ []))
    ∷ []

-- What refers to a machine by a foreign key and is not deleted along with it.
unfoldable pub is_referred_to : {F : Type 0} → String → Tables F → Bool
is_referred_to machine_id t =
    any (λ e. e.1.machine_id == machine_id) t.runs
    || any (λ e. e.1.machine_id == machine_id) t.experiments

-- The deletion of a row cascades to its snapshots.
unfoldable pub without_machine : {F : Type 0} → String → Tables F → Tables F
without_machine machine_id t = record t {
  machines = keep (λ e. not (e.0 == machine_id)) t.machines;
  snapshots = keep (λ e. not (e.1.machine_id == machine_id)) t.snapshots;
}

abbrev pub save_machine : {F : Type 0} → Machine F → Tables F → Tables F
save_machine m t = record t { machines = put m.id m t.machines }

abbrev pub add_snapshot : {F : Type 0} → MachineSnapshot F → Tables F → Tables F
add_snapshot snapshot t = record t { snapshots = put snapshot.id snapshot t.snapshots }

-- A new row of `Machine`, with the defaults of the columns that are not given.
abbrev pub new_machine : {F : Type 0} → String → MachineRow → Machine F
new_machine id row = record {
  id = id;
  row = row;
  status = "created";
  machine_profile = [];
  fingerprint = none;
}

-- The row of a machine after a probe or a discovery, and the snapshot that goes with it.
abbrev pub profiled_machine :
    {F : Type 0} → List (String × Json F) → String → String → Machine F → Machine F
profiled_machine profile fingerprint status m = record m {
  machine_profile = profile;
  fingerprint = some fingerprint;
  status = status;
}

abbrev pub snapshot_for :
    {F : Type 0}
    → String
    → List (String × Json F)
    → String
    → (folder : String) → Machine F
    → MachineSnapshot F
snapshot_for id profile fingerprint folder m = record {
  id = id;
  machine_id = m.id;
  profile = profile;
  fingerprint = fingerprint;
  artifact_uri =
      some ("memory://" <> (folder <> ("/" <> (m.id <> ("/" <> (fingerprint <> ".json"))))));
}

module _ {F W : Type 0} (d : Deployment F W) where
  -- `session.get(Machine, machine_id)`, and 404 where it finds none.
  abbrev pub the_machine : String → Action F W (Machine F)
  the_machine machine_id = do row ← reads (λ t. get machine_id t.machines); found "machine" row

  -- `_ssh_executor_for_machine`
  abbrev pub executor_for : Machine F → Result (RemoteExecutor W)
  executor_for m =
      bind (ssh_config d.codecs (ssh_settings d.app) m.row)
        (λ config. ok (ssh_executor d.ssh config))

  unfoldable pub create_machine : MachineCreate → Action F W (MachineRead F)
  unfolding machine_read
  create_machine payload = do
    row ← lift (created_row d.codecs (ssh_settings d.app) payload)
    id ← fresh d.new_id
    change (save_machine (new_machine id row))
    commit
    lift (machine_read (new_machine id row))

  unfoldable pub get_machine : String → Action F W (MachineRead F)
  unfolding machine_read
  get_machine machine_id = do machine ← the_machine machine_id; lift (machine_read machine)

  unfoldable pub update_machine : String → MachineUpdate → Action F W (MachineRead F)
  unfolding machine_read updated_machine
  update_machine machine_id payload = do
    machine ← the_machine machine_id
    next ← lift (updated_machine d.codecs d.app payload machine)
    change (save_machine next)
    commit
    lift (machine_read next)

  unfoldable pub delete_machine : String → Action F W (Unit {0})
  unfolding without_machine is_referred_to
  delete_machine machine_id = do
    machine ← the_machine machine_id
    kept ← reads (λ t. d.enforces_keys && is_referred_to machine_id t)
    lift (if kept then err (other_error "FOREIGN KEY constraint failed") else ok tt)
    change (without_machine machine_id)
    commit

  unfoldable pub probed : Machine F → (dry_run : Bool) → Action F W (List (String × Json F))
  unfolding fake_machine_profile
  probed machine true = return (fake_machine_profile machine)
  probed machine false = do
    executor ← lift (executor_for machine)
    outside_or_raise
        (probe_remote_machine d.floats d.python executor machine.row.host machine.row.runtime_mode)

  unfoldable pub probe_machine : String → (dry_run : Bool) → Action F W (MachineSnapshot F)
  unfolding probed
  probe_machine machine_id dry_run = do
    machine ← the_machine machine_id
    profile ← probed machine dry_run
    let fingerprint = d.python.sha256_hex (d.show_items profile)
    id ← fresh d.new_id
    let snapshot = snapshot_for id profile fingerprint "snapshots" machine
    change (save_machine (profiled_machine profile fingerprint "profiled" machine))
    change (add_snapshot snapshot)
    commit
    return snapshot
