-- ===== src/Machines.antt =====
-- Machines and their credentials: `SSHCredential` of backend/src/inflab/schemas.py, and
-- `create_machine` and `_ssh_executor_for_machine` of backend/src/inflab/api/v1.py.
pub mod Access
use inference_lab.Prelude.{
  ℕ, String, Bool, true, false, Option, none, some, if◌then◌else◌, ◌==◌, String-eq,
}
use inference_lab.Prelude.Text.{is_empty}
use inference_lab.Result.{Result, ok, err, value_error, http_exception, ◌>>=◌}
use inference_lab.Schemas.{RuntimeMode, runtime_mode_value}
use inference_lab.Security.{Codecs, encrypt_secret, decrypt_secret}
use inference_lab.Executor.Ssh.{SshConnectionConfig}

pub data CredentialType : Type 0 where
  password private_key ssh_agent : CredentialType

abbrev pub credential_type_value : CredentialType → String
credential_type_value password = "password"
credential_type_value private_key = "private_key"
credential_type_value ssh_agent = "ssh_agent"

pub record SshCredential : Type 0 where
  pub credential_type : CredentialType
  pub secret : Option String

-- The constraint on the length of the secret, and then `secret_matches_credential_type`.
abbrev pub is_accepted : SshCredential → Bool
is_accepted c = elim c.secret [
  | none ↦ elim c.credential_type [ ssh_agent ↦ true | _ ↦ false ]
  | some s ↦ if is_empty s then false else elim c.credential_type [ ssh_agent ↦ false | _ ↦ true ]
]

pub record MachineCreate : Type 0 where
  pub name : String
  pub host : String
  pub port : ℕ
  pub username : String
  pub credential : Option SshCredential
  pub runtime_mode : RuntimeMode

-- The columns of `Machine` that are set on creation.
pub record MachineRow : Type 0 where
  pub name : String
  pub host : String
  pub port : ℕ
  pub username : String
  pub credential_type : String
  pub encrypted_credential : Option String
  pub runtime_mode : String

-- The settings that a connection reads.
pub record SshSettings : Type 0 where
  pub secret_key : String
  pub known_hosts_policy : String
  pub default_timeout_seconds : ℕ

abbrev or_blank : Option String → String
or_blank none = ""
or_blank (some s) = s

module _ (c : Codecs) (settings : SshSettings) where
  encrypted_for : Option SshCredential → Result (Option String)
  encrypted_for none = ok none
  encrypted_for (some credential) =
      if credential_type_value credential.credential_type == "ssh_agent"
      then ok none
      else (do e ← encrypt_secret c (or_blank credential.secret) settings.secret_key; ok (some e))

  type_for : Option SshCredential → String
  type_for none = "password"
  type_for (some credential) = credential_type_value credential.credential_type

  -- The row that `create_machine` adds.
  unfoldable pub created_row : MachineCreate → Result MachineRow
  unfolding encrypted_for type_for
  created_row payload = do
    encrypted ← encrypted_for payload.credential
    ok (record {
      name = payload.name;
      host = payload.host;
      port = payload.port;
      username = payload.username;
      credential_type = type_for payload.credential;
      encrypted_credential = encrypted;
      runtime_mode = runtime_mode_value payload.runtime_mode;
    })

  no_credential : Result (Option String)
  no_credential = err (http_exception 400 "machine has no SSH credential configured")

  decrypted : Option String → Result (Option String)
  unfolding no_credential
  decrypted none = no_credential
  decrypted (some stored) =
      if is_empty stored
      then no_credential
      else (do s ← decrypt_secret c stored settings.secret_key; ok (some s))

  -- The configuration of the executor that `_ssh_executor_for_machine` makes.
  unfoldable pub ssh_config : MachineRow → Result SshConnectionConfig
  unfolding decrypted
  ssh_config m = do
    secret ←
        (if m.credential_type == "ssh_agent" then ok none else decrypted m.encrypted_credential)
    ok (record {
      host = m.host;
      port = m.port;
      username = some m.username;
      credential_type = m.credential_type;
      secret = secret;
      known_hosts_policy = settings.known_hosts_policy;
      connect_timeout_seconds = settings.default_timeout_seconds;
    })
