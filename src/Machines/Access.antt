-- ===== src/Machines/Access.antt =====
-- How a machine is reached with the credential that it was created with.
use inference_lab.Prelude.{◌≡◌, String, true, false, some, Bool-cases, inl, inr}
use inference_lab.Prelude.Text.{is_empty}
use inference_lab.Result.{ok}
use inference_lab.Schemas.{runtime_mode_value}
use inference_lab.Security.{Codecs, CodecLaws, IsEncodable, encrypt_secret, decrypt_secret}
use inference_lab.Security.RoundTrip.{decrypt_secret-encrypt_secret}
use inference_lab.Executor.Ssh.{
  SshConnectionConfig, Authentication, agent, client_key, authentication, connect_kwargs,
}
use inference_lab.Machines.{
  CredentialType, password, private_key, ssh_agent, is_accepted, MachineCreate, MachineRow,
  SshSettings, credential_type_value, created_row, ssh_config,
}

-- How a credential is to authenticate.
abbrev pub wanted : CredentialType → String → Authentication
wanted password s = Authentication.password s
wanted private_key s = client_key s
wanted ssh_agent s = agent

-- What encryption gives is a text that is not empty, if the secret is not.
abbrev pub NotEmptied : Codecs → SshSettings → String → Type 0
NotEmptied c settings s =
    (stored : String) → encrypt_secret c s settings.secret_key ≡ ok stored → is_empty stored ≡ false

module _ (c : Codecs) (laws : CodecLaws c) (settings : SshSettings) where
  abbrev with_secret : MachineCreate → CredentialType → String → MachineCreate
  with_secret payload t s = record payload {
    credential = some (record { credential_type = t; secret = some s });
  }

  abbrev row_of : MachineCreate → CredentialType → String → MachineRow
  row_of payload t stored = record {
    name = payload.name;
    host = payload.host;
    port = payload.port;
    username = payload.username;
    credential_type = credential_type_value t;
    encrypted_credential = some stored;
    runtime_mode = runtime_mode_value payload.runtime_mode;
  }

  abbrev config_of : MachineCreate → CredentialType → String → SshConnectionConfig
  config_of payload t s = record {
    host = payload.host;
    port = payload.port;
    username = some payload.username;
    credential_type = credential_type_value t;
    secret = some s;
    known_hosts_policy = settings.known_hosts_policy;
    connect_timeout_seconds = settings.default_timeout_seconds;
  }

  -- The row is stored, and the configuration made from it authenticates as wanted.
  abbrev pub Reached : MachineCreate → CredentialType → String → Type 0
  Reached payload t s =
      (row : MachineRow) × (created_row c settings (with_secret payload t s) ≡ ok row)
      × ((config : SshConnectionConfig) × (ssh_config c settings row ≡ ok config)
          × ((connect_kwargs config).authentication ≡ wanted t s))

  Reached-type :
      (payload : MachineCreate) (t : CredentialType) (s stored : String)
      → is_accepted (record { credential_type = t; secret = some s }) ≡ true
      → encrypt_secret c s settings.secret_key ≡ ok stored
      → decrypt_secret c stored settings.secret_key ≡ ok s
      → is_empty s ≡ false
      → is_empty stored ≡ false
      → Reached payload t s
  unfolding created_row ssh_config connect_kwargs authentication
  Reached-type payload password s stored accepted there back given kept = (
    row_of payload password stored,
    rw there,
    (config_of payload password s, rw (kept, back), rw given),
  )
  Reached-type payload private_key s stored accepted there back given kept = (
    row_of payload private_key stored,
    rw there,
    (config_of payload private_key s, rw (kept, back), rw given),
  )
  Reached-type payload ssh_agent s stored accepted there back given kept = cc (rw given at accepted)

  not_accepted :
      (t : CredentialType) (s : String)
      → is_empty s ≡ true
      → is_accepted (record { credential_type = t; secret = some s }) ≡ false
  not_accepted t s e = rw e

  -- A machine that is created with an accepted password or private key is stored, and the executor
  -- made for it authenticates with exactly that password or that key, if the secret can be encoded
  -- and its encryption is not an empty text.
  pub created_row-authentication :
      (payload : MachineCreate) (t : CredentialType) (s : String)
      → is_accepted (record { credential_type = t; secret = some s }) ≡ true
      → IsEncodable c s
      → NotEmptied c settings s
      → Reached payload t s
  created_row-authentication payload t s accepted encodable kept =
      let (stored, there, back) =
        decrypt_secret-encrypt_secret c laws s settings.secret_key encodable in
      elim (Bool-cases (is_empty s)) [
        | inl empty ↦ cc (accepted, not_accepted t s empty)
        | inr given ↦ Reached-type payload t s stored accepted there back given (kept stored there)
      ]
