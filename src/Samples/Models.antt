-- ===== src/Samples/Models.antt =====
-- A model that is stored without a checksum and distributed in the lab.
use inference_lab.Prelude.{ℕ, refl, none, some, [], false}
use inference_lab.Machines.{ssh_config}
use inference_lab.Executor.Ssh.{SshConnectionConfig, ssh_executor}
use inference_lab.Api.Models.{ModelCreate, ModelDistributeRequest}
use inference_lab.Api.Models.Created.{IsDistributed, distribute_model_to_machine-create_model}
use inference_lab.Samples.Values.{quiet_ssh}
use inference_lab.Samples.Deployments.{lab, lab_session, box}

abbrev unchecked : ModelCreate ℕ
unchecked = record {
  name = "llama";
  source = "rsync";
  format = "safetensors";
  sha256 = none;
  cache_path = "/data/llama";
  metadata = [];
}

abbrev to_box : ModelDistributeRequest
to_box = record { machine_id = "m1"; target_path = some ""; dry_run = false }

abbrev box_config : SshConnectionConfig
box_config = record {
  host = "gpu-1";
  port = 22;
  username = some "root";
  credential_type = "ssh_agent";
  secret = none;
  known_hosts_policy = "strict";
  connect_timeout_seconds = 10;
}

distribute_model_to_machine-create_model_example :
    IsDistributed lab unchecked to_box box (ssh_executor quiet_ssh box_config) lab_session
distribute_model_to_machine-create_model_example =
    distribute_model_to_machine-create_model lab unchecked to_box box
      (ssh_executor quiet_ssh box_config) lab_session refl refl (unfold ssh_config in refl)
