-- ===== src/Discovery/Verdict/Sent.antt =====
-- What a discovery sends to the machine.
use inference_lab.Prelude.{◌≡◌, ap, ◌∙◌, put, List, [], ◌∷◌, ◌++◌, append-nil, append_assoc}
use inference_lab.Prelude.Float.{Floats}
use inference_lab.Schemas.{CommandRecord, plain_command}
use inference_lab.Executor.{RemoteExecutor}
use inference_lab.Steps.Running.{recording}
use inference_lab.Discovery.{
  DiscoveryCommand, safe_discovery_commands, PythonText, MachineContext, Results,
}
use inference_lab.Discovery.Verdict.{collect, attach_artifact_uris, run_discovery, concluded}

-- The commands as they are sent: without `sudo`, a directory or an environment.
abbrev pub sent : List DiscoveryCommand → List CommandRecord
sent [] = []
sent (c ∷ commands) = plain_command c.command ∷ sent commands

module _ {F : Type 0} (fl : Floats F) (py : PythonText F) {W : Type 0} (ex : RemoteExecutor W) where
  collect-recording :
      (m : MachineContext) (commands : List DiscoveryCommand) (results : Results) (w : W)
      (log : List CommandRecord)
      → collect fl py (recording ex) m commands results (w, log) ≡ (
        (collect fl py ex m commands results w).0,
        ((collect fl py ex m commands results w).1, log ++ sent commands),
      )
  unfolding collect
  collect-recording m [] results w log = rw append-nil
  collect-recording m (c ∷ commands) results w log =
      let (r, after) = ex.run (plain_command c.command) c.timeout_seconds w in
      let more = put c.id (attach_artifact_uris py m c.id r) results in
      collect-recording m commands more after (log ++ plain_command c.command ∷ [])
      ∙ ap
          (λ l. (
            (collect fl py ex m commands more after).0,
            ((collect fl py ex m commands more after).1, l),
          ))
          (append_assoc log (plain_command c.command ∷ []) (sent commands))

  -- Whatever the machine answers, a discovery sends exactly the commands of the allowlist, in its
  -- order and none with `sudo`, a directory or an environment; what it returns and what it does to
  -- the machine's state are as without the recording.
  pub run_discovery-recording :
      (m : MachineContext) (w : W) (log : List CommandRecord)
      → run_discovery fl py (recording ex) m (w, log) ≡ (
        (run_discovery fl py ex m w).0,
        ((run_discovery fl py ex m w).1, log ++ sent safe_discovery_commands),
      )
  unfolding run_discovery
  run_discovery-recording m w log =
      ap (λ r. (concluded fl py m r.0, r.1)) (collect-recording m safe_discovery_commands [] w log)
