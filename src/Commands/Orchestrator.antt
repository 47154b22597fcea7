-- ===== src/Commands/Orchestrator.antt =====
-- `main` of orchestrator/cmd/main.go. `os.Exit(1)` ends the program with an error. Loggers, the scheme
-- and log lines are left out.
pub mod Starting
use k8s_native_fast_gpu_chec.Prelude.{String, Bool, true, false, [], ◌∷◌, Result, Error}
use k8s_native_fast_gpu_chec.Effect.{Handler, World, perform}
use k8s_native_fast_gpu_chec.Effect.Fallible.{E, ◌>>=◌, ◌>>◌, check, attempt, lift, same}
use k8s_native_fast_gpu_chec.Manager.{
  ManagerOptions, ControllerSetup, ManagerCall, ManagerReply, get_config, new_manager, complete,
  add_healthz_check, add_readyz_check, start,
}

-- The flags of the command.
pub record Flags : Type 0 where
  pub metrics_addr : String
  pub probe_addr : String
  pub leader_elect : Bool

-- The calls of the command that leave the program.
pub data CommandCall : Type 0 where
  parse_flags : Flags → CommandCall
  manager : ManagerCall → CommandCall

abbrev pub CommandReply : CommandCall → Type 0
CommandReply (parse_flags defaults) = Result Flags
CommandReply (manager c) = ManagerReply c

abbrev pub default_flags : Flags
default_flags = record { metrics_addr = ":8080"; probe_addr = ":8081"; leader_elect = true }

abbrev pub manager_options : Flags → ManagerOptions
manager_options flags = record {
  metrics_address = flags.metrics_addr;
  probe_address = flags.probe_addr;
  leader_election = flags.leader_elect;
  leader_election_id = "workload-checkpoint.gpu-cr.io";
}

-- What `SetupWithManager` tells the builder.
abbrev pub workload_controller : ControllerSetup
workload_controller = record {
  watches = "WorkloadCheckpoint";
  owns = "GPUCheckpoint" ∷ [];
  generation_changed = false;
}

module _ (H : Handler CommandCall CommandReply) where
  -- `SetupWithManager` of orchestrator/controllers/workloadcheckpoint_controller.go.
  unfoldable pub setup_with_manager : E (World H) (Unit {0})
  setup_with_manager = check same (perform H (manager (complete workload_controller)))

  -- `main`
  unfoldable pub orchestrator : E (World H) (Unit {0})
  orchestrator = do
    flags ← attempt same (perform H (parse_flags default_flags))
    check same (perform H (manager get_config))
    check same (perform H (manager (new_manager (manager_options flags))))
    setup_with_manager
    _ ← lift (perform H (manager (add_healthz_check "healthz")))
    _ ← lift (perform H (manager (add_readyz_check "readyz")))
    check same (perform H (manager start))
