-- ===== src/Manager.antt =====
-- The calls of controller-runtime that the two commands and the `SetupWithManager` methods make. The
-- manager itself is not modelled.
use k8s_native_fast_gpu_chec.Prelude.{String, Bool, List, Error}

-- `ctrl.Options`, without the scheme.
pub record ManagerOptions : Type 0 where
  pub metrics_address : String
  pub probe_address : String
  pub leader_election : Bool
  pub leader_election_id : String

-- What a controller builder is told: `For`, `Owns` and whether the events pass through
-- `GenerationChangedPredicate`.
pub record ControllerSetup : Type 0 where
  pub watches : String
  pub owns : List String
  pub generation_changed : Bool

pub data ManagerCall : Type 0 where
  -- `ctrl.GetConfigOrDie`, which exits on an error.
  get_config : ManagerCall
  new_manager : ManagerOptions → ManagerCall
  -- `Complete` of a controller builder.
  complete : ControllerSetup → ManagerCall
  add_healthz_check : String → ManagerCall
  add_readyz_check : String → ManagerCall
  -- `Start`, which answers when the manager has stopped.
  start : ManagerCall

abbrev pub ManagerReply : ManagerCall → Type 0
ManagerReply c = Error
