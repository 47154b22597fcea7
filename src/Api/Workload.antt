-- ===== src/Api/Workload.antt =====
-- The WorkloadCheckpoint resource (orchestrator/api/v1alpha1/workloadcheckpoint_types.go).
use k8s_native_fast_gpu_chec.Prelude.{ℕ, ℤ, String, Bool, Option, List}
use k8s_native_fast_gpu_chec.Api.{Time, ObjectMeta, StorageSpec, Condition}

abbrev pub action_checkpoint : String
action_checkpoint = "Checkpoint"

abbrev pub action_restore : String
action_restore = "Restore"

abbrev pub coordination_none : String
coordination_none = "None"

abbrev pub coordination_barrier : String
coordination_barrier = "Barrier"

-- `WorkloadTargetRef`
pub record WorkloadTargetRef : Type 0 where
  pub kind : String
  pub namespace : String
  pub name : String
  pub container : String

-- `WorkloadCheckpointSpec`, over the type of label selectors. `max_concurrent` is an int32.
pub record WorkloadCheckpointSpec (LabelSelector : Type 0) : Type 0 where
  pub workload_ref : WorkloadTargetRef
  pub action : String
  pub storage : StorageSpec
  pub pod_selector : Option LabelSelector
  pub coordination : String
  pub schedule : String
  pub incremental : Bool
  pub require_gpu : Option Bool
  pub max_concurrent : ℤ

-- `WorkloadCheckpointPhase`
abbrev pub wc_pending : String
wc_pending = "Pending"

abbrev pub wc_resolving : String
wc_resolving = "Resolving"

abbrev pub wc_in_progress : String
wc_in_progress = "InProgress"

abbrev pub wc_completed : String
wc_completed = "Completed"

abbrev pub wc_partially_failed : String
wc_partially_failed = "PartiallyFailed"

abbrev pub wc_failed : String
wc_failed = "Failed"

-- `TargetStatus`
pub record TargetStatus : Type 0 where
  pub pod_name : String
  pub node : String
  pub child_name : String
  pub phase : String
  pub path : String
  pub message : String

-- `WorkloadCheckpointStatus`. The four counters are int32 bit patterns.
pub record WorkloadCheckpointStatus : Type 0 where
  pub phase : String
  pub observed_workload_kind : String
  pub total : ℕ
  pub active : ℕ
  pub completed : ℕ
  pub failed : ℕ
  pub targets : List TargetStatus
  pub start_time : Option Time
  pub completion_time : Option Time
  pub message : String
  pub conditions : List Condition

-- `WorkloadCheckpoint`
pub record WorkloadCheckpoint (LabelSelector : Type 0) : Type 0 where
  pub meta : ObjectMeta
  pub spec : WorkloadCheckpointSpec LabelSelector
  pub status : WorkloadCheckpointStatus
