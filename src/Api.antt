-- ===== src/Api.antt =====
-- The GPUCheckpoint resource (api/v1alpha1/gpucheckpoint_types.go) and what the program reads of
-- the Kubernetes types. Names are the JSON names, respelled.
pub mod Workload
use k8s_native_fast_gpu_chec.Prelude.{ℕ, String, Bool, Option, List}

-- An instant: nanoseconds since January 1 of year 1, which is Go's zero time.
abbrev pub Time : Type 0
Time = ℕ

pub record ObjectMeta : Type 0 where
  pub namespace : String
  pub name : String
  pub labels : List (String × String)

-- `WorkloadRef`
pub record WorkloadRef : Type 0 where
  pub kind : String
  pub namespace : String
  pub name : String
  pub container : String
  pub node_info : String

-- `StorageSpec`. `StorageType` is a string; the enumeration is only validated by the API server.
pub record StorageSpec : Type 0 where
  pub type : String
  pub path : String
  pub endpoint : String
  pub fs_type : String
  pub source : String
  pub options : String
  pub sub_path : String
  pub claim_name : String

abbrev pub storage_host_path : String
storage_host_path = "hostPath"

abbrev pub storage_mount : String
storage_mount = "mount"

abbrev pub storage_nfs : String
storage_nfs = "nfs"

abbrev pub storage_pvc : String
storage_pvc = "pvc"

abbrev pub storage_s3 : String
storage_s3 = "s3"

-- `GPUCheckpointSpec`
pub record GpuCheckpointSpec : Type 0 where
  pub workload_ref : WorkloadRef
  pub storage : StorageSpec
  pub schedule : String
  pub incremental : Bool

-- `CheckpointPhase`, a string. The empty string is the phase of a new object.
abbrev pub phase_pending : String
phase_pending = "Pending"

abbrev pub phase_checkpointing : String
phase_checkpointing = "Checkpointing"

abbrev pub phase_completed : String
phase_completed = "Completed"

abbrev pub phase_failed : String
phase_failed = "Failed"

-- `metav1.Condition`, as far as the program sets it.
pub record Condition : Type 0 where
  pub type : String
  pub status : String
  pub reason : String
  pub message : String
  pub last_transition_time : Time

-- `GPUCheckpointStatus`. `checkpoint_count` is an int64.
pub record GpuCheckpointStatus : Type 0 where
  pub phase : String
  pub observed_node : String
  pub last_checkpoint_time : Option Time
  pub checkpoint_count : ℕ
  pub last_checkpoint_path : String
  pub message : String
  pub conditions : List Condition

-- `GPUCheckpoint`
pub record GpuCheckpoint : Type 0 where
  pub meta : ObjectMeta
  pub spec : GpuCheckpointSpec
  pub status : GpuCheckpointStatus

-- One container of a Pod. `gpu_limit` and `gpu_request` are the quantities of `nvidia.com/gpu`, if
-- the map has that key.
pub record Container : Type 0 where
  pub name : String
  pub gpu_limit : Option ℕ
  pub gpu_request : Option ℕ

-- The fields of `corev1.Pod` that the program reads.
pub record Pod : Type 0 where
  pub meta : ObjectMeta
  pub uid : String
  pub node_name : String
  pub phase : String
  pub deletion_timestamp : Option Time
  pub containers : List Container

-- The answer of an API server call. `not_found` and `already_exists` are the errors that the
-- program tells apart.
pub data ApiError : Type 0 where
  not_found : String → ApiError
  already_exists : String → ApiError
  other : String → ApiError

-- `err.Error()`
abbrev pub api_text : ApiError → String
api_text (not_found t) = t
api_text (already_exists t) = t
api_text (other t) = t

pub data ApiResult (A : Type 0) : Type 0 where
  found : A → ApiResult A
  failed : ApiError → ApiResult A
