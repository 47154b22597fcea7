-- ===== src/Copies/Workloads.antt =====
-- The deep copies of orchestrator/api/v1alpha1/zz_generated.deepcopy.go. A function `DeepCopyInto` is
-- modelled by the struct that it leaves in `out`.
pub mod Deep
use k8s_native_fast_gpu_chec.Prelude.{ℕ, ℤ, String, Bool, Option, none, some, List}
use k8s_native_fast_gpu_chec.Api.{StorageSpec}
use k8s_native_fast_gpu_chec.Api.Workload.{WorkloadTargetRef, TargetStatus}
use k8s_native_fast_gpu_chec.Copies.{Ptr, Heap, Kind, Copier}
use k8s_native_fast_gpu_chec.Copies.Outside.{Outside}
use k8s_native_fast_gpu_chec.Copies.Layouts.{copy_if_set}
use k8s_native_fast_gpu_chec.Copies.Slices.{copy_slice}
use k8s_native_fast_gpu_chec.Copies.Values.{copy_value, copy_plain_slice}
use k8s_native_fast_gpu_chec.Copies.Structs.{deep_copy_pointer, as_object}
use k8s_native_fast_gpu_chec.Copies.Checkpoints.{storage_into}

module _ {Cell : Type 0} (O : Outside Cell) where
  -- `WorkloadCheckpointSpec` in memory, with its two pointers.
  pub record StoredWorkloadSpec : Type 0 where
    pub workload_ref : WorkloadTargetRef
    pub action : String
    pub storage : StorageSpec
    pub pod_selector : Option O.SelectorPointer
    pub coordination : String
    pub schedule : String
    pub incremental : Bool
    pub require_gpu : Option Ptr
    pub max_concurrent : ℤ

  -- `WorkloadCheckpointStatus` in memory: two pointers to times, and two slices.
  pub record StoredWorkloadStatus : Type 0 where
    pub phase : String
    pub observed_workload_kind : String
    pub total : ℕ
    pub active : ℕ
    pub completed : ℕ
    pub failed : ℕ
    pub targets : Option Ptr
    pub start_time : Option O.TimePointer
    pub completion_time : Option O.TimePointer
    pub message : String
    pub conditions : Option Ptr

  -- `WorkloadCheckpoint` in memory.
  pub record StoredWorkload : Type 0 where
    pub type_meta : O.TypeMeta
    pub object_meta : O.ObjectMeta
    pub spec : StoredWorkloadSpec
    pub status : StoredWorkloadStatus

  -- `WorkloadCheckpointList` in memory.
  pub record StoredWorkloadList : Type 0 where
    pub type_meta : O.TypeMeta
    pub list_meta : O.ListMeta
    pub items : Option Ptr

  -- The cells that the package allocates.
  pub record WorkloadCells : Type 0 where
    pub target_refs : Kind Cell WorkloadTargetRef
    pub bools : Kind Cell Bool
    pub specs : Kind Cell StoredWorkloadSpec
    pub targets : Kind Cell TargetStatus
    pub statuses : Kind Cell StoredWorkloadStatus
    pub workloads : Kind Cell StoredWorkload
    pub lists : Kind Cell StoredWorkloadList
    pub target_arrays : Kind Cell (List TargetStatus)
    pub condition_arrays : Kind Cell (List O.Condition)
    pub workload_arrays : Kind Cell (List StoredWorkload)

module _ {Cell : Type 0} (O : Outside Cell) (cells : WorkloadCells O) where
  -- `(*WorkloadTargetRef).DeepCopyInto`
  unfoldable pub target_ref_into : WorkloadTargetRef → Heap Cell → WorkloadTargetRef × Heap Cell
  target_ref_into in_ref h = (in_ref, h)

  -- `(*TargetStatus).DeepCopyInto`
  unfoldable pub target_into : TargetStatus → Heap Cell → TargetStatus × Heap Cell
  target_into in_target h = (in_target, h)

  -- `(*WorkloadCheckpointSpec).DeepCopyInto`
  unfoldable pub workload_spec_into :
      StoredWorkloadSpec O → Heap Cell → StoredWorkloadSpec O × Heap Cell
  workload_spec_into in_spec h =
      let (storage, h₁) = storage_into O in_spec.storage h in
      let (selector, h₂) = copy_if_set O.selector.copy in_spec.pod_selector h₁ in
      let (require_gpu, h₃) = copy_if_set (copy_value cells.bools) in_spec.require_gpu h₂ in
      (
        record in_spec {
          workload_ref = in_spec.workload_ref;
          storage = storage;
          pod_selector = selector;
          require_gpu = require_gpu;
        },
        h₃,
      )

  -- `(*WorkloadCheckpointStatus).DeepCopyInto`
  unfoldable pub workload_status_into :
      StoredWorkloadStatus O → Heap Cell → StoredWorkloadStatus O × Heap Cell
  workload_status_into in_status h =
      let (targets, h₁) =
        copy_if_set (copy_plain_slice cells.target_arrays cells.targets.zero_value)
          in_status.targets h in
      let (start_time, h₂) = copy_if_set O.time.copy in_status.start_time h₁ in
      let (completion_time, h₃) = copy_if_set O.time.copy in_status.completion_time h₂ in
      let (conditions, h₄) =
        copy_if_set (copy_slice cells.condition_arrays O.zero_condition O.condition.copy)
          in_status.conditions h₃ in
      (
        record in_status {
          targets = targets;
          start_time = start_time;
          completion_time = completion_time;
          conditions = conditions;
        },
        h₄,
      )

  -- `(*WorkloadCheckpoint).DeepCopyInto`
  unfoldable pub workload_into : StoredWorkload O → Heap Cell → StoredWorkload O × Heap Cell
  workload_into in_workload h =
      let (meta, h₁) = O.object_meta.copy in_workload.object_meta h in
      let (spec, h₂) = workload_spec_into in_workload.spec h₁ in
      let (status, h₃) = workload_status_into in_workload.status h₂ in
      (
        record in_workload {
          type_meta = in_workload.type_meta;
          object_meta = meta;
          spec = spec;
          status = status;
        },
        h₃,
      )

  -- `(*WorkloadCheckpointList).DeepCopyInto`
  unfoldable pub workload_list_into :
      StoredWorkloadList O → Heap Cell → StoredWorkloadList O × Heap Cell
  workload_list_into in_list h =
      let (meta, h₁) = O.list_meta.copy in_list.list_meta h in
      let (items, h₂) =
        copy_if_set (copy_slice cells.workload_arrays cells.workloads.zero_value workload_into)
          in_list.items h₁ in
      (record in_list { type_meta = in_list.type_meta; list_meta = meta; items = items }, h₂)

  -- The functions `DeepCopy`: nil for nil, and else a new struct.
  unfoldable pub deep_copy_target_ref : Option Ptr → Heap Cell → Option Ptr × Heap Cell
  deep_copy_target_ref = copy_if_set (deep_copy_pointer cells.target_refs target_ref_into)

  unfoldable pub deep_copy_target : Option Ptr → Heap Cell → Option Ptr × Heap Cell
  deep_copy_target = copy_if_set (deep_copy_pointer cells.targets target_into)

  unfoldable pub deep_copy_workload_spec : Option Ptr → Heap Cell → Option Ptr × Heap Cell
  deep_copy_workload_spec = copy_if_set (deep_copy_pointer cells.specs workload_spec_into)

  unfoldable pub deep_copy_workload_status : Option Ptr → Heap Cell → Option Ptr × Heap Cell
  deep_copy_workload_status = copy_if_set (deep_copy_pointer cells.statuses workload_status_into)

  unfoldable pub deep_copy_workload : Option Ptr → Heap Cell → Option Ptr × Heap Cell
  deep_copy_workload = copy_if_set (deep_copy_pointer cells.workloads workload_into)

  unfoldable pub deep_copy_workload_list : Option Ptr → Heap Cell → Option Ptr × Heap Cell
  deep_copy_workload_list = copy_if_set (deep_copy_pointer cells.lists workload_list_into)

  -- The functions `DeepCopyObject`: a nil pointer gives a nil interface.
  unfoldable pub deep_copy_workload_object : Option Ptr → Heap Cell → Option Ptr × Heap Cell
  deep_copy_workload_object o h = as_object (deep_copy_workload o h)

  unfoldable pub deep_copy_workload_list_object : Option Ptr → Heap Cell → Option Ptr × Heap Cell
  deep_copy_workload_list_object o h = as_object (deep_copy_workload_list o h)
