-- ===== src/Copies/Checkpoints.antt =====
-- The deep copies of api/v1alpha1/zz_generated.deepcopy.go. A function `DeepCopyInto` is modelled by the
-- struct that it leaves in `out`.
pub mod Deep
use k8s_native_fast_gpu_chec.Prelude.{ℕ, String, Option, none, some, List}
use k8s_native_fast_gpu_chec.Api.{WorkloadRef, StorageSpec, GpuCheckpointSpec}
use k8s_native_fast_gpu_chec.Copies.{Ptr, Heap, Kind, Copier}
use k8s_native_fast_gpu_chec.Copies.Outside.{Outside}
use k8s_native_fast_gpu_chec.Copies.Layouts.{copy_if_set}
use k8s_native_fast_gpu_chec.Copies.Slices.{copy_slice}
use k8s_native_fast_gpu_chec.Copies.Structs.{deep_copy_pointer, as_object}

module _ {Cell : Type 0} (O : Outside Cell) where
  -- `GPUCheckpointStatus` in memory: a pointer to a time, and a slice.
  pub record StoredStatus : Type 0 where
    pub phase : String
    pub observed_node : String
    pub last_checkpoint_time : Option O.TimePointer
    pub checkpoint_count : ℕ
    pub last_checkpoint_path : String
    pub message : String
    pub conditions : Option Ptr

  -- `GPUCheckpoint` in memory.
  pub record StoredCheckpoint : Type 0 where
    pub type_meta : O.TypeMeta
    pub object_meta : O.ObjectMeta
    pub spec : GpuCheckpointSpec
    pub status : StoredStatus

  -- `GPUCheckpointList` in memory.
  pub record StoredCheckpointList : Type 0 where
    pub type_meta : O.TypeMeta
    pub list_meta : O.ListMeta
    pub items : Option Ptr

  -- The cells that the package allocates.
  pub record CheckpointCells : Type 0 where
    pub workload_refs : Kind Cell WorkloadRef
    pub storages : Kind Cell StorageSpec
    pub specs : Kind Cell GpuCheckpointSpec
    pub statuses : Kind Cell StoredStatus
    pub checkpoints : Kind Cell StoredCheckpoint
    pub lists : Kind Cell StoredCheckpointList
    pub condition_arrays : Kind Cell (List O.Condition)
    pub checkpoint_arrays : Kind Cell (List StoredCheckpoint)

module _ {Cell : Type 0} (O : Outside Cell) where
  -- `(*WorkloadRef).DeepCopyInto`
  unfoldable pub workload_ref_into : WorkloadRef → Heap Cell → WorkloadRef × Heap Cell
  workload_ref_into in_ref h = (in_ref, h)

  -- `(*StorageSpec).DeepCopyInto`
  unfoldable pub storage_into : StorageSpec → Heap Cell → StorageSpec × Heap Cell
  storage_into in_storage h = (in_storage, h)

  -- `(*GPUCheckpointSpec).DeepCopyInto`
  unfoldable pub spec_into : GpuCheckpointSpec → Heap Cell → GpuCheckpointSpec × Heap Cell
  spec_into in_spec h =
      (record in_spec { workload_ref = in_spec.workload_ref; storage = in_spec.storage }, h)

  module _ (cells : CheckpointCells O) where
    -- `(*GPUCheckpointStatus).DeepCopyInto`
    unfoldable pub status_into : StoredStatus O → Heap Cell → StoredStatus O × Heap Cell
    status_into in_status h =
        let (time, h₁) = copy_if_set O.time.copy in_status.last_checkpoint_time h in
        let (conditions, h₂) =
          copy_if_set (copy_slice cells.condition_arrays O.zero_condition O.condition.copy)
            in_status.conditions h₁ in
        (record in_status { last_checkpoint_time = time; conditions = conditions }, h₂)

    -- `(*GPUCheckpoint).DeepCopyInto`
    unfoldable pub checkpoint_into : StoredCheckpoint O → Heap Cell → StoredCheckpoint O × Heap Cell
    checkpoint_into in_checkpoint h =
        let (meta, h₁) = O.object_meta.copy in_checkpoint.object_meta h in
        let (spec, h₂) = spec_into in_checkpoint.spec h₁ in
        let (status, h₃) = status_into in_checkpoint.status h₂ in
        (
          record in_checkpoint {
            type_meta = in_checkpoint.type_meta;
            object_meta = meta;
            spec = spec;
            status = status;
          },
          h₃,
        )

    -- `(*GPUCheckpointList).DeepCopyInto`
    unfoldable pub list_into :
        StoredCheckpointList O → Heap Cell → StoredCheckpointList O × Heap Cell
    list_into in_list h =
        let (meta, h₁) = O.list_meta.copy in_list.list_meta h in
        let (items, h₂) =
          copy_if_set
            (copy_slice cells.checkpoint_arrays cells.checkpoints.zero_value checkpoint_into)
            in_list.items h₁ in
        (record in_list { type_meta = in_list.type_meta; list_meta = meta; items = items }, h₂)

    -- The functions `DeepCopy`: nil for nil, and else a new struct.
    unfoldable pub deep_copy_workload_ref : Option Ptr → Heap Cell → Option Ptr × Heap Cell
    deep_copy_workload_ref = copy_if_set (deep_copy_pointer cells.workload_refs workload_ref_into)

    unfoldable pub deep_copy_storage : Option Ptr → Heap Cell → Option Ptr × Heap Cell
    deep_copy_storage = copy_if_set (deep_copy_pointer cells.storages storage_into)

    unfoldable pub deep_copy_spec : Option Ptr → Heap Cell → Option Ptr × Heap Cell
    deep_copy_spec = copy_if_set (deep_copy_pointer cells.specs spec_into)

    unfoldable pub deep_copy_status : Option Ptr → Heap Cell → Option Ptr × Heap Cell
    deep_copy_status = copy_if_set (deep_copy_pointer cells.statuses status_into)

    unfoldable pub deep_copy_checkpoint : Option Ptr → Heap Cell → Option Ptr × Heap Cell
    deep_copy_checkpoint = copy_if_set (deep_copy_pointer cells.checkpoints checkpoint_into)

    unfoldable pub deep_copy_list : Option Ptr → Heap Cell → Option Ptr × Heap Cell
    deep_copy_list = copy_if_set (deep_copy_pointer cells.lists list_into)

    -- The functions `DeepCopyObject`: a nil pointer gives a nil interface.
    unfoldable pub deep_copy_checkpoint_object : Option Ptr → Heap Cell → Option Ptr × Heap Cell
    deep_copy_checkpoint_object o h = as_object (deep_copy_checkpoint o h)

    unfoldable pub deep_copy_list_object : Option Ptr → Heap Cell → Option Ptr × Heap Cell
    deep_copy_list_object o h = as_object (deep_copy_list o h)
