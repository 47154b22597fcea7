-- ===== src/Copies/Workloads/Deep.antt =====
-- The copies of orchestrator/api/v1alpha1/zz_generated.deepcopy.go, type by type, from the copies of
-- the fields.
use k8s_native_fast_gpu_chec.Prelude.{ℕ, ℤ, String, Bool, Option, none, some}
use k8s_native_fast_gpu_chec.Api.{StorageSpec}
use k8s_native_fast_gpu_chec.Api.Workload.{WorkloadTargetRef}
use k8s_native_fast_gpu_chec.Copies.{Ptr, Heap, Layout, IsCopy, Copier}
use k8s_native_fast_gpu_chec.Copies.Outside.{Outside}
use k8s_native_fast_gpu_chec.Copies.Layouts.{flat, pair, optional, struct_layout, struct-IsCopy}
use k8s_native_fast_gpu_chec.Copies.Slices.{slice}
use k8s_native_fast_gpu_chec.Copies.Values.{value, plain_slice}
use k8s_native_fast_gpu_chec.Copies.Structs.{pointer}
use k8s_native_fast_gpu_chec.Copies.Checkpoints.{storage_into}
use k8s_native_fast_gpu_chec.Copies.Workloads.{
  StoredWorkloadSpec, StoredWorkloadStatus, StoredWorkload, StoredWorkloadList, WorkloadCells,
  workload_spec_into, workload_status_into, workload_into, workload_list_into,
  deep_copy_workload_list, deep_copy_workload_list_object,
}

module _ {Cell : Type 0} (O : Outside Cell) (cells : WorkloadCells O) where
  -- The fields of a spec without pointers, with the storage that has its own copy.
  abbrev PlainSpec : Type 0
  PlainSpec = WorkloadTargetRef × String × String × String × Bool × ℤ

  abbrev SpecFields : Type 0
  SpecFields = PlainSpec × (StorageSpec × (Option O.SelectorPointer × Option Ptr))

  abbrev spec_fields : StoredWorkloadSpec O → SpecFields
  spec_fields s = (
    (s.workload_ref, s.action, s.coordination, s.schedule, s.incremental, s.max_concurrent),
    (s.storage, (s.pod_selector, s.require_gpu)),
  )

  abbrev spec_tuple : Copier Cell SpecFields
  spec_tuple =
      pair (flat PlainSpec)
        (pair (flat StorageSpec) (pair (optional O.selector) (optional (value cells.bools))))

  abbrev spec_layout : Layout Cell (StoredWorkloadSpec O)
  spec_layout = struct_layout spec_fields spec_tuple.layout

  pub workload_spec_into-IsCopy :
      (h : Heap Cell) (s : StoredWorkloadSpec O)
      → spec_layout.Within 0 h s
      → IsCopy spec_layout h s (workload_spec_into O cells s h)
  unfolding workload_spec_into storage_into
  workload_spec_into-IsCopy h s w =
      struct-IsCopy spec_fields spec_tuple.layout h s (workload_spec_into O cells s h)
        (spec_tuple.copies h (spec_fields s) w)

  abbrev spec_copier : Copier Cell (StoredWorkloadSpec O)
  spec_copier = record {
    layout = spec_layout;
    copy = workload_spec_into O cells;
    copies = workload_spec_into-IsCopy;
  }

  -- The fields of a status without pointers.
  abbrev PlainStatus : Type 0
  PlainStatus = String × String × ℕ × ℕ × ℕ × ℕ × String

  abbrev StatusFields : Type 0
  StatusFields =
      PlainStatus × (Option Ptr × (Option O.TimePointer × (Option O.TimePointer × Option Ptr)))

  abbrev status_fields : StoredWorkloadStatus O → StatusFields
  status_fields s = (
    (s.phase, s.observed_workload_kind, s.total, s.active, s.completed, s.failed, s.message),
    (s.targets, (s.start_time, (s.completion_time, s.conditions))),
  )

  abbrev status_tuple : Copier Cell StatusFields
  status_tuple = pair (flat PlainStatus) (
      pair (optional (plain_slice cells.target_arrays cells.targets.zero_value)) (
        pair (optional O.time) (
          pair (optional O.time)
            (optional (slice cells.condition_arrays O.zero_condition O.condition)))))

  abbrev status_layout : Layout Cell (StoredWorkloadStatus O)
  status_layout = struct_layout status_fields status_tuple.layout

  pub workload_status_into-IsCopy :
      (h : Heap Cell) (s : StoredWorkloadStatus O)
      → status_layout.Within 0 h s
      → IsCopy status_layout h s (workload_status_into O cells s h)
  unfolding workload_status_into
  workload_status_into-IsCopy h s w =
      struct-IsCopy status_fields status_tuple.layout h s (workload_status_into O cells s h)
        (status_tuple.copies h (status_fields s) w)

  abbrev status_copier : Copier Cell (StoredWorkloadStatus O)
  status_copier = record {
    layout = status_layout;
    copy = workload_status_into O cells;
    copies = workload_status_into-IsCopy;
  }

  abbrev WorkloadFields : Type 0
  WorkloadFields = O.TypeMeta × (O.ObjectMeta × (StoredWorkloadSpec O × StoredWorkloadStatus O))

  abbrev workload_fields : StoredWorkload O → WorkloadFields
  workload_fields c = (c.type_meta, (c.object_meta, (c.spec, c.status)))

  abbrev workload_tuple : Copier Cell WorkloadFields
  workload_tuple = pair (flat O.TypeMeta) (pair O.object_meta (pair spec_copier status_copier))

  abbrev pub workload_layout : Layout Cell (StoredWorkload O)
  workload_layout = struct_layout workload_fields workload_tuple.layout

  pub workload_into-IsCopy :
      (h : Heap Cell) (c : StoredWorkload O)
      → workload_layout.Within 0 h c
      → IsCopy workload_layout h c (workload_into O cells c h)
  unfolding workload_into
  workload_into-IsCopy h c w =
      struct-IsCopy workload_fields workload_tuple.layout h c (workload_into O cells c h)
        (workload_tuple.copies h (workload_fields c) w)

  abbrev workload_copier : Copier Cell (StoredWorkload O)
  workload_copier = record {
    layout = workload_layout;
    copy = workload_into O cells;
    copies = workload_into-IsCopy;
  }

  abbrev ListFields : Type 0
  ListFields = O.TypeMeta × (O.ListMeta × Option Ptr)

  abbrev list_fields : StoredWorkloadList O → ListFields
  list_fields l = (l.type_meta, (l.list_meta, l.items))

  abbrev list_tuple : Copier Cell ListFields
  list_tuple = pair (flat O.TypeMeta) (
      pair O.list_meta
        (optional (slice cells.workload_arrays cells.workloads.zero_value workload_copier)))

  abbrev list_layout : Layout Cell (StoredWorkloadList O)
  list_layout = struct_layout list_fields list_tuple.layout

  pub workload_list_into-IsCopy :
      (h : Heap Cell) (l : StoredWorkloadList O)
      → list_layout.Within 0 h l
      → IsCopy list_layout h l (workload_list_into O cells l h)
  unfolding workload_list_into
  workload_list_into-IsCopy h l w =
      struct-IsCopy list_fields list_tuple.layout h l (workload_list_into O cells l h)
        (list_tuple.copies h (list_fields l) w)

  abbrev list_copier : Copier Cell (StoredWorkloadList O)
  list_copier = record {
    layout = list_layout;
    copy = workload_list_into O cells;
    copies = workload_list_into-IsCopy;
  }

  -- A pointer to a list of WorkloadCheckpoints, which may be nil.
  abbrev pub workload_list_pointer : Copier Cell (Option Ptr)
  workload_list_pointer = optional (pointer cells.lists list_copier)

  -- `DeepCopyObject` of a WorkloadCheckpointList that lies in memory leaves all memory that was in use as
  -- it was, leads only to new addresses, in every item, target and condition too, and stands for the same
  -- list; nil gives nil.
  pub deep_copy_workload_list_object-IsCopy :
      (o : Option Ptr) (h : Heap Cell)
      → workload_list_pointer.layout.Within 0 h o
      → IsCopy workload_list_pointer.layout h o (deep_copy_workload_list_object O cells o h)
  unfolding deep_copy_workload_list_object deep_copy_workload_list
  deep_copy_workload_list_object-IsCopy none h w = workload_list_pointer.copies h none w
  deep_copy_workload_list_object-IsCopy (some p) h w = workload_list_pointer.copies h (some p) w
