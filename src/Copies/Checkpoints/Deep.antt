-- ===== src/Copies/Checkpoints/Deep.antt =====
-- The copies of api/v1alpha1/zz_generated.deepcopy.go, type by type, from the copies of the fields.
use k8s_native_fast_gpu_chec.Prelude.{ℕ, String, Option, none, some}
use k8s_native_fast_gpu_chec.Api.{GpuCheckpointSpec}
use k8s_native_fast_gpu_chec.Copies.{Ptr, Heap, Layout, IsCopy, Copier}
use k8s_native_fast_gpu_chec.Copies.Outside.{Outside}
use k8s_native_fast_gpu_chec.Copies.Layouts.{flat, pair, optional, struct_layout, struct-IsCopy}
use k8s_native_fast_gpu_chec.Copies.Slices.{slice}
use k8s_native_fast_gpu_chec.Copies.Structs.{pointer}
use k8s_native_fast_gpu_chec.Copies.Checkpoints.{
  StoredStatus, StoredCheckpoint, StoredCheckpointList, CheckpointCells, spec_into, status_into,
  checkpoint_into, list_into, deep_copy_checkpoint, deep_copy_list, deep_copy_list_object,
}

module _ {Cell : Type 0} (O : Outside Cell) (cells : CheckpointCells O) where
  -- The fields of a status without pointers.
  abbrev PlainStatus : Type 0
  PlainStatus = String × String × ℕ × String × String

  abbrev status_fields : StoredStatus O → PlainStatus × (Option O.TimePointer × Option Ptr)
  status_fields s = (
    (s.phase, s.observed_node, s.checkpoint_count, s.last_checkpoint_path, s.message),
    (s.last_checkpoint_time, s.conditions),
  )

  abbrev status_tuple : Copier Cell (PlainStatus × (Option O.TimePointer × Option Ptr))
  status_tuple = pair (flat PlainStatus) (
      pair (optional O.time) (optional (slice cells.condition_arrays O.zero_condition O.condition)))

  abbrev status_layout : Layout Cell (StoredStatus O)
  status_layout = struct_layout status_fields status_tuple.layout

  pub status_into-IsCopy :
      (h : Heap Cell) (s : StoredStatus O)
      → status_layout.Within 0 h s
      → IsCopy status_layout h s (status_into O cells s h)
  unfolding status_into
  status_into-IsCopy h s w =
      struct-IsCopy status_fields status_tuple.layout h s (status_into O cells s h)
        (status_tuple.copies h (status_fields s) w)

  abbrev status_copier : Copier Cell (StoredStatus O)
  status_copier = record {
    layout = status_layout;
    copy = status_into O cells;
    copies = status_into-IsCopy;
  }

  abbrev CheckpointFields : Type 0
  CheckpointFields = O.TypeMeta × (O.ObjectMeta × (GpuCheckpointSpec × StoredStatus O))

  abbrev checkpoint_fields : StoredCheckpoint O → CheckpointFields
  checkpoint_fields c = (c.type_meta, (c.object_meta, (c.spec, c.status)))

  abbrev checkpoint_tuple : Copier Cell CheckpointFields
  checkpoint_tuple =
      pair (flat O.TypeMeta) (pair O.object_meta (pair (flat GpuCheckpointSpec) status_copier))

  abbrev pub checkpoint_layout : Layout Cell (StoredCheckpoint O)
  checkpoint_layout = struct_layout checkpoint_fields checkpoint_tuple.layout

  pub checkpoint_into-IsCopy :
      (h : Heap Cell) (c : StoredCheckpoint O)
      → checkpoint_layout.Within 0 h c
      → IsCopy checkpoint_layout h c (checkpoint_into O cells c h)
  unfolding checkpoint_into spec_into
  checkpoint_into-IsCopy h c w =
      struct-IsCopy checkpoint_fields checkpoint_tuple.layout h c (checkpoint_into O cells c h)
        (checkpoint_tuple.copies h (checkpoint_fields c) w)

  abbrev checkpoint_copier : Copier Cell (StoredCheckpoint O)
  checkpoint_copier = record {
    layout = checkpoint_layout;
    copy = checkpoint_into O cells;
    copies = checkpoint_into-IsCopy;
  }

  abbrev ListFields : Type 0
  ListFields = O.TypeMeta × (O.ListMeta × Option Ptr)

  abbrev list_fields : StoredCheckpointList O → ListFields
  list_fields l = (l.type_meta, (l.list_meta, l.items))

  abbrev list_tuple : Copier Cell ListFields
  list_tuple = pair (flat O.TypeMeta) (
      pair O.list_meta
        (optional (slice cells.checkpoint_arrays cells.checkpoints.zero_value checkpoint_copier)))

  abbrev list_layout : Layout Cell (StoredCheckpointList O)
  list_layout = struct_layout list_fields list_tuple.layout

  pub list_into-IsCopy :
      (h : Heap Cell) (l : StoredCheckpointList O)
      → list_layout.Within 0 h l
      → IsCopy list_layout h l (list_into O cells l h)
  unfolding list_into
  list_into-IsCopy h l w =
      struct-IsCopy list_fields list_tuple.layout h l (list_into O cells l h)
        (list_tuple.copies h (list_fields l) w)

  abbrev list_copier : Copier Cell (StoredCheckpointList O)
  list_copier = record { layout = list_layout; copy = list_into O cells; copies = list_into-IsCopy }

  -- Pointers to the two resources, which may be nil.
  abbrev pub checkpoint_pointer : Copier Cell (Option Ptr)
  checkpoint_pointer = optional (pointer cells.checkpoints checkpoint_copier)

  abbrev pub list_pointer : Copier Cell (Option Ptr)
  list_pointer = optional (pointer cells.lists list_copier)

  -- `DeepCopy` of a GPUCheckpoint that lies in memory leaves all memory that was in use as it was,
  -- leads only to new addresses, and stands for the same resource; nil gives nil.
  pub deep_copy_checkpoint-IsCopy :
      (o : Option Ptr) (h : Heap Cell)
      → checkpoint_pointer.layout.Within 0 h o
      → IsCopy checkpoint_pointer.layout h o (deep_copy_checkpoint O cells o h)
  unfolding deep_copy_checkpoint
  deep_copy_checkpoint-IsCopy o h w = checkpoint_pointer.copies h o w

  -- `DeepCopyObject` of a GPUCheckpointList that lies in memory leaves all memory that was in use as it
  -- was, leads only to new addresses, in every item too, and stands for the same list; nil gives nil.
  pub deep_copy_list_object-IsCopy :
      (o : Option Ptr) (h : Heap Cell)
      → list_pointer.layout.Within 0 h o
      → IsCopy list_pointer.layout h o (deep_copy_list_object O cells o h)
  unfolding deep_copy_list_object deep_copy_list
  deep_copy_list_object-IsCopy none h w = list_pointer.copies h none w
  deep_copy_list_object-IsCopy (some p) h w = list_pointer.copies h (some p) w
