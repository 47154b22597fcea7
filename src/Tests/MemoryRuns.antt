-- ===== src/Tests/MemoryRuns.antt =====
-- The theorems on deep copies, applied to resources in a small memory.
use k8s_native_fast_gpu_chec.Prelude.{
  ℕ, String, ◌≤◌, ◌<◌, pos, true, false, ◌≡◌, refl, ◌⊎◌, Option, none, some, [], ◌∷◌, arith,
}
use k8s_native_fast_gpu_chec.Copies.{Ptr, Heap, Kind, write, IsCopy}
use k8s_native_fast_gpu_chec.Copies.Layouts.{flat_layout}
use k8s_native_fast_gpu_chec.Copies.Memory.{load}
use k8s_native_fast_gpu_chec.Copies.Pointers.{PointsWithin}
use k8s_native_fast_gpu_chec.Copies.Slices.{list_layout}
use k8s_native_fast_gpu_chec.Copies.Checkpoints.{deep_copy_checkpoint}
use k8s_native_fast_gpu_chec.Copies.Checkpoints.Deep.{checkpoint_pointer}
use k8s_native_fast_gpu_chec.Copies.Isolation.{deep_copy_checkpoint_isolated}
use k8s_native_fast_gpu_chec.Copies.Workloads.{deep_copy_workload_list_object}
use k8s_native_fast_gpu_chec.Copies.Workloads.Deep.{
  workload_layout, workload_list_pointer, deep_copy_workload_list_object-IsCopy,
}
use k8s_native_fast_gpu_chec.Tests.MemoryWorld.{
  Cell, instant, conditions, checkpoint, checkpoints, checkpoint_list, flag, selector_text, targets,
  workload_list, workloads, CheckpointRow, WorkloadRow, outside, checkpoint_cells, zero_spec,
  zero_storage, memory, instants, selectors, conditions_kind, of_checkpoint_row,
}
use k8s_native_fast_gpu_chec.Tests.MemoryWorkloads.{
  workload_cells, workloads_kind, flag_kind, targets_kind, of_workload_row, zero_target_ref,
  zero_target,
}

-- A resource with a time at address 0 and conditions at address 1.
abbrev row : CheckpointRow
row = ("GPUCheckpoint", "ck", zero_spec, ("Completed", "node-a", some 0, 1, "/mnt", "", some 1))

-- The resource lies at address 2.
abbrev stored : Heap Cell
stored = memory (
    instant 7
    ∷ conditions ("Ready" ∷ [])
    ∷ checkpoint row
    ∷ checkpoints (row ∷ [])
    ∷ checkpoint_list ("GPUCheckpointList", "", some 3)
    ∷ [])

-- What the resource points to.
time_within : PointsWithin instants (flat_layout ℕ) 0 stored 0
unfolding load
time_within = record {
  above = omega arith;
  used = omega arith;
  target = 7;
  loaded = refl;
  target_within = tt;
}

conditions_within : PointsWithin conditions_kind (list_layout (flat_layout String)) 0 stored 1
unfolding load
conditions_within = record {
  above = omega arith;
  used = omega arith;
  target = "Ready" ∷ [];
  loaded = refl;
  target_within = (tt, tt);
}

stored_checkpoint : (checkpoint_pointer outside checkpoint_cells).layout.Within 0 stored (some 2)
unfolding load
stored_checkpoint = record {
  above = omega arith;
  used = omega arith;
  target = of_checkpoint_row row;
  loaded = refl;
  target_within = (tt, (tt, (tt, (tt, (time_within, conditions_within)))));
}

-- The conditions of the original are overwritten after the copy.
abbrev copied : Option Ptr × Heap Cell
copied = deep_copy_checkpoint outside checkpoint_cells (some 2) stored

deep_copy_checkpoint_isolated_example :
    (1 < stored.next)
      × ((checkpoint_pointer outside checkpoint_cells).layout.view
            (write 1 (conditions []) copied.1)
            copied.0
          ≡ (checkpoint_pointer outside checkpoint_cells).layout.view stored (some 2))
    ⊎ (stored.next ≤ 1)
      × ((checkpoint_pointer outside checkpoint_cells).layout.view
            (write 1 (conditions []) copied.1)
            (some 2)
          ≡ (checkpoint_pointer outside checkpoint_cells).layout.view stored (some 2))
deep_copy_checkpoint_isolated_example =
    deep_copy_checkpoint_isolated outside checkpoint_cells (some 2) stored 1 (conditions [])
      stored_checkpoint

-- A WorkloadCheckpoint with a selector, `requireGPU`, targets, a time and conditions.
abbrev workload_row : WorkloadRow
workload_row = (
  "WorkloadCheckpoint",
  "wc",
  (zero_target_ref, "Checkpoint", zero_storage, some 0, "None", "", false, some 1, pos 0),
  ("InProgress", "Job", 1, 1, 0, 0, some 2, some 3, none, "", some 4),
)

abbrev stored_workloads : Heap Cell
stored_workloads = memory (
    selector_text "app=train"
    ∷ flag true
    ∷ targets (zero_target ∷ [])
    ∷ instant 7
    ∷ conditions ("Ready" ∷ [])
    ∷ workloads (workload_row ∷ [])
    ∷ workload_list ("WorkloadCheckpointList", "", some 5)
    ∷ [])

-- The parts of the resource lie in memory.
module _ {A : Type 0} (K : Kind Cell A) (p : Ptr) (a : A) where
  plain_within :
      p < 7
      → load K p stored_workloads ≡ some a
      → PointsWithin K (flat_layout A) 0 stored_workloads p
  plain_within used loaded = record {
    above = omega arith;
    used = used;
    target = a;
    loaded = loaded;
    target_within = tt;
  }

workload_conditions_within :
    PointsWithin conditions_kind (list_layout (flat_layout String)) 0 stored_workloads 4
unfolding load
workload_conditions_within = record {
  above = omega arith;
  used = omega arith;
  target = "Ready" ∷ [];
  loaded = refl;
  target_within = (tt, tt);
}

workload_within :
    (workload_layout outside workload_cells).Within 0 stored_workloads
      (of_workload_row workload_row)
unfolding load
workload_within = (
  tt,
  (
    tt,
    (
      (
        tt,
        (
          tt,
          (
            plain_within selectors 0 "app=train" (omega arith) refl,
            plain_within flag_kind 1 true (omega arith) refl,
          ),
        ),
      ),
      (
        tt,
        (
          plain_within targets_kind 2 (zero_target ∷ []) (omega arith) refl,
          (plain_within instants 3 7 (omega arith) refl, (tt, workload_conditions_within)),
        ),
      ),
    ),
  ),
)

workload_items_within :
    PointsWithin workloads_kind
      (list_layout (workload_layout outside workload_cells))
      0
      stored_workloads
      5
unfolding load
workload_items_within = record {
  above = omega arith;
  used = omega arith;
  target = of_workload_row workload_row ∷ [];
  loaded = refl;
  target_within = (workload_within, tt);
}

stored_workload_list :
    (workload_list_pointer outside workload_cells).layout.Within 0 stored_workloads (some 6)
unfolding load
stored_workload_list = record {
  above = omega arith;
  used = omega arith;
  target = record { type_meta = "WorkloadCheckpointList"; list_meta = ""; items = some 5 };
  loaded = refl;
  target_within = (tt, (tt, workload_items_within));
}

deep_copy_workload_list_object-IsCopy_example :
    IsCopy
      (workload_list_pointer outside workload_cells).layout
      stored_workloads
      (some 6)
      (deep_copy_workload_list_object outside workload_cells (some 6) stored_workloads)
deep_copy_workload_list_object-IsCopy_example =
    deep_copy_workload_list_object-IsCopy outside workload_cells (some 6) stored_workloads
      stored_workload_list
