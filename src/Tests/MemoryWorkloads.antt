-- ===== src/Tests/MemoryWorkloads.antt =====
-- The cells of the orchestrator's resources in the memory for the deep copies.
use k8s_native_fast_gpu_chec.Prelude.{
  pos, String, Bool, false, ◌≡◌, refl, Option, none, some, List, [],
}
use k8s_native_fast_gpu_chec.Api.Workload.{WorkloadTargetRef, TargetStatus}
use k8s_native_fast_gpu_chec.Copies.{Ptr, Kind}
use k8s_native_fast_gpu_chec.Copies.Workloads.{
  StoredWorkloadSpec, StoredWorkloadStatus, StoredWorkload, StoredWorkloadList, WorkloadCells,
}
use k8s_native_fast_gpu_chec.Tests.MemoryWorld.{
  Cell, outside, kind_of, map_rows, map_rows_back, conditions_kind, zero_storage, WorkloadSpecRow,
  WorkloadStatusRow, WorkloadRow, flag, target_ref, target, targets, workload_spec, workload_status,
  workload, workload_list, workloads,
}

abbrev workload_spec_row : StoredWorkloadSpec outside → WorkloadSpecRow
workload_spec_row s = (
  s.workload_ref, s.action, s.storage, s.pod_selector, s.coordination, s.schedule, s.incremental,
  s.require_gpu, s.max_concurrent,
)

abbrev of_workload_spec_row : WorkloadSpecRow → StoredWorkloadSpec outside
of_workload_spec_row (a, b, c, d, e, f, g, h, i) = record {
  workload_ref = a;
  action = b;
  storage = c;
  pod_selector = d;
  coordination = e;
  schedule = f;
  incremental = g;
  require_gpu = h;
  max_concurrent = i;
}

abbrev workload_status_row : StoredWorkloadStatus outside → WorkloadStatusRow
workload_status_row s = (
  s.phase, s.observed_workload_kind, s.total, s.active, s.completed, s.failed, s.targets,
  s.start_time, s.completion_time, s.message, s.conditions,
)

abbrev of_workload_status_row : WorkloadStatusRow → StoredWorkloadStatus outside
of_workload_status_row (a, b, c, d, e, f, g, h, i, j, k) = record {
  phase = a;
  observed_workload_kind = b;
  total = c;
  active = d;
  completed = e;
  failed = f;
  targets = g;
  start_time = h;
  completion_time = i;
  message = j;
  conditions = k;
}

abbrev workload_row : StoredWorkload outside → WorkloadRow
workload_row c =
    (c.type_meta, c.object_meta, workload_spec_row c.spec, workload_status_row c.status)

abbrev pub of_workload_row : WorkloadRow → StoredWorkload outside
of_workload_row (a, b, c, d) = record {
  type_meta = a;
  object_meta = b;
  spec = of_workload_spec_row c;
  status = of_workload_status_row d;
}

pub back_workload : (c : StoredWorkload outside) → of_workload_row (workload_row c) ≡ c
back_workload c = refl

abbrev pub zero_target_ref : WorkloadTargetRef
zero_target_ref = record { kind = ""; namespace = ""; name = ""; container = "" }

abbrev pub zero_target : TargetStatus
zero_target = record {
  pod_name = "";
  node = "";
  child_name = "";
  phase = "";
  path = "";
  message = "";
}

abbrev zero_workload_spec : StoredWorkloadSpec outside
zero_workload_spec =
    of_workload_spec_row (zero_target_ref, "", zero_storage, none, "", "", false, none, pos 0)

abbrev zero_workload_status : StoredWorkloadStatus outside
zero_workload_status = of_workload_status_row ("", "", 0, 0, 0, 0, none, none, none, "", none)

abbrev as_flag : Cell → Option Bool
as_flag (flag x) = some x
as_flag _ = none

abbrev pub flag_kind : Kind Cell Bool
flag_kind = kind_of flag as_flag (λ x. x) (λ x. x) (λ r. refl) (λ a. refl) false

abbrev as_target_ref : Cell → Option WorkloadTargetRef
as_target_ref (target_ref x) = some x
as_target_ref _ = none

abbrev target_ref_kind : Kind Cell WorkloadTargetRef
target_ref_kind =
    kind_of target_ref as_target_ref (λ x. x) (λ x. x) (λ r. refl) (λ a. refl) zero_target_ref

abbrev as_target : Cell → Option TargetStatus
as_target (target x) = some x
as_target _ = none

abbrev target_kind : Kind Cell TargetStatus
target_kind = kind_of target as_target (λ x. x) (λ x. x) (λ r. refl) (λ a. refl) zero_target

abbrev as_targets : Cell → Option (List TargetStatus)
as_targets (targets x) = some x
as_targets _ = none

abbrev pub targets_kind : Kind Cell (List TargetStatus)
targets_kind = kind_of targets as_targets (λ x. x) (λ x. x) (λ r. refl) (λ a. refl) []

abbrev as_workload_spec : Cell → Option WorkloadSpecRow
as_workload_spec (workload_spec x) = some x
as_workload_spec _ = none

abbrev workload_spec_kind : Kind Cell (StoredWorkloadSpec outside)
workload_spec_kind =
    kind_of workload_spec as_workload_spec workload_spec_row of_workload_spec_row (λ r. refl)
      (λ a. refl) zero_workload_spec

abbrev as_workload_status : Cell → Option WorkloadStatusRow
as_workload_status (workload_status x) = some x
as_workload_status _ = none

abbrev workload_status_kind : Kind Cell (StoredWorkloadStatus outside)
workload_status_kind =
    kind_of workload_status as_workload_status workload_status_row of_workload_status_row
      (λ r. refl) (λ a. refl) zero_workload_status

abbrev as_workload : Cell → Option WorkloadRow
as_workload (workload x) = some x
as_workload _ = none

abbrev workload_kind : Kind Cell (StoredWorkload outside)
workload_kind =
    kind_of workload as_workload workload_row of_workload_row (λ r. refl) back_workload
      (of_workload_row
        ("", "", workload_spec_row zero_workload_spec, workload_status_row zero_workload_status))

abbrev as_workload_list : Cell → Option (String × String × Option Ptr)
as_workload_list (workload_list x) = some x
as_workload_list _ = none

abbrev workload_list_kind : Kind Cell (StoredWorkloadList outside)
workload_list_kind =
    kind_of workload_list as_workload_list (λ l. (l.type_meta, l.list_meta, l.items))
      (λ (a, b, c). record { type_meta = a; list_meta = b; items = c }) (λ r. refl) (λ a. refl)
      (record { type_meta = ""; list_meta = ""; items = none })

abbrev as_workloads : Cell → Option (List WorkloadRow)
as_workloads (workloads x) = some x
as_workloads _ = none

abbrev pub workloads_kind : Kind Cell (List (StoredWorkload outside))
workloads_kind =
    kind_of workloads as_workloads (map_rows workload_row) (map_rows of_workload_row) (λ r. refl)
      (map_rows_back workload_row of_workload_row back_workload) []

abbrev pub workload_cells : WorkloadCells outside
workload_cells = record {
  target_refs = target_ref_kind;
  bools = flag_kind;
  specs = workload_spec_kind;
  targets = target_kind;
  statuses = workload_status_kind;
  workloads = workload_kind;
  lists = workload_list_kind;
  target_arrays = targets_kind;
  condition_arrays = conditions_kind;
  workload_arrays = workloads_kind;
}
