-- ===== src/Tests/MemoryWorld.antt =====
-- A memory for the deep copies, in which the types of k8s.io/apimachinery are small: metadata and
-- conditions are texts, and times and selectors lie in cells of their own.
use k8s_native_fast_gpu_chec.Prelude.{
  ℕ, ℤ, String, Bool, false, length, ◌-◌, ◌≡◌, refl, ap, ◌∙◌, Option, none, some, List, [], ◌∷◌,
  nat_eq, if◌then◌else◌,
}
use k8s_native_fast_gpu_chec.Api.{WorkloadRef, StorageSpec, GpuCheckpointSpec}
use k8s_native_fast_gpu_chec.Api.Workload.{WorkloadTargetRef, TargetStatus}
use k8s_native_fast_gpu_chec.Copies.{Ptr, Heap, Kind}
use k8s_native_fast_gpu_chec.Copies.Outside.{Outside}
use k8s_native_fast_gpu_chec.Copies.Layouts.{flat}
use k8s_native_fast_gpu_chec.Copies.Values.{value}
use k8s_native_fast_gpu_chec.Copies.Checkpoints.{
  StoredStatus, StoredCheckpoint, StoredCheckpointList, CheckpointCells,
}

-- The fields of the stored structs, as tuples.
abbrev StatusRow : Type 0
StatusRow = String × String × Option Ptr × ℕ × String × String × Option Ptr

abbrev pub CheckpointRow : Type 0
CheckpointRow = String × String × GpuCheckpointSpec × StatusRow

abbrev pub WorkloadSpecRow : Type 0
WorkloadSpecRow =
    WorkloadTargetRef × String × StorageSpec × Option Ptr × String × String × Bool × Option Ptr × ℤ

abbrev pub WorkloadStatusRow : Type 0
WorkloadStatusRow =
    String × String × ℕ × ℕ × ℕ × ℕ × Option Ptr × Option Ptr × Option Ptr × String × Option Ptr

abbrev pub WorkloadRow : Type 0
WorkloadRow = String × String × WorkloadSpecRow × WorkloadStatusRow

pub data Cell : Type 0 where
  instant : ℕ → Cell
  selector_text : String → Cell
  flag : Bool → Cell
  ref : WorkloadRef → Cell
  storage : StorageSpec → Cell
  spec : GpuCheckpointSpec → Cell
  status : StatusRow → Cell
  checkpoint : CheckpointRow → Cell
  checkpoint_list : (String × String × Option Ptr) → Cell
  conditions : List String → Cell
  checkpoints : List CheckpointRow → Cell
  target_ref : WorkloadTargetRef → Cell
  target : TargetStatus → Cell
  targets : List TargetStatus → Cell
  workload_spec : WorkloadSpecRow → Cell
  workload_status : WorkloadStatusRow → Cell
  workload : WorkloadRow → Cell
  workload_list : (String × String × Option Ptr) → Cell
  workloads : List WorkloadRow → Cell

-- Cells of a type `R`, which stand for an `A`.
module _ {A R : Type 0} (make : R → Cell) (read : Cell → Option R) (row : A → R)
    (of_row : R → A) where
  abbrev pub read_as : Option R → Option A
  read_as none = none
  read_as (some r) = some (of_row r)

  abbrev pub kind_of :
      ((r : R) → read (make r) ≡ some r) → ((a : A) → of_row (row a) ≡ a) → A → Kind Cell A
  kind_of reads back zero_value = record {
    wrap = λ a. make (row a);
    unwrap = λ c. read_as (read c);
    unwrap-wrap = λ a. ap read_as (reads (row a)) ∙ ap some (back a);
    zero_value = zero_value;
  }

abbrev as_instant : Cell → Option ℕ
as_instant (instant x) = some x
as_instant _ = none

abbrev as_selector : Cell → Option String
as_selector (selector_text x) = some x
as_selector _ = none

abbrev pub instants : Kind Cell ℕ
instants = kind_of instant as_instant (λ x. x) (λ x. x) (λ r. refl) (λ a. refl) 0

abbrev pub selectors : Kind Cell String
selectors = kind_of selector_text as_selector (λ x. x) (λ x. x) (λ r. refl) (λ a. refl) ""

abbrev pub outside : Outside Cell
outside = record {
  TypeMeta = String;
  ObjectMeta = String;
  object_meta = flat String;
  ListMeta = String;
  list_meta = flat String;
  TimePointer = Ptr;
  time = value instants;
  Condition = String;
  condition = flat String;
  zero_condition = "";
  SelectorPointer = Ptr;
  selector = value selectors;
}

abbrev status_row : StoredStatus outside → StatusRow
status_row s = (
  s.phase, s.observed_node, s.last_checkpoint_time, s.checkpoint_count, s.last_checkpoint_path,
  s.message, s.conditions,
)

abbrev of_status_row : StatusRow → StoredStatus outside
of_status_row (a, b, c, d, e, f, g) = record {
  phase = a;
  observed_node = b;
  last_checkpoint_time = c;
  checkpoint_count = d;
  last_checkpoint_path = e;
  message = f;
  conditions = g;
}

abbrev checkpoint_row : StoredCheckpoint outside → CheckpointRow
checkpoint_row c = (c.type_meta, c.object_meta, c.spec, status_row c.status)

abbrev pub of_checkpoint_row : CheckpointRow → StoredCheckpoint outside
of_checkpoint_row (a, b, c, d) = record {
  type_meta = a;
  object_meta = b;
  spec = c;
  status = of_status_row d;
}

pub back_checkpoint : (c : StoredCheckpoint outside) → of_checkpoint_row (checkpoint_row c) ≡ c
back_checkpoint c = refl

abbrev pub map_rows : {A B : Type 0} → (A → B) → List A → List B
map_rows f [] = []
map_rows f (x ∷ xs) = f x ∷ map_rows f xs

pub map_rows_back :
    {A R : Type 0} (row : A → R) (of_row : R → A)
    → ((a : A) → of_row (row a) ≡ a)
    → (xs : List A) → map_rows of_row (map_rows row xs) ≡ xs
map_rows_back row of_row back [] = refl
map_rows_back row of_row back (x ∷ xs) = rw (back x, map_rows_back row of_row back xs) refl

abbrev zero_ref : WorkloadRef
zero_ref = record { kind = ""; namespace = ""; name = ""; container = ""; node_info = "" }

abbrev pub zero_storage : StorageSpec
zero_storage = record {
  type = "";
  path = "";
  endpoint = "";
  fs_type = "";
  source = "";
  options = "";
  sub_path = "";
  claim_name = "";
}

abbrev pub zero_spec : GpuCheckpointSpec
zero_spec = record {
  workload_ref = zero_ref;
  storage = zero_storage;
  schedule = "";
  incremental = false;
}

abbrev zero_status : StoredStatus outside
zero_status = of_status_row ("", "", none, 0, "", "", none)

abbrev as_ref : Cell → Option WorkloadRef
as_ref (ref x) = some x
as_ref _ = none

abbrev ref_kind : Kind Cell WorkloadRef
ref_kind = kind_of ref as_ref (λ x. x) (λ x. x) (λ r. refl) (λ a. refl) zero_ref

abbrev as_storage : Cell → Option StorageSpec
as_storage (storage x) = some x
as_storage _ = none

abbrev storage_kind : Kind Cell StorageSpec
storage_kind = kind_of storage as_storage (λ x. x) (λ x. x) (λ r. refl) (λ a. refl) zero_storage

abbrev as_spec : Cell → Option GpuCheckpointSpec
as_spec (spec x) = some x
as_spec _ = none

abbrev spec_kind : Kind Cell GpuCheckpointSpec
spec_kind = kind_of spec as_spec (λ x. x) (λ x. x) (λ r. refl) (λ a. refl) zero_spec

abbrev as_status : Cell → Option StatusRow
as_status (status x) = some x
as_status _ = none

abbrev status_kind : Kind Cell (StoredStatus outside)
status_kind = kind_of status as_status status_row of_status_row (λ r. refl) (λ a. refl) zero_status

abbrev as_checkpoint : Cell → Option CheckpointRow
as_checkpoint (checkpoint x) = some x
as_checkpoint _ = none

abbrev checkpoint_kind : Kind Cell (StoredCheckpoint outside)
checkpoint_kind =
    kind_of checkpoint as_checkpoint checkpoint_row of_checkpoint_row (λ r. refl) back_checkpoint
      (of_checkpoint_row ("", "", zero_spec, status_row zero_status))

abbrev as_checkpoint_list : Cell → Option (String × String × Option Ptr)
as_checkpoint_list (checkpoint_list x) = some x
as_checkpoint_list _ = none

abbrev checkpoint_list_kind : Kind Cell (StoredCheckpointList outside)
checkpoint_list_kind =
    kind_of checkpoint_list as_checkpoint_list (λ l. (l.type_meta, l.list_meta, l.items))
      (λ (a, b, c). record { type_meta = a; list_meta = b; items = c }) (λ r. refl) (λ a. refl)
      (record { type_meta = ""; list_meta = ""; items = none })

abbrev as_conditions : Cell → Option (List String)
as_conditions (conditions x) = some x
as_conditions _ = none

abbrev pub conditions_kind : Kind Cell (List String)
conditions_kind = kind_of conditions as_conditions (λ x. x) (λ x. x) (λ r. refl) (λ a. refl) []

abbrev as_checkpoints : Cell → Option (List CheckpointRow)
as_checkpoints (checkpoints x) = some x
as_checkpoints _ = none

abbrev pub checkpoints_kind : Kind Cell (List (StoredCheckpoint outside))
checkpoints_kind =
    kind_of checkpoints as_checkpoints (map_rows checkpoint_row) (map_rows of_checkpoint_row)
      (λ r. refl) (map_rows_back checkpoint_row of_checkpoint_row back_checkpoint) []

abbrev pub checkpoint_cells : CheckpointCells outside
checkpoint_cells = record {
  workload_refs = ref_kind;
  storages = storage_kind;
  specs = spec_kind;
  statuses = status_kind;
  checkpoints = checkpoint_kind;
  lists = checkpoint_list_kind;
  condition_arrays = conditions_kind;
  checkpoint_arrays = checkpoints_kind;
}

-- Memory with the given cells, from address 0 on.
abbrev cell_at : List Cell → Ptr → Option Cell
cell_at [] p = none
cell_at (c ∷ cs) p = if nat_eq p 0 then some c else cell_at cs (p - 1)

abbrev pub memory : List Cell → Heap Cell
memory cs = record { next = length cs; cell = cell_at cs }
