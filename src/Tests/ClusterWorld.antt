-- ===== src/Tests/ClusterWorld.antt =====
-- A small cluster: an API server that keeps the children it is given, and a Deployment of two Pods.
use k8s_native_fast_gpu_chec.Prelude.{
  pos, ℤ, String, ◌<>◌, ◌≡◌, refl, Bool, true, false, ◌&&◌, Option, none, some, List, [], ◌∷◌, ok,
  ◌==◌, if◌then◌else◌, arith, eq_true,
}
use k8s_native_fast_gpu_chec.Effect.{Handler, World}
use k8s_native_fast_gpu_chec.Api.{
  StorageSpec, GpuCheckpoint, Pod, ApiResult, not_found, found, failed, phase_completed,
  phase_failed,
}
use k8s_native_fast_gpu_chec.Api.Workload.{
  WorkloadCheckpointStatus, action_checkpoint, action_restore, coordination_none,
}
use k8s_native_fast_gpu_chec.Orchestrator.Calls.{
  Kube, Op, Reply, now, get_workload, get_pod, get_deployment, get_replica_set, get_stateful_set,
  get_job, list_pods, get_child, create_child, list_children, update_status,
}
use k8s_native_fast_gpu_chec.Orchestrator.Pods.{Workload}
use k8s_native_fast_gpu_chec.Orchestrator.Children.Coverage.{Keeps, KeepsName}

-- Selectors match everything, and the digest is always the same one.
abbrev pub kube : Kube
kube = record {
  LabelSelector = Unit;
  Selector = Unit;
  as_selector = λ s. some tt;
  from_set = λ labels. tt;
  matches = λ s labels. true;
  sha1_hex = λ s. "da39a3ee5e6b4b0d3255bfef95601890afd80709";
  set_owner = λ wc c. ok c;
  quote = λ s. "\"" <> s <> "\"";
}

pub kube-KeepsName : KeepsName kube
kube-KeepsName wc c c' e = let same : c ≡ c' = cc e in rw same (refl, refl)

abbrev is_child : String → String → GpuCheckpoint → Bool
is_child ns name c = c.meta.namespace == ns && c.meta.name == name

abbrev find_child : String → String → List GpuCheckpoint → Option GpuCheckpoint
find_child ns name [] = none
find_child ns name (c ∷ cs) = if is_child ns name c then some c else find_child ns name cs

abbrev is_there : Option GpuCheckpoint → Bool
is_there none = false
is_there (some c) = true

abbrev as_answer : String → Option GpuCheckpoint → ApiResult GpuCheckpoint
as_answer name none = failed (not_found name)
as_answer name (some c) = found c

abbrev pub replica : String → Pod
replica name = record {
  meta = record { namespace = "ml"; name = name; labels = [] };
  uid = name <> "-uid";
  node_name = "node-a";
  phase = "Running";
  deletion_timestamp = none;
  containers = record { name = "main"; gpu_limit = some 1; gpu_request = none } ∷ [];
}

abbrev pub replicas : List Pod
replicas = replica "train-0" ∷ replica "train-1" ∷ []

abbrev answer : (o : Op kube) → List GpuCheckpoint → Reply kube o
answer now cs = 63000000000000000000
answer (get_workload ns name) cs = failed (not_found name)
answer (get_pod ns name) cs = failed (not_found name)
answer (get_deployment ns name) cs = found (some tt)
answer (get_replica_set ns name) cs = failed (not_found name)
answer (get_stateful_set ns name) cs = failed (not_found name)
answer (get_job ns name) cs = failed (not_found name)
answer (list_pods ns sel) cs = found replicas
answer (get_child ns name) cs = as_answer name (find_child ns name cs)
answer (create_child child) cs = none
answer (list_children ns labels) cs = found cs
answer (update_status wc) cs = found wc

abbrev step : Op kube → List GpuCheckpoint → List GpuCheckpoint
step (create_child child) cs = child ∷ cs
step _ cs = cs

abbrev pub cluster : Handler (Op kube) (Reply kube)
cluster = record { State = List GpuCheckpoint; handle = λ o cs. (answer o cs, step o cs) }

abbrev has : List GpuCheckpoint → String → String → Bool
has cs ns name = is_there (find_child ns name cs)

found_there :
    (name : String) (o : Option GpuCheckpoint) (c : GpuCheckpoint)
    → as_answer name o ≡ found c
    → is_there o ≡ true
found_there name none c e = cc
found_there name (some c') c e = refl

has_cons :
    (c : GpuCheckpoint) (cs : List GpuCheckpoint) (ns name : String)
    → has cs ns name ≡ true
    → has (c ∷ cs) ns name ≡ true
has_cons c cs ns name h = ground arith

has_head :
    (c : GpuCheckpoint) (cs : List GpuCheckpoint) → has (c ∷ cs) c.meta.namespace c.meta.name ≡ true
has_head c cs =
    rw (eq_true c.meta.namespace c.meta.namespace refl, eq_true c.meta.name c.meta.name refl) refl

pub cluster-Keeps : Keeps cluster
cluster-Keeps = record {
  has = has;
  has_get = λ ns name s c e. found_there name (find_child ns name s) c e;
  get_keeps = λ ns name s ns' name' h. h;
  has_create = λ c s e. has_head c s;
  create_keeps = λ c s ns' name' h. has_cons c s ns' name' h;
}

abbrev pub start : World cluster
start = record { state = []; trace = [] }

abbrev pub share : StorageSpec
share = record {
  type = "mount";
  path = "ckpt";
  endpoint = "";
  fs_type = "nfs";
  source = "server:/data";
  options = "";
  sub_path = "";
  claim_name = "";
}

abbrev pub fresh_status : WorkloadCheckpointStatus
fresh_status = record {
  phase = "";
  observed_workload_kind = "";
  total = 0;
  active = 0;
  completed = 0;
  failed = 0;
  targets = [];
  start_time = none;
  completion_time = none;
  message = "";
  conditions = [];
}

-- A workload checkpoint with this `maxConcurrent`.
abbrev pub workload : ℤ → Workload kube
workload max = record {
  meta = record { namespace = "ml"; name = "nightly"; labels = [] };
  spec = record {
    workload_ref = record { kind = "Deployment"; namespace = "ml"; name = "train"; container = "" };
    action = action_checkpoint;
    storage = share;
    pod_selector = none;
    coordination = coordination_none;
    schedule = "";
    incremental = false;
    require_gpu = none;
    max_concurrent = max;
  };
  status = fresh_status;
}

-- The same, to be restored.
abbrev pub restoring : Workload kube
restoring = record {
  meta = record { namespace = "ml"; name = "nightly"; labels = [] };
  spec = record ((workload (pos 0)).spec) { action = action_restore };
  status = fresh_status;
}

-- The child of a Pod in this phase.
abbrev pub child_in : String → String → GpuCheckpoint
child_in phase name = record {
  meta = record { namespace = "ml"; name = "nightly-" <> name; labels = [] };
  spec = record {
    workload_ref = record {
      kind = "Pod";
      namespace = "ml";
      name = name;
      container = "";
      node_info = "node-a";
    };
    storage = share;
    schedule = "";
    incremental = false;
  };
  status = record {
    phase = phase;
    observed_node = "node-a";
    last_checkpoint_time = none;
    checkpoint_count = 0;
    last_checkpoint_path = "";
    message = "";
    conditions = [];
  };
}

-- One child that is done and one that has failed.
abbrev pub mixed_children : List GpuCheckpoint
mixed_children = child_in phase_completed "train-0" ∷ child_in phase_failed "train-1" ∷ []
