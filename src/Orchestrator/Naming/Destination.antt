-- ===== src/Orchestrator/Naming/Destination.antt =====
-- Where the agent writes what the orchestrator asks for: `perPodStorage` of the orchestrator with
-- `store` of the agent.
use k8s_native_fast_gpu_chec.Prelude.{String, ◌≡◌, refl, false, eq_true}
use k8s_native_fast_gpu_chec.Api.{StorageSpec, storage_mount}
use k8s_native_fast_gpu_chec.Text.Trim.{trim_space, trim_right, is_empty}
use k8s_native_fast_gpu_chec.Agent.Storage.{first_non_empty}
use k8s_native_fast_gpu_chec.Orchestrator.Naming.{join_path, per_pod_storage}

-- The subdirectory that the agent's `store` gives to `storeMount` for a mount.
abbrev pub mount_subdir : StorageSpec → String
mount_subdir s = first_non_empty s.sub_path s.path

trim_space_empty : trim_space "" ≡ ""
unfolding trim_space
trim_space_empty = refl

join_path_empty : (leaf : String) → join_path "" leaf ≡ leaf
unfolding join_path trim_right
join_path_empty leaf = refl

-- A mount with a path and no subPath loses the path on the way through the orchestrator: written
-- directly, the agent stores under the path; for a child, it stores under the Pod's name alone.
pub mount_path_dropped :
    (s : StorageSpec) (pod : String)
    → s.type ≡ storage_mount
    → s.sub_path ≡ ""
    → is_empty (trim_space pod) ≡ false
    → (mount_subdir s ≡ s.path) × (mount_subdir (per_pod_storage s pod) ≡ pod)
unfolding first_non_empty per_pod_storage
mount_path_dropped s pod e f g = (
  rw (f, trim_space_empty) refl,
  rw (eq_true s.type storage_mount e) (rw (f, join_path_empty) (rw g refl)),
)
