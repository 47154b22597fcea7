-- ===== src/Orchestrator/Naming.antt =====
-- The names and paths that the orchestrator makes: `childName`, `joinPath` and `perPodStorage`.
pub mod Distinct
pub mod Lengths
pub mod Destination
use Prim.Native.String.{slice}
use k8s_native_fast_gpu_chec.Prelude.{ℕ, String, ◌<>◌, len, Bool, ◌||◌, leb, ◌==◌, if◌then◌else◌}
use k8s_native_fast_gpu_chec.Api.{StorageSpec, storage_mount, storage_nfs, storage_pvc, storage_s3}
use k8s_native_fast_gpu_chec.Text.Trim.{trim_right, is_slash, is_empty}

abbrev pub max_name : ℕ
max_name = 253

abbrev pub base_name : String → String → String
base_name parent pod = parent <> "-" <> pod

-- `childName`, over the hexadecimal SHA-1.
unfoldable pub child_name : (String → String) → String → String → String
child_name sha1_hex parent pod =
    let base = base_name parent pod in
    if leb (len base) max_name then base else parent <> "-" <> slice (sha1_hex pod) 0 12

-- `joinPath`
unfoldable pub join_path : String → String → String
join_path base leaf =
    let trimmed = trim_right is_slash base in
    if is_empty trimmed then leaf else trimmed <> "/" <> leaf

-- The storage types whose destination is under `SubPath`.
unfoldable pub uses_sub_path : String → Bool
uses_sub_path type =
    type == storage_mount || type == storage_nfs || type == storage_pvc || type == storage_s3

-- `perPodStorage`
unfoldable pub per_pod_storage : StorageSpec → String → StorageSpec
unfolding join_path uses_sub_path
per_pod_storage s pod =
    if uses_sub_path s.type
    then record s { sub_path = join_path s.sub_path pod }
    else record s { path = join_path s.path pod }
