-- ===== src/Agent/Storage.antt =====
-- `store` of internal/agent/checkpoint.go: the backends and where they put an archive.
pub mod Refusing
pub mod Content
use k8s_native_fast_gpu_chec.Prelude.{
  ◌/◌, String, ◌<>◌, Bool, ◌&&◌, ◌||◌, List, [], ◌∷◌, ok, err, ltb, sub_ℕ, ◌==◌, if◌then◌else◌,
}
use k8s_native_fast_gpu_chec.Effect.{Handler, World, perform}
use k8s_native_fast_gpu_chec.Effect.Fallible.{E, ◌>>=◌, ◌>>◌, check, lift, done, fail, same}
use k8s_native_fast_gpu_chec.Api.{
  Time, StorageSpec, storage_host_path, storage_mount, storage_nfs, storage_pvc, storage_s3,
}
use k8s_native_fast_gpu_chec.Text.Trim.{trim, trim_space, trim_suffix, is_slash, is_empty}
use k8s_native_fast_gpu_chec.Text.Decimal.{print_ℤ}
use k8s_native_fast_gpu_chec.Text.FilePath.{join}
use k8s_native_fast_gpu_chec.Agent.Calls.{Op, Reply, now, mkdir_all, write_file, stat_size, remove}
use k8s_native_fast_gpu_chec.Agent.Libs.{Libs}
use k8s_native_fast_gpu_chec.Agent.Interceptor.{InterceptorManager, copy_file}
use k8s_native_fast_gpu_chec.Agent.Kubelet.{KubeletClient}
use k8s_native_fast_gpu_chec.Agent.Mounts.{sanitize_mount, ensure_real_mount, ensure_mounted}

abbrev pub mount_base : String
mount_base = "/var/lib/gpu-cr/mnt"

pub record Checkpointer : Type 0 where
  pub interceptor : InterceptorManager
  pub kubelet : KubeletClient
  pub gcr_interception : Bool
  pub data_dir : String
  pub persist_blob : Bool
  pub dry_run : Bool

pub record Target : Type 0 where
  pub namespace : String
  pub pod : String
  pub pod_uid : String
  pub container : String
  pub storage : StorageSpec

-- `firstNonEmpty`
unfoldable pub first_non_empty : String → String → String
first_non_empty a b = if is_empty (trim_space a) then b else a

-- `t.Unix()`: seconds since 1970; the constant is the seconds from year 1 to 1970.
abbrev pub unix : Time → String
unix t = print_ℤ (sub_ℕ (t / 1000000000) 62135596800)

-- The file name that `storeToDir` gives the tar.
unfoldable pub archive_name : Target → Time → String
archive_name t at =
    "checkpoint-" <> t.pod <> "_" <> t.namespace <> "-" <> t.container <> "-" <> unix at <> ".tar"

-- The directory of `storeMount` under the mount point.
unfoldable pub mount_dir : String → String → String
mount_dir mnt subdir =
    let sp = trim is_slash (trim_space subdir) in if is_empty sp then mnt else join (mnt ∷ sp ∷ [])

-- Where `storeMount` mounts a source.
unfoldable pub mount_point : String → String → String
mount_point fs_type source = join (mount_base ∷ sanitize_mount (fs_type <> "_" <> source) ∷ [])

module _ (L : Libs) (H : Handler Op Reply) (c : Checkpointer) where
  -- The blob part of `storeToDir`.
  unfoldable pub persist : Target → String → E (World H) (Unit {0})
  persist t dst w =
      let src = join (c.data_dir ∷ t.pod_uid ∷ "data.blob" ∷ []) in
      let (size, w₁) = perform H (stat_size src) w in
      let (r, w₂) = copy_file H src (trim_suffix ".tar" dst <> ".blob") 0o644 w₁ in
      elim size [
        | err e ↦ (ok tt, w₁)
        | ok n ↦
            if ltb 0 n
            then elim r [
              | ok u ↦ (ok tt, w₂)
              | err e ↦ (err ("persist data blob " <> src <> ": " <> e), w₂)
            ]
            else (ok tt, w₁)
      ]

  -- The end of `storeToDir`: the node-local archive goes, and an error of that is only logged.
  unfoldable pub discard : String → String → E (World H) String
  discard local dst w =
      if local == dst then (ok dst, w) else (ok dst, (perform H (remove local) w).1)

  -- `storeToDir` outside a dry run.
  unfoldable pub store_archive : Target → List String → String → E (World H) String
  store_archive t [] dst = fail "kubelet produced no checkpoint archive"
  store_archive t (local ∷ more) dst = do
    copy_file H local dst 0o644
    if c.gcr_interception && c.persist_blob then persist t dst else done tt
    discard local dst

  unfoldable pub store_simulated : String → E (World H) String
  store_simulated dst = do
    check same (perform H (write_file dst "simulated-checkpoint" 0o644))
    done dst

  -- `storeToDir`
  unfoldable pub store_to_dir : Target → List String → String → E (World H) String
  store_to_dir t produced dir = do
    check same (perform H (mkdir_all dir 0o755))
    at ← lift (perform H now)
    let dst = join (dir ∷ archive_name t at ∷ [])
    if c.dry_run then store_simulated dst else store_archive t produced dst

  -- `storeMount`, once its arguments are trimmed and known not to be empty.
  unfoldable pub store_mounted :
      Target → List String → String → String → String → String → E (World H) String
  store_mounted t produced fs_type source options subdir = do
    let mnt = mount_point fs_type source
    if c.dry_run then done tt else (λ w.
        let (r, w') = ensure_mounted H fs_type source options mnt w in
        elim r [
          | ok u ↦ (ok tt, w')
          | err e ↦ (err ("mount " <> fs_type <> " " <> source <> " at " <> mnt <> ": " <> e), w')
        ])
    store_to_dir t produced (mount_dir mnt subdir)

  -- `storeMount`
  unfoldable pub store_mount :
      Target → List String → String → String → String → String → E (World H) String
  store_mount t produced fs_type source options subdir =
      let fs = trim_space fs_type in
      let src = trim_space source in
      if is_empty fs || is_empty src
      then fail (
          "mount storage requires storage.fsType and storage.source (got fsType="
          <> L.quote fs
          <> " source="
          <> L.quote src
          <> ")")
      else store_mounted t produced fs src options subdir

  -- The `nfs` case of `store`.
  unfoldable pub store_nfs : Target → List String → E (World H) String
  store_nfs t produced =
      let s = t.storage in
      let server = trim_space s.endpoint in
      let export = trim_space s.path in
      if is_empty server || is_empty export
      then fail "nfs storage requires storage.endpoint (server) and storage.path (export)"
      else store_mount t produced "nfs" (server <> ":" <> export)
          (first_non_empty s.options "nfsvers=4,nolock") s.sub_path

  -- The `hostPath` case of `store`.
  unfoldable pub store_host_path : Target → List String → E (World H) String
  store_host_path t produced = do
    if c.dry_run then done tt else ensure_real_mount H L t.storage.path
    store_to_dir t produced t.storage.path

  -- `store`
  unfoldable pub store : Target → List String → E (World H) String
  store t produced =
      let s = t.storage in
      if s.type == storage_mount
      then store_mount t produced s.fs_type s.source s.options (first_non_empty s.sub_path s.path)
      else if s.type == storage_nfs
      then store_nfs t produced
      else if s.type == storage_host_path || s.type == ""
      then store_host_path t produced
      else if s.type == storage_pvc
      then fail (
          "storage type pvc (CSI-backed: EBS, EFS, ...) needs the checkpoint mover, which is not yet enabled; "
          <> "for block storage use a PVC referenced as a DaemonSet volume, or use type: mount for file backends")
      else if s.type == storage_s3
      then fail (
          "storage type s3 not yet implemented (endpoint=" <> s.endpoint <> ", path=" <> s.path
          <> ")")
      else fail ("unknown storage type " <> L.quote s.type)
