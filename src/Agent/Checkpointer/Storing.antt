-- ===== src/Agent/Checkpointer/Storing.antt =====
-- `store` of internal/agent/checkpoint.go as a whole, from its last step.
use k8s_native_fast_gpu_chec.Prelude.{String, ◌<>◌, ◌≡◌, refl, true, List, [], ◌∷◌, arith}
use k8s_native_fast_gpu_chec.Effect.{Handler, World, perform, Event}
use k8s_native_fast_gpu_chec.Text.Trim.{trim_space}
use k8s_native_fast_gpu_chec.Text.FilePath.{join}
use k8s_native_fast_gpu_chec.Agent.Calls.{Op, Reply, now, mkdir_all}
use k8s_native_fast_gpu_chec.Agent.Libs.{Libs}
use k8s_native_fast_gpu_chec.Agent.Mounts.{ensure_real_mount, ensure_mounted}
use k8s_native_fast_gpu_chec.Agent.Storage.{
  Checkpointer, Target, first_non_empty, archive_name, mount_dir, mount_point, store_archive,
  store_simulated, store_to_dir, store_mounted, store_mount, store_nfs, store_host_path, store,
}
use k8s_native_fast_gpu_chec.Agent.Checkpointer.Quiet.{
  IsBlind, perform_quiet, ensure_real_mount_quiet, ensure_mounted_quiet,
}

module _ (L : Libs) (H : Handler Op Reply) (c : Checkpointer) {X : Type 0}
    (measure : List (Event Op Reply) → X) (blind : IsBlind measure) (x : X)
    (keeps_archive : (t : Target) (produced : List String) (dst : String) (w : World H)
      → measure w.trace ≡ x
      → measure (store_archive L H c t produced dst w).1.trace ≡ x)
    (keeps_simulated : (dst : String) (w : World H)
      → c.dry_run ≡ true
      → measure w.trace ≡ x
      → measure (store_simulated L H c dst w).1.trace ≡ x) where
  abbrev Holds : World H → Type 0
  Holds w = measure w.trace ≡ x

  store_to_dir_keeps :
      (t : Target) (produced : List String) (dir : String) (w : World H)
      → Holds w
      → Holds (store_to_dir L H c t produced dir w).1
  unfolding store_to_dir
  store_to_dir_keeps t produced dir w h =
      let w₁ = (perform H (mkdir_all dir 0o755) w).1 in
      let w₂ = (perform H now w₁).1 in
      let dst = join (dir ∷ archive_name t (perform H now w₁).0 ∷ []) in
      ground (
        arith,
        perform_quiet L H measure blind (mkdir_all dir 0o755) w refl,
        perform_quiet L H measure blind now w₁ refl,
        keeps_archive t produced dst w₂,
        keeps_simulated dst w₂,
      )

  store_mounted_keeps :
      (t : Target) (produced : List String) (fs_type source options subdir : String) (w : World H)
      → Holds w
      → Holds (store_mounted L H c t produced fs_type source options subdir w).1
  unfolding store_mounted
  store_mounted_keeps t produced fs_type source options subdir w h =
      let mnt = mount_point fs_type source in
      let w₁ = (ensure_mounted H fs_type source options mnt w).1 in
      ground (
        arith,
        ensure_mounted_quiet L H measure blind fs_type source options mnt w,
        store_to_dir_keeps t produced (mount_dir mnt subdir) w,
        store_to_dir_keeps t produced (mount_dir mnt subdir) w₁,
      )

  store_mount_keeps :
      (t : Target) (produced : List String) (fs_type source options subdir : String) (w : World H)
      → Holds w
      → Holds (store_mount L H c t produced fs_type source options subdir w).1
  unfolding store_mount
  store_mount_keeps t produced fs_type source options subdir w h = ground (
    arith,
    store_mounted_keeps t produced (trim_space fs_type) (trim_space source) options subdir w,
  )

  store_nfs_keeps :
      (t : Target) (produced : List String) (w : World H)
      → Holds w
      → Holds (store_nfs L H c t produced w).1
  unfolding store_nfs
  store_nfs_keeps t produced w h =
      let s = t.storage in
      ground (
        arith,
        store_mount_keeps t produced "nfs" (trim_space s.endpoint <> ":" <> trim_space s.path)
            (first_non_empty s.options "nfsvers=4,nolock") s.sub_path w,
      )

  store_host_path_keeps :
      (t : Target) (produced : List String) (w : World H)
      → Holds w
      → Holds (store_host_path L H c t produced w).1
  unfolding store_host_path
  store_host_path_keeps t produced w h =
      let w₁ = (ensure_real_mount H L t.storage.path w).1 in
      ground (
        arith,
        ensure_real_mount_quiet L H measure blind t.storage.path w,
        store_to_dir_keeps t produced t.storage.path w,
        store_to_dir_keeps t produced t.storage.path w₁,
      )

  pub store_keeps :
      (t : Target) (produced : List String) (w : World H)
      → Holds w
      → Holds (store L H c t produced w).1
  unfolding store
  store_keeps t produced w h =
      let s = t.storage in
      ground (
        arith,
        store_mount_keeps t produced s.fs_type s.source s.options
            (first_non_empty s.sub_path s.path) w,
        store_nfs_keeps t produced w,
        store_host_path_keeps t produced w,
      )
