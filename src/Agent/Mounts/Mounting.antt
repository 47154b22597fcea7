-- ===== src/Agent/Mounts/Mounting.antt =====
-- `ensureMounted`: what nil means, and when `mount` is called.
use k8s_native_fast_gpu_chec.Prelude.{
  ℕ, ◌+◌, ◌≤◌, String, ◌≡◌, refl, ◌≢◌, ◌&&◌, ◌||◌, Bool, if◌then◌else◌, Bool-cases, inl, inr, true,
  false, List, [], ◌∷◌, ok, ◌==◌, arith, eq_iff,
}
use k8s_native_fast_gpu_chec.Effect.{Handler, World, perform, Event}
use k8s_native_fast_gpu_chec.Agent.Calls.{Op, Reply, mkdir_all, scan_lines, mount}
use k8s_native_fast_gpu_chec.Agent.Mounts.{
  is_mountpoint_in, is_mountpoint, run_mount, mount_new, ensure_mounted,
}

-- The newest event is a scan of /proc/mounts that shows the mount point.
abbrev pub confirmed : String → List (Event Op Reply) → Bool
confirmed mnt [] = false
confirmed mnt ((scan_lines path, lines) ∷ es) = path == "/proc/mounts" && is_mountpoint_in mnt lines
confirmed mnt (_ ∷ es) = false

-- The number of `mount` commands.
abbrev is_mount : Op → ℕ
is_mount (mount args) = 1
is_mount _ = 0

abbrev pub mounts : List (Event Op Reply) → ℕ
mounts [] = 0
mounts ((o, r) ∷ es) = is_mount o + mounts es

module _ (H : Handler Op Reply) where
  confirmed-is_mountpoint :
      (mnt : String) (w : World H)
      → confirmed mnt (is_mountpoint H mnt w).1.trace ≡ (is_mountpoint H mnt w).0
  unfolding is_mountpoint perform
  confirmed-is_mountpoint mnt w = refl

  confirmed-mount_new :
      (fs_type source options mnt : String) (w : World H)
      → (mount_new H fs_type source options mnt w).0 ≡ ok tt
      → confirmed mnt (mount_new H fs_type source options mnt w).1.trace ≡ true
  unfolding mount_new
  confirmed-mount_new fs_type source options mnt w h =
      let w₁ = (perform H (mkdir_all mnt 0o755) w).1 in
      let w₂ = (run_mount H fs_type source options mnt w₁).1 in
      ground (arith, confirmed-is_mountpoint mnt w₂)

  -- When `ensureMounted` returns nil, its last call was a scan of /proc/mounts that showed the mount
  -- point, both when it was mounted before and when a `mount` had to be run.
  pub confirmed-ensure_mounted :
      (fs_type source options mnt : String) (w : World H)
      → (ensure_mounted H fs_type source options mnt w).0 ≡ ok tt
      → confirmed mnt (ensure_mounted H fs_type source options mnt w).1.trace ≡ true
  unfolding ensure_mounted
  confirmed-ensure_mounted fs_type source options mnt w h = ground (
    arith,
    confirmed-is_mountpoint mnt w,
    confirmed-mount_new fs_type source options mnt (is_mountpoint H mnt w).1,
  )

  mounts-run_mount :
      (fs_type source options mnt : String) (w : World H)
      → let w' = (run_mount H fs_type source options mnt w).1 in
        (mounts w'.trace ≤ mounts w.trace + 2)
        × (fs_type ≢ "nfs" → fs_type ≢ "nfs4" → mounts w'.trace ≡ mounts w.trace + 1)
  unfolding run_mount perform
  mounts-run_mount fs_type source options mnt w =
      ground (arith, eq_iff fs_type "nfs", eq_iff fs_type "nfs4")

  mounts-is_mountpoint :
      (mnt : String) (w : World H) → mounts (is_mountpoint H mnt w).1.trace ≡ mounts w.trace
  unfolding is_mountpoint perform
  mounts-is_mountpoint mnt w = omega arith

  mounts-mkdir :
      (mnt : String) (w : World H)
      → mounts (perform H (mkdir_all mnt 0o755) w).1.trace ≡ mounts w.trace
  unfolding perform
  mounts-mkdir mnt w = omega arith

  mounts-mount_new :
      (fs_type source options mnt : String) (w : World H)
      → let w' = (mount_new H fs_type source options mnt w).1 in
        (mounts w'.trace ≤ mounts w.trace + 2)
        × (fs_type ≢ "nfs" → fs_type ≢ "nfs4" → mounts w'.trace ≤ mounts w.trace + 1)
  unfolding mount_new
  mounts-mount_new fs_type source options mnt w =
      let w₁ = (perform H (mkdir_all mnt 0o755) w).1 in
      let w₂ = (run_mount H fs_type source options mnt w₁).1 in
      let (a, b) = mounts-run_mount fs_type source options mnt w₁ in
      (
        ground (arith, mounts-mkdir mnt w, mounts-is_mountpoint mnt w₂),
        λ p q. let c = b p q in ground (arith, mounts-mkdir mnt w, mounts-is_mountpoint mnt w₂),
      )

  -- `ensureMounted` runs no `mount` where the mount point is already mounted, else at most two for
  -- nfs and nfs4, and at most one for any other file system type.
  pub mounts-ensure_mounted :
      (fs_type source options mnt : String) (w : World H)
      → mounts (ensure_mounted H fs_type source options mnt w).1.trace
        ≤ mounts w.trace
          + (if (is_mountpoint H mnt w).0
              then 0
              else if fs_type == "nfs" || fs_type == "nfs4"
              then 2
              else 1)
  unfolding ensure_mounted
  mounts-ensure_mounted fs_type source options mnt w =
      let w₁ = (is_mountpoint H mnt w).1 in
      let (a, b) = mounts-mount_new fs_type source options mnt w₁ in
      let s = mounts-is_mountpoint mnt w in
      elim (Bool-cases (fs_type == "nfs" || fs_type == "nfs4")) [
        | inl nfs ↦ ground arith
        | inr no_nfs ↦ let c = b (λ e. is_nfs e no_nfs) (λ e. is_nfs4 e no_nfs) in ground arith
      ]
    where
      is_nfs : fs_type ≡ "nfs" → (fs_type == "nfs" || fs_type == "nfs4") ≡ false → ⊥
      is_nfs e n = ground (arith, eq_iff fs_type "nfs")

      is_nfs4 : fs_type ≡ "nfs4" → (fs_type == "nfs" || fs_type == "nfs4") ≡ false → ⊥
      is_nfs4 e n = ground (arith, eq_iff fs_type "nfs4")
