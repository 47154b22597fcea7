-- ===== src/Agent/Checkpointer/Quiet.antt =====
-- The parts of internal/agent/checkpoint.go, interceptor.go and kubelet.go that neither write a whole
-- file nor remove one.
use k8s_native_fast_gpu_chec.Prelude.{
  ℕ, zero, suc, String, ◌≡◌, refl, ◌∙◌, Bool, true, false, List, [], ◌∷◌, arith, ◌<>◌,
}
use k8s_native_fast_gpu_chec.Effect.{Handler, World, perform, Event}
use k8s_native_fast_gpu_chec.Agent.Calls.{
  Op, Reply, now, sleep, mkdir_all, write_file, read_file, stat_size, remove, open_read, open_write,
  io_copy, chmod, scan_lines, mount, new_request, http_do, HttpRequest,
}
use k8s_native_fast_gpu_chec.Agent.Libs.{Libs}
use k8s_native_fast_gpu_chec.Agent.Interceptor.{
  InterceptorManager, ack_loop, poll_interval, wait_for_ack, copy_file,
}
use k8s_native_fast_gpu_chec.Agent.Kubelet.{
  KubeletClient, kubelet_checkpoint, checkpoint_url, headers,
}
use k8s_native_fast_gpu_chec.Agent.Mounts.{
  is_mountpoint, ensure_real_mount, run_mount, mount_new, ensure_mounted, mount_args,
}
use k8s_native_fast_gpu_chec.Text.FilePath.{join}
use k8s_native_fast_gpu_chec.Text.Trim.{trim_suffix}
use k8s_native_fast_gpu_chec.Agent.Storage.{Checkpointer, Target, persist}

abbrev pub is_quiet : Op → Bool
is_quiet (write_file path content mode) = false
is_quiet (remove path) = false
is_quiet _ = true

-- A measure of the events that such events do not change.
abbrev pub IsBlind : {X : Type 0} → (List (Event Op Reply) → X) → Type 0
IsBlind measure =
    (o : Op) (r : Reply o) (es : List (Event Op Reply))
    → is_quiet o ≡ true
    → measure ((o, r) ∷ es) ≡ measure es

module _ (L : Libs) (H : Handler Op Reply) {X : Type 0} (measure : List (Event Op Reply) → X)
    (blind : IsBlind measure) where
  abbrev at : World H → X
  at w = measure w.trace

  pub perform_quiet : (o : Op) (w : World H) → is_quiet o ≡ true → at (perform H o w).1 ≡ at w
  unfolding perform
  perform_quiet o w q = blind o (H.handle o w.state).0 w.trace q

  pub copy_file_quiet :
      (src dst : String) (mode : ℕ) (w : World H) → at (copy_file H src dst mode w).1 ≡ at w
  unfolding copy_file
  copy_file_quiet src dst mode w =
      let w₁ = (perform H (open_read src) w).1 in
      let w₂ = (perform H (open_write dst mode) w₁).1 in
      let w₃ = (perform H (io_copy src dst) w₂).1 in
      ground (
        arith,
        perform_quiet (open_read src) w refl,
        perform_quiet (open_write dst mode) w₁ refl,
        perform_quiet (io_copy src dst) w₂ refl,
        perform_quiet (chmod dst mode) w₃ refl,
      )

  pub ack_loop_quiet :
      (fuel : ℕ) (ctrl : String) (deadline : ℕ) (w : World H)
      → at (ack_loop H fuel ctrl deadline w).1 ≡ at w
  unfolding ack_loop
  ack_loop_quiet zero ctrl deadline w = refl
  ack_loop_quiet (suc fuel) ctrl deadline w =
      let w₁ = (perform H now w).1 in
      let w₂ = (perform H (read_file ctrl) w₁).1 in
      let w₃ = (perform H (sleep poll_interval) w₂).1 in
      ground (
        arith,
        perform_quiet now w refl,
        perform_quiet (read_file ctrl) w₁ refl,
        perform_quiet (sleep poll_interval) w₂ refl,
        ack_loop_quiet fuel ctrl deadline w₃,
      )

  pub wait_for_ack_quiet :
      (m : InterceptorManager) (key : String) (timeout : ℕ) (w : World H)
      → at (wait_for_ack H m key timeout w).1 ≡ at w
  unfolding wait_for_ack
  wait_for_ack_quiet m key timeout w =
      ack_loop_quiet _ _ _ (perform H now w).1 ∙ perform_quiet now w refl

  pub kubelet_checkpoint_quiet :
      (k : KubeletClient) (namespace pod container : String) (w : World H)
      → at (kubelet_checkpoint L H k namespace pod container w).1 ≡ at w
  unfolding kubelet_checkpoint
  kubelet_checkpoint_quiet k namespace pod container w =
      let url = checkpoint_url k namespace pod container in
      let w₁ = (perform H (new_request url) w).1 in
      let req : HttpRequest = record { method = "POST"; url = url; headers = headers k.token } in
      ground (arith, perform_quiet (new_request url) w refl, perform_quiet (http_do req) w₁ refl)

  pub is_mountpoint_quiet : (mnt : String) (w : World H) → at (is_mountpoint H mnt w).1 ≡ at w
  unfolding is_mountpoint
  is_mountpoint_quiet mnt w = perform_quiet (scan_lines "/proc/mounts") w refl

  pub ensure_real_mount_quiet :
      (path : String) (w : World H) → at (ensure_real_mount H L path w).1 ≡ at w
  unfolding ensure_real_mount
  ensure_real_mount_quiet path w = perform_quiet (scan_lines "/proc/mounts") w refl

  run_mount_quiet :
      (fs_type source options mnt : String) (w : World H)
      → at (run_mount H fs_type source options mnt w).1 ≡ at w
  unfolding run_mount
  run_mount_quiet fs_type source options mnt w =
      let first = mount (mount_args fs_type source options mnt) in
      let w₁ = (perform H first w).1 in
      ground (
        arith,
        perform_quiet first w refl,
        perform_quiet (mount ("-t" ∷ fs_type ∷ source ∷ mnt ∷ [])) w₁ refl,
      )

  mount_new_quiet :
      (fs_type source options mnt : String) (w : World H)
      → at (mount_new H fs_type source options mnt w).1 ≡ at w
  unfolding mount_new
  mount_new_quiet fs_type source options mnt w =
      let w₁ = (perform H (mkdir_all mnt 0o755) w).1 in
      let w₂ = (run_mount H fs_type source options mnt w₁).1 in
      ground (
        arith,
        perform_quiet (mkdir_all mnt 0o755) w refl,
        run_mount_quiet fs_type source options mnt w₁,
        is_mountpoint_quiet mnt w₂,
      )

  pub ensure_mounted_quiet :
      (fs_type source options mnt : String) (w : World H)
      → at (ensure_mounted H fs_type source options mnt w).1 ≡ at w
  unfolding ensure_mounted
  ensure_mounted_quiet fs_type source options mnt w =
      let w₁ = (is_mountpoint H mnt w).1 in
      ground (arith, is_mountpoint_quiet mnt w, mount_new_quiet fs_type source options mnt w₁)

  pub persist_quiet :
      (c : Checkpointer) (t : Target) (dst : String) (w : World H)
      → at (persist L H c t dst w).1 ≡ at w
  unfolding persist
  persist_quiet c t dst w =
      let src = join (c.data_dir ∷ t.pod_uid ∷ "data.blob" ∷ []) in
      let w₁ = (perform H (stat_size src) w).1 in
      ground (
        arith,
        perform_quiet (stat_size src) w refl,
        copy_file_quiet src (trim_suffix ".tar" dst <> ".blob") 0o644 w₁,
      )
