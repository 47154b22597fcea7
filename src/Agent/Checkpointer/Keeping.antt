-- ===== src/Agent/Checkpointer/Keeping.antt =====
-- The removals and the copies of `Checkpoint` (internal/agent/checkpoint.go), on the list of its calls.
use k8s_native_fast_gpu_chec.Prelude.{
  ℕ, String, ◌<>◌, ◌≡◌, refl, Bool, true, false, ◌&&◌, ◌||◌, none, some, List, [], ◌∷◌, Result, ok,
  err, arith, ◌==◌, eq_refl, Bool-cases, inl, inr,
}
use k8s_native_fast_gpu_chec.Effect.{Handler, World, perform, Event}
use k8s_native_fast_gpu_chec.Text.FilePath.{join}
use k8s_native_fast_gpu_chec.Text.Trim.{trim_suffix}
use k8s_native_fast_gpu_chec.Agent.Calls.{
  Op, Reply, now, remove, open_read, open_write, io_copy, chmod, stat_size,
}
use k8s_native_fast_gpu_chec.Agent.Libs.{Libs}
use k8s_native_fast_gpu_chec.Agent.Interceptor.{
  gcr_signal_ckpt, gcr_signal_restore, InterceptorManager, signal, copy_file,
}
use k8s_native_fast_gpu_chec.Agent.Kubelet.{kubelet_checkpoint}
use k8s_native_fast_gpu_chec.Agent.Checkpointer.{ack_timeout, freeze, dump, remap, checkpoint}
use k8s_native_fast_gpu_chec.Agent.Storage.{
  Checkpointer, Target, persist, discard, store_archive, store_simulated, store,
}
use k8s_native_fast_gpu_chec.Agent.Checkpointer.Quiet.{
  IsBlind, perform_quiet, copy_file_quiet, wait_for_ack_quiet, kubelet_checkpoint_quiet,
  persist_quiet,
}
use k8s_native_fast_gpu_chec.Agent.Checkpointer.Storing.{store_keeps}

-- Whether a copy of this file has succeeded.
abbrev pub is_copied : String → List (Event Op Reply) → Bool
is_copied path [] = false
is_copied path ((io_copy src dst, none) ∷ es) = src == path || is_copied path es
is_copied path (_ ∷ es) = is_copied path es

-- Whether each file was removed only after a copy of it had succeeded.
abbrev pub removes_copied : List (Event Op Reply) → Bool
removes_copied [] = true
removes_copied ((remove path, r) ∷ es) = is_copied path es && removes_copied es
removes_copied (_ ∷ es) = removes_copied es

pub removes_copied-IsBlind : IsBlind removes_copied
removes_copied-IsBlind (remove path) r es q = cc
removes_copied-IsBlind _ r es q = refl

is_copied-keeps :
    (path : String) (o : Op) (r : Reply o) (es : List (Event Op Reply))
    → is_copied path es ≡ true
    → is_copied path ((o, r) ∷ es) ≡ true
is_copied-keeps path (io_copy src dst) none es h = ground arith
is_copied-keeps path (io_copy src dst) (some e) es h = h
is_copied-keeps path _ r es h = h

module _ (L : Libs) (H : Handler Op Reply) (c : Checkpointer) where
  perform_copied :
      (path : String) (o : Op) (w : World H)
      → is_copied path w.trace ≡ true
      → is_copied path (perform H o w).1.trace ≡ true
  unfolding perform
  perform_copied path o w h = is_copied-keeps path o (H.handle o w.state).0 w.trace h

  copy_file_copied :
      (path src dst : String) (mode : ℕ) (w : World H)
      → is_copied path w.trace ≡ true
      → is_copied path (copy_file H src dst mode w).1.trace ≡ true
  unfolding copy_file
  copy_file_copied path src dst mode w h =
      let w₁ = (perform H (open_read src) w).1 in
      let w₂ = (perform H (open_write dst mode) w₁).1 in
      let w₃ = (perform H (io_copy src dst) w₂).1 in
      ground (
        arith,
        perform_copied path (open_read src) w,
        perform_copied path (open_write dst mode) w₁,
        perform_copied path (io_copy src dst) w₂,
        perform_copied path (chmod dst mode) w₃,
      )

  persist_copied :
      (path : String) (t : Target) (dst : String) (w : World H)
      → is_copied path w.trace ≡ true
      → is_copied path (persist L H c t dst w).1.trace ≡ true
  unfolding persist
  persist_copied path t dst w h =
      let src = join (c.data_dir ∷ t.pod_uid ∷ "data.blob" ∷ []) in
      let w₁ = (perform H (stat_size src) w).1 in
      ground (
        arith,
        perform_copied path (stat_size src) w,
        copy_file_copied path src (trim_suffix ".tar" dst <> ".blob") 0o644 w₁,
      )

  io_copy_copied :
      (src dst : String) (w : World H)
      → (perform H (io_copy src dst) w).0 ≡ none
      → is_copied src (perform H (io_copy src dst) w).1.trace ≡ true
  unfolding perform
  io_copy_copied src dst w h = ground (arith, eq_refl src)

  -- A copy that returns nil has been made.
  copy_file_ok :
      (src dst : String) (mode : ℕ) (w : World H)
      → (copy_file H src dst mode w).0 ≡ ok tt
      → is_copied src (copy_file H src dst mode w).1.trace ≡ true
  unfolding copy_file
  copy_file_ok src dst mode w h =
      let w₁ = (perform H (open_read src) w).1 in
      let w₂ = (perform H (open_write dst mode) w₁).1 in
      let w₃ = (perform H (io_copy src dst) w₂).1 in
      ground (arith, io_copy_copied src dst w₂, perform_copied src (chmod dst mode) w₃)

  discard_safe :
      (local dst : String) (w : World H)
      → is_copied local w.trace ≡ true
      → removes_copied w.trace ≡ true
      → removes_copied (discard L H c local dst w).1.trace ≡ true
  unfolding discard perform
  discard_safe local dst w copied h = ground arith

  store_archive_safe :
      (t : Target) (produced : List String) (dst : String) (w : World H)
      → removes_copied w.trace ≡ true
      → removes_copied (store_archive L H c t produced dst w).1.trace ≡ true
  unfolding store_archive
  store_archive_safe t [] dst w h = h
  store_archive_safe t (local ∷ more) dst w h =
      let w₁ = (copy_file H local dst 0o644 w).1 in
      let w₂ = (persist L H c t dst w₁).1 in
      ground (
        arith,
        copy_file_quiet L H removes_copied removes_copied-IsBlind local dst 0o644 w,
        persist_quiet L H removes_copied removes_copied-IsBlind c t dst w₁,
        copy_file_ok local dst 0o644 w,
        persist_copied local t dst w₁,
        discard_safe local dst w₁,
        discard_safe local dst w₂,
      )

  store_simulated_safe :
      (dst : String) (w : World H)
      → removes_copied w.trace ≡ true
      → removes_copied (store_simulated L H c dst w).1.trace ≡ true
  unfolding store_simulated perform
  store_simulated_safe dst w h = ground arith

  signal_safe :
      (m : InterceptorManager) (key : String) (sig : ℕ) (w : World H)
      → removes_copied (signal H m key sig w).1.trace ≡ removes_copied w.trace
  unfolding signal perform
  signal_safe m key sig w = ground arith

  freeze_safe :
      (t : Target) (w : World H)
      → removes_copied (freeze L H c t w).1.trace ≡ removes_copied w.trace
  unfolding freeze
  freeze_safe t w =
      let m = c.interceptor in
      let w₁ = (signal H m t.pod_uid gcr_signal_ckpt w).1 in
      ground (
        arith,
        signal_safe m t.pod_uid gcr_signal_ckpt w,
        wait_for_ack_quiet L H removes_copied removes_copied-IsBlind m t.pod_uid ack_timeout w₁,
      )

  dump_safe :
      (t : Target) (w : World H) → removes_copied (dump L H c t w).1.trace ≡ removes_copied w.trace
  unfolding dump
  dump_safe t w =
      let k = c.kubelet in
      let w₁ = (kubelet_checkpoint L H k t.namespace t.pod t.container w).1 in
      ground (
        arith,
        kubelet_checkpoint_quiet L H removes_copied removes_copied-IsBlind k t.namespace t.pod
            t.container w,
        signal_safe c.interceptor t.pod_uid gcr_signal_restore w₁,
      )

  remap_safe :
      (t : Target) (w : World H) → removes_copied (remap L H c t w).trace ≡ removes_copied w.trace
  unfolding remap
  remap_safe t w =
      let m = c.interceptor in
      let w₁ = (signal H m t.pod_uid gcr_signal_restore w).1 in
      ground (
        arith,
        signal_safe m t.pod_uid gcr_signal_restore w,
        wait_for_ack_quiet L H removes_copied removes_copied-IsBlind m t.pod_uid ack_timeout w₁,
      )

  store_safe :
      (t : Target) (produced : List String) (w : World H)
      → removes_copied w.trace ≡ true
      → removes_copied (store L H c t produced w).1.trace ≡ true
  store_safe =
      store_keeps L H c removes_copied removes_copied-IsBlind true store_archive_safe
        (λ dst w dry. store_simulated_safe dst w)

  -- `Checkpoint` removes a file only after a copy of that file has succeeded: where this is so of
  -- every removal before the call, it is so after it, on every path through the pipeline.
  pub checkpoint-removes_copied :
      (t : Target) (w : World H)
      → removes_copied w.trace ≡ true
      → removes_copied (checkpoint L H c t w).1.trace ≡ true
  unfolding checkpoint
  checkpoint-removes_copied t w h = elim (Bool-cases c.gcr_interception) [
    | inl on ↦ intercepted (dump L H c t (freeze L H c t w₁).1).0 on refl
    | inr off ↦ direct (dump L H c t w₁).0 off refl
  ]
    where
      w₁ : World H
      w₁ = (perform H now w).1

      started : removes_copied w₁.trace ≡ removes_copied w.trace
      started = perform_quiet L H removes_copied removes_copied-IsBlind now w refl

      direct :
          (r : Result (List String))
          → c.gcr_interception ≡ false
          → (dump L H c t w₁).0 ≡ r
          → removes_copied (checkpoint L H c t w).1.trace ≡ true
      direct (err e) off d = let kept = dump_safe t w₁ in ground (arith, started)
      direct (ok produced) off d =
          let kept = dump_safe t w₁ in
          let stored = store_safe t produced (dump L H c t w₁).1 in ground (arith, started)

      intercepted :
          (r : Result (List String))
          → c.gcr_interception ≡ true
          → (dump L H c t (freeze L H c t w₁).1).0 ≡ r
          → removes_copied (checkpoint L H c t w).1.trace ≡ true
      intercepted (err e) on d =
          let frozen = freeze_safe t w₁ in
          let dumped = dump_safe t (freeze L H c t w₁).1 in ground (arith, started)
      intercepted (ok produced) on d =
          let frozen = freeze_safe t w₁ in
          let w₃ = (dump L H c t (freeze L H c t w₁).1).1 in
          let dumped = dump_safe t (freeze L H c t w₁).1 in
          let mapped = remap_safe t w₃ in
          let stored = store_safe t produced (remap L H c t w₃) in ground (arith, started)
