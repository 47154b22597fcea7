-- ===== src/Agent/Checkpointer/Resuming.antt =====
-- What `Checkpoint` (internal/agent/checkpoint.go) leaves in the control file of the workload.
use k8s_native_fast_gpu_chec.Prelude.{
  if◌then◌else◌, eq_refl, ◌==◌, ℕ, String, ◌≡◌, refl, true, false, Option, none, some, List, [],
  ◌∷◌, Result, ok, err, arith,
}
use k8s_native_fast_gpu_chec.Effect.{Handler, World, perform, Event}
use k8s_native_fast_gpu_chec.Text.Decimal.{print_ℕ}
use k8s_native_fast_gpu_chec.Text.FilePath.{join}
use k8s_native_fast_gpu_chec.Agent.Calls.{Op, Reply, now, mkdir_all, write_file}
use k8s_native_fast_gpu_chec.Agent.Libs.{Libs}
use k8s_native_fast_gpu_chec.Agent.Interceptor.{
  InterceptorManager, gcr_signal_ckpt, gcr_signal_restore, signal, copy_file,
}
use k8s_native_fast_gpu_chec.Agent.Kubelet.{kubelet_checkpoint}
use k8s_native_fast_gpu_chec.Agent.Checkpointer.{ack_timeout, freeze, dump, remap, checkpoint}
use k8s_native_fast_gpu_chec.Agent.Storage.{
  Checkpointer, Target, persist, discard, store_archive, store,
}
use k8s_native_fast_gpu_chec.Agent.Checkpointer.Quiet.{
  IsBlind, copy_file_quiet, wait_for_ack_quiet, persist_quiet,
}
use k8s_native_fast_gpu_chec.Agent.Checkpointer.Storing.{store_keeps}

-- What the newest successful `os.WriteFile` of a file wrote.
abbrev pub last_write : String → List (Event Op Reply) → Option String
last_write file [] = none
last_write file ((write_file path content mode, none) ∷ es) =
    if path == file then some content else last_write file es
last_write file (_ ∷ es) = last_write file es

last_write-IsBlind : (file : String) → IsBlind (last_write file)
last_write-IsBlind file (write_file path content mode) r es q = cc
last_write-IsBlind file _ r es q = refl

-- The control file that `Signal` writes.
abbrev pub signal_path : InterceptorManager → String → String
signal_path m key = join (join (m.host_run_dir ∷ key ∷ []) ∷ "control" ∷ [])

-- The directory and the file of the control channel can be made and written.
abbrev pub IsWritable : Handler Op Reply → InterceptorManager → String → Type 0
IsWritable H m key =
    (s : H.State)
    → let dir = join (m.host_run_dir ∷ key ∷ []) in
      ((H.handle (mkdir_all dir 0o755) s).0 ≡ none)
      × ((content : String)
          → (H.handle (write_file (join (dir ∷ "control" ∷ [])) content 0o644) s).0 ≡ none)

module _ (L : Libs) (H : Handler Op Reply) (c : Checkpointer) where
  signal-last_write :
      (m : InterceptorManager) (key : String) (sig : ℕ) (w : World H)
      → IsWritable H m key
      → ((signal H m key sig w).0 ≡ ok tt)
        × (last_write (signal_path m key) (signal H m key sig w).1.trace ≡ some (print_ℕ sig))
  unfolding signal perform
  signal-last_write m key sig w ready =
      let dir = join (m.host_run_dir ∷ key ∷ []) in
      let (made, _) = ready w.state in
      let (_, written) = ready (H.handle (mkdir_all dir 0o755) w.state).1 in
      ground (arith, written (print_ℕ sig), eq_refl (join (dir ∷ "control" ∷ [])))

  discard-last_write :
      (file local dst : String) (w : World H)
      → last_write file (discard L H c local dst w).1.trace ≡ last_write file w.trace
  unfolding discard perform
  discard-last_write file local dst w = ground arith

  store_archive-last_write :
      {x : Option String} (file : String) (t : Target) (produced : List String) (dst : String)
      (w : World H)
      → last_write file w.trace ≡ x
      → last_write file (store_archive L H c t produced dst w).1.trace ≡ x
  unfolding store_archive
  store_archive-last_write file t [] dst w h = h
  store_archive-last_write file t (local ∷ more) dst w h =
      let w₁ = (copy_file H local dst 0o644 w).1 in
      let w₂ = (persist L H c t dst w₁).1 in
      ground (
        arith,
        copy_file_quiet L H (last_write file) (last_write-IsBlind file) local dst 0o644 w,
        persist_quiet L H (last_write file) (last_write-IsBlind file) c t dst w₁,
        discard-last_write file local dst w₁,
        discard-last_write file local dst w₂,
      )

  module _ (t : Target) (gcr : c.gcr_interception ≡ true) (real : c.dry_run ≡ false)
      (ready : IsWritable H c.interceptor t.pod_uid) where
    freeze-last_write :
        (w : World H)
        → last_write (signal_path c.interceptor t.pod_uid) (freeze L H c t w).1.trace
          ≡ some (print_ℕ gcr_signal_ckpt)
    unfolding freeze
    freeze-last_write w =
        let w₁ = (signal H c.interceptor t.pod_uid gcr_signal_ckpt w).1 in
        let (sent, kept) = signal-last_write c.interceptor t.pod_uid gcr_signal_ckpt w ready in
        ground (
          arith,
          wait_for_ack_quiet L H (last_write (signal_path c.interceptor t.pod_uid))
              (last_write-IsBlind (signal_path c.interceptor t.pod_uid)) c.interceptor t.pod_uid
              ack_timeout w₁,
        )

    -- After a failed dump the restore signal is sent.
    dump-last_write :
        (w : World H) (e : String)
        → (dump L H c t w).0 ≡ err e
        → last_write (signal_path c.interceptor t.pod_uid) (dump L H c t w).1.trace
          ≡ some (print_ℕ gcr_signal_restore)
    unfolding dump
    dump-last_write w e h =
        let w₁ = (kubelet_checkpoint L H c.kubelet t.namespace t.pod t.container w).1 in
        let (_, kept) = signal-last_write c.interceptor t.pod_uid gcr_signal_restore w₁ ready in
        ground arith

    remap-last_write :
        (w : World H)
        → last_write (signal_path c.interceptor t.pod_uid) (remap L H c t w).trace
          ≡ some (print_ℕ gcr_signal_restore)
    unfolding remap
    remap-last_write w =
        let w₁ = (signal H c.interceptor t.pod_uid gcr_signal_restore w).1 in
        let (sent, kept) = signal-last_write c.interceptor t.pod_uid gcr_signal_restore w ready in
        ground (
          arith,
          wait_for_ack_quiet L H (last_write (signal_path c.interceptor t.pod_uid))
              (last_write-IsBlind (signal_path c.interceptor t.pod_uid)) c.interceptor t.pod_uid
              ack_timeout w₁,
        )

    store-last_write :
        (produced : List String) (w : World H)
        → last_write (signal_path c.interceptor t.pod_uid) w.trace
          ≡ some (print_ℕ gcr_signal_restore)
        → last_write (signal_path c.interceptor t.pod_uid) (store L H c t produced w).1.trace
          ≡ some (print_ℕ gcr_signal_restore)
    store-last_write produced w h =
        store_keeps L H c (last_write (signal_path c.interceptor t.pod_uid))
          (last_write-IsBlind (signal_path c.interceptor t.pod_uid))
          (some (print_ℕ gcr_signal_restore))
          (λ t' produced' dst w'.
            store_archive-last_write (signal_path c.interceptor t.pod_uid) t' produced' dst w')
          (λ dst w' dry. absurd (clash dry)) t produced w h
      where
        clash : c.dry_run ≡ true → ⊥
        clash dry = cc

    -- With interception on, outside a dry run, and with a control channel that can be written: once
    -- the data is frozen, the last that `Checkpoint` leaves written in the Pod's control file is the
    -- restore signal, whether the kubelet's checkpoint, the remap's acknowledgement or the store fails
    -- or not.
    pub checkpoint_resumes :
        (w : World H)
        → (freeze L H c t (perform H now w).1).0 ≡ ok tt
        → last_write (signal_path c.interceptor t.pod_uid) (checkpoint L H c t w).1.trace
          ≡ some (print_ℕ gcr_signal_restore)
    unfolding checkpoint
    checkpoint_resumes w f = by_dump (dump L H c t w₂).0 refl
      where
        w₂ : World H
        w₂ = (freeze L H c t (perform H now w).1).1

        by_dump :
            (r : Result (List String))
            → (dump L H c t w₂).0 ≡ r
            → last_write (signal_path c.interceptor t.pod_uid) (checkpoint L H c t w).1.trace
              ≡ some (print_ℕ gcr_signal_restore)
        by_dump (err e) d = let kept = dump-last_write w₂ e d in ground arith
        by_dump (ok produced) d =
            let w₃ = (dump L H c t w₂).1 in
            let kept = store-last_write produced (remap L H c t w₃) (remap-last_write w₃) in
            ground arith

    -- With interception on, outside a dry run, and with a control channel that can be written: if
    -- freezing fails, `Checkpoint` returns that error, and the last that it leaves written in the Pod's
    -- control file is still the checkpoint signal: no restore signal follows it.
    pub checkpoint_left_frozen :
        (w : World H) (e : String)
        → (freeze L H c t (perform H now w).1).0 ≡ err e
        → ((checkpoint L H c t w).0 ≡ err e)
          × (last_write (signal_path c.interceptor t.pod_uid) (checkpoint L H c t w).1.trace
              ≡ some (print_ℕ gcr_signal_ckpt))
    unfolding checkpoint
    checkpoint_left_frozen w e f =
        let kept = freeze-last_write (perform H now w).1 in (ground arith, ground arith)
