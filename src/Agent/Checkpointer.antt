-- ===== src/Agent/Checkpointer.antt =====
-- The pipeline of internal/agent/checkpoint.go. Log lines and the timers that only feed them are
-- left out.
pub mod Quiet
pub mod Storing
pub mod Resuming
pub mod Keeping
use k8s_native_fast_gpu_chec.Prelude.{
  ℕ, ◌/◌, String, ◌<>◌, Bool, true, ◌&&◌, ◌||◌, List, [], ◌∷◌, ok, err, ltb, sub_ℕ, ◌==◌,
  if◌then◌else◌,
}
use k8s_native_fast_gpu_chec.Effect.{Handler, World, perform}
use k8s_native_fast_gpu_chec.Effect.Fallible.{
  E, ◌>>=◌, ◌>>◌, check, attempt, lift, done, fail, same,
}
use k8s_native_fast_gpu_chec.Api.{
  Time, StorageSpec, storage_host_path, storage_mount, storage_nfs, storage_pvc, storage_s3,
}
use k8s_native_fast_gpu_chec.Text.Trim.{trim, trim_space, trim_suffix, is_slash, is_empty}
use k8s_native_fast_gpu_chec.Text.Decimal.{print_ℤ}
use k8s_native_fast_gpu_chec.Text.FilePath.{join}
use k8s_native_fast_gpu_chec.Agent.Calls.{Op, Reply, now, mkdir_all, write_file, stat_size, remove}
use k8s_native_fast_gpu_chec.Agent.Libs.{Libs}
use k8s_native_fast_gpu_chec.Agent.Interceptor.{
  InterceptorManager, gcr_signal_ckpt, gcr_signal_restore, signal, wait_for_ack, copy_file,
}
use k8s_native_fast_gpu_chec.Agent.Kubelet.{KubeletClient, kubelet_checkpoint}
use k8s_native_fast_gpu_chec.Agent.Mounts.{sanitize_mount, ensure_real_mount, ensure_mounted}
use k8s_native_fast_gpu_chec.Agent.Storage.{Checkpointer, Target, store}

-- `NewCheckpointer`
unfoldable pub new_checkpointer : InterceptorManager → KubeletClient → Bool → Checkpointer
new_checkpointer im kc dry_run = record {
  interceptor = im;
  kubelet = kc;
  gcr_interception = true;
  data_dir = "/var/lib/gcr-data";
  persist_blob = true;
  dry_run = dry_run;
}

-- `Result` of checkpoint.go.
pub record Artifact : Type 0 where
  pub archive_path : String
  pub taken_at : Time

-- `120 * time.Second`
abbrev pub ack_timeout : ℕ
ack_timeout = 120000000000

-- `simulatedArchive`
unfoldable pub simulated_archive : Target → String
simulated_archive t = join (
    "/var/lib/kubelet/checkpoints"
    ∷ ("checkpoint-" <> t.pod <> "_" <> t.namespace <> "-" <> t.container <> ".tar")
    ∷ [])

module _ (L : Libs) (H : Handler Op Reply) (c : Checkpointer) where
  -- Step 1 of `Checkpoint`: the data buffers are copied to the host.
  unfoldable pub freeze : Target → E (World H) (Unit {0})
  freeze t = do
    attempt (λ e. "signal data-buffer checkpoint: " <> e)
        (signal H c.interceptor t.pod_uid gcr_signal_ckpt)
    if c.dry_run
        then done tt
        else attempt (λ e. "data-buffer checkpoint did not ack: " <> e)
            (wait_for_ack H c.interceptor t.pod_uid ack_timeout)

  -- Step 2: the kubelet's checkpoint. After an error the data is remapped as far as possible.
  unfoldable pub dump : Target → E (World H) (List String)
  dump t w =
      let (r, w₁) = kubelet_checkpoint L H c.kubelet t.namespace t.pod t.container w in
      let (_, w₂) = signal H c.interceptor t.pod_uid gcr_signal_restore w₁ in
      if c.dry_run then (ok (simulated_archive t ∷ []), w) else elim r [
        | ok produced ↦ (ok produced, w₁)
        | err e ↦ (err ("kubelet CRIUgpu checkpoint: " <> e), if c.gcr_interception then w₂ else w₁)
      ]

  -- Step 3: the data is mapped back. Errors are only logged.
  unfoldable pub remap : Target → World H → World H
  remap t w =
      let (r, w₁) = signal H c.interceptor t.pod_uid gcr_signal_restore w in
      let (_, w₂) = wait_for_ack H c.interceptor t.pod_uid ack_timeout w₁ in
      elim r [ err e ↦ w₁ | ok u ↦ if c.dry_run then w₁ else w₂ ]

  -- `Checkpoint`
  unfoldable pub checkpoint : Target → E (World H) Artifact
  checkpoint t = do
    start ← lift (perform H now)
    if c.gcr_interception then freeze t else done tt
    produced ← dump t
    (λ w. (ok tt, if c.gcr_interception then remap t w else w))
    stored ←
        attempt (λ e. "store checkpoint (workload already resumed): " <> e) (store L H c t produced)
    done (record { archive_path = stored; taken_at = start })
