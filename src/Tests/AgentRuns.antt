-- ===== src/Tests/AgentRuns.antt =====
-- The theorems on the agent's pipeline, mounts and client, applied.
use k8s_native_fast_gpu_chec.Prelude.{
  ◌+◌, ◌≤◌, String, ◌<>◌, ◌≡◌, refl, sym, ◌≢◌, ◌⊎◌, inl, true, none, some, [], ◌∷◌, ok, err, All,
}
use k8s_native_fast_gpu_chec.Effect.{perform}
use k8s_native_fast_gpu_chec.Text.Trim.{fields}
use k8s_native_fast_gpu_chec.Text.Decimal.{print_ℕ}
use k8s_native_fast_gpu_chec.Text.FilePath.{clean}
use k8s_native_fast_gpu_chec.Agent.Interceptor.{
  control_path, signal, ack_loop, is_ack, wait_for_ack, gcr_signal_ckpt, gcr_signal_restore,
}
use k8s_native_fast_gpu_chec.Agent.Interceptor.Waiting.{Acknowledged, wait_for_ack_ends}
use k8s_native_fast_gpu_chec.Agent.Mounts.{
  unescape_mount, covers, is_mountpoint_in, check_real_mount, is_mountpoint, ensure_mounted, Best,
}
use k8s_native_fast_gpu_chec.Agent.Mounts.Escapes.{escape_mount, unescape-escape}
use k8s_native_fast_gpu_chec.Agent.Mounts.Covering.{Covers, OnlyOverlay, check_real_mount_refused}
use k8s_native_fast_gpu_chec.Agent.Mounts.Mounting.{confirmed, confirmed-ensure_mounted}
use k8s_native_fast_gpu_chec.Agent.Checkpointer.{freeze, checkpoint}
use k8s_native_fast_gpu_chec.Agent.Storage.{Target, store}
use k8s_native_fast_gpu_chec.Agent.Kubelet.Answers.{
  authorized, Answered, kubelet_checkpoint-Answered,
}
use k8s_native_fast_gpu_chec.Agent.Kubelet.{kubelet_checkpoint, read_response}
use k8s_native_fast_gpu_chec.Agent.Checkpointer.Resuming.{
  signal_path, last_write, IsWritable, checkpoint_resumes, checkpoint_left_frozen,
}
use k8s_native_fast_gpu_chec.Agent.Storage.Refusing.{is_err, store_refuses}
use k8s_native_fast_gpu_chec.Tests.AgentWorld.{
  kubelet, minute, libs, node, node-Clocked, interceptor, checkpointer, target, quick, stuck,
}

quick-IsWritable : IsWritable (node "0" 0 200) checkpointer.interceptor target.pod_uid
quick-IsWritable s = (refl, λ content. refl)

stuck-IsWritable : IsWritable (node "1" minute 200) checkpointer.interceptor target.pod_uid
stuck-IsWritable s = (refl, λ content. refl)

checkpoint_resumes_example :
    last_write
      (signal_path interceptor "u-1")
      (checkpoint libs (node "0" 0 200) checkpointer target quick).1.trace
    ≡ some (print_ℕ gcr_signal_restore)
unfolding freeze signal perform wait_for_ack ack_loop is_ack print_ℕ
checkpoint_resumes_example =
    checkpoint_resumes libs (node "0" 0 200) checkpointer target refl refl quick-IsWritable quick
      refl

abbrev timeout_text : String
unfolding control_path
timeout_text =
    "data-buffer checkpoint did not ack: "
    <> ("timeout waiting for GCR ack on " <> control_path interceptor "u-1")

checkpoint_left_frozen_example :
    ((checkpoint libs (node "1" minute 200) checkpointer target stuck).0 ≡ err timeout_text)
    × (last_write
          (signal_path interceptor "u-1")
          (checkpoint libs (node "1" minute 200) checkpointer target stuck).1.trace
        ≡ some (print_ℕ gcr_signal_ckpt))
unfolding freeze signal perform wait_for_ack ack_loop is_ack print_ℕ timeout_text control_path
checkpoint_left_frozen_example =
    checkpoint_left_frozen libs (node "1" minute 200) checkpointer target refl refl stuck-IsWritable
      stuck timeout_text refl

abbrev bucket : Target
bucket = record target { storage = record (target.storage) { type = "s3" } }

store_refuses_example :
    (is_err (store libs (node "0" 0 200) checkpointer bucket ("/a.tar" ∷ []) quick).0 ≡ true)
    × ((store libs (node "0" 0 200) checkpointer bucket ("/a.tar" ∷ []) quick).1 ≡ quick)
store_refuses_example =
    store_refuses libs (node "0" 0 200) checkpointer bucket ("/a.tar" ∷ []) quick refl

wait_for_ack_ends_example :
    let ctrl = control_path interceptor "u-1" in
    let (r, w') = wait_for_ack (node "1" minute 200) interceptor "u-1" minute stuck in
    ((r ≡ ok tt) × Acknowledged ctrl w'.trace)
    ⊎ ((r ≡ err ("timeout waiting for GCR ack on " <> ctrl)) × (stuck.state + minute ≤ w'.state))
wait_for_ack_ends_example =
    wait_for_ack_ends (node "1" minute 200) (node-Clocked "1" minute 200) interceptor "u-1" minute
      stuck

unescape-escape_example : unescape_mount (escape_mount "/mnt/my data") ≡ "/mnt/my data"
unescape-escape_example = unescape-escape "/mnt/my data"

abbrev share : Best
share = record { mountpoint = "/mnt/ckpt"; fs = "nfs4" }

abbrev root : Best
root = record { mountpoint = "/"; fs = "overlay" }

confirmed-ensure_mounted_example :
    confirmed "/mnt/ckpt"
      (ensure_mounted (node "0" 0 200) "nfs4" "server:/data" "" "/mnt/ckpt" quick).1.trace
    ≡ true
unfolding ensure_mounted is_mountpoint is_mountpoint_in perform fields clean
confirmed-ensure_mounted_example =
    confirmed-ensure_mounted (node "0" 0 200) "nfs4" "server:/data" "" "/mnt/ckpt" quick refl

root_only : All (OnlyOverlay (clean "/data")) ("overlay / overlay rw 0 0" ∷ [])
unfolding fields clean unescape_mount covers
root_only = (only, tt)
  where
    only :
        (e : Best)
        → Covers (clean "/data") e "overlay / overlay rw 0 0"
        → (e.mountpoint ≡ "/") × ((e.fs ≡ "overlay") ⊎ (e.fs ≡ "overlayfs"))
    only e (h, c) = let same : root ≡ e = cc h in rw (sym same) (refl, inl refl)

check_real_mount_refused_example :
    check_real_mount libs "/data" (ok ("overlay / overlay rw 0 0" ∷ [])) ≢ none
unfolding fields clean unescape_mount covers
check_real_mount_refused_example =
    check_real_mount_refused libs "/data" root ("overlay / overlay rw 0 0" ∷ []) root_only
      (inl (refl, inl refl))

kubelet_checkpoint-Answered_example :
    Answered libs
      (record {
        method = "POST";
        url = kubelet.base_url <> "/checkpoint/" <> "ml" <> "/" <> "train-0" <> "/" <> "main";
        headers = authorized kubelet.token;
      })
      ("/var/lib/kubelet/checkpoints/c.tar" ∷ [])
      (kubelet_checkpoint libs (node "0" 0 200) kubelet "ml" "train-0" "main" quick).1.trace
unfolding kubelet_checkpoint perform read_response
kubelet_checkpoint-Answered_example =
    kubelet_checkpoint-Answered libs (node "0" 0 200) kubelet "ml" "train-0" "main"
      ("/var/lib/kubelet/checkpoints/c.tar" ∷ []) quick refl
