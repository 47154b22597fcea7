-- ===== src/Tests/DiskRuns.antt =====
-- A disk on which a checkpoint archive and a data blob are stored.
use k8s_native_fast_gpu_chec.Prelude.{
  String, ◌≡◌, ◌≢◌, refl, ◌⊎◌, false, Option, none, some, [], ◌∷◌, ◌&&◌, ◌==◌, if◌then◌else◌, arith,
  eq_iff, eq_refl,
}
use k8s_native_fast_gpu_chec.Effect.{Handler, World, perform}
use k8s_native_fast_gpu_chec.Text.FilePath.{join, clean}
use k8s_native_fast_gpu_chec.Text.Decimal.{print_ℤ, print_ℕ}
use k8s_native_fast_gpu_chec.Text.Trim.{trim_suffix}
use k8s_native_fast_gpu_chec.Agent.Calls.{
  Op, Reply, stat_size, now, mkdir_all, open_write, io_copy, write_file, remove,
}
use k8s_native_fast_gpu_chec.Agent.Interceptor.{copy_file}
use k8s_native_fast_gpu_chec.Agent.Storage.{
  archive_name, store_to_dir, store_archive, persist, discard,
}
use k8s_native_fast_gpu_chec.Agent.Files.{Touches, Files, content}
use k8s_native_fast_gpu_chec.Agent.Storage.Content.{
  has_size, blob_source, blob_target, store_to_dir-content,
}
use k8s_native_fast_gpu_chec.Tests.AgentWorld.{libs, answer, checkpointer, target}

abbrev Disk : Type 0
Disk = String → Option String

abbrev put : String → Option String → Disk → Disk
put path c d q = if q == path then c else d q

abbrev disk_step : Op → Disk → Disk
disk_step (open_write path mode) d = put path (some "") d
disk_step (io_copy src dst) d = put dst (d src) d
disk_step (write_file path text mode) d = put path (some text) d
disk_step (remove path) d = put path none d
disk_step o d = d

abbrev disk : Handler Op Reply
disk = record {
  State = Disk;
  handle = λ o d. (answer "0" 0 200 o 63000000000000000000, disk_step o d);
}

put_other : (path p : String) (c : Option String) (d : Disk) → p ≢ path → put path c d p ≡ d p
put_other path p c d apart = ground (arith, eq_iff p path)

disk_keeps : (o : Op) (d : Disk) (p : String) → ¬ Touches o p → disk_step o d p ≡ d p
disk_keeps (open_write path mode) d p apart = put_other path p (some "") d apart
disk_keeps (io_copy src dst) d p apart = put_other dst p (d src) d apart
disk_keeps (write_file path text mode) d p apart = put_other path p (some text) d apart
disk_keeps (remove path) d p apart = put_other path p none d apart
disk_keeps o d p apart = refl

abbrev disk_files : Files disk
disk_files = record {
  file = λ d p. d p;
  copies = λ src dst d apart e. rw (eq_refl dst) refl;
  keeps = disk_keeps;
}

-- The kubelet's archive and the workload's data.
abbrev full : World disk
full = record {
  state =
      put "/var/lib/kubelet/checkpoints/c.tar" (some "archive")
        (put "/var/lib/gcr-data/u-1/data.blob" (some "data") (λ p. none));
  trace = [];
}

abbrev archive : String
archive = "/var/lib/kubelet/checkpoints/c.tar"

abbrev stored_at : String
stored_at = "/mnt/ckpt/checkpoint-train-0_ml-main-864403200.tar"

differ : (s t : String) → (s == t) ≡ false → s ≢ t
differ s t h e = ground (arith, eq_iff s t)

store_to_dir-content_example :
    let (at, w₂) = perform disk now (perform disk (mkdir_all "/mnt/ckpt" 0o755) full).1 in
    let size =
      (perform disk
        (stat_size (blob_source checkpointer target))
        (copy_file disk archive stored_at 0o644 w₂).1).0 in
    let w' = (store_to_dir libs disk checkpointer target (archive ∷ []) "/mnt/ckpt" full).1 in
    (stored_at ≡ stored_at)
    × (content disk disk_files w' stored_at ≡ content disk disk_files full archive)
    × (((checkpointer.gcr_interception && checkpointer.persist_blob) && has_size size ≡ false)
        ⊎ (content disk disk_files w' (blob_target stored_at)
            ≡ content disk disk_files full (blob_source checkpointer target)))
unfolding trim_suffix join clean store_archive copy_file persist discard perform store_to_dir
    archive_name print_ℤ print_ℕ
store_to_dir-content_example =
    store_to_dir-content libs disk disk_files checkpointer target archive [] "/mnt/ckpt" stored_at
      full refl (differ archive stored_at refl) (differ archive (blob_target stored_at) refl)
      (differ (blob_source checkpointer target) stored_at refl)
      (differ (blob_source checkpointer target) (blob_target stored_at) refl) refl
