-- ===== src/Agent/Interceptor.antt =====
-- internal/agent/interceptor.go
pub mod Waiting
use k8s_native_fast_gpu_chec.Prelude.{
  ℕ, zero, suc, ◌+◌, ◌/◌, String, ◌<>◌, Bool, false, ◌||◌, List, [], ◌∷◌, Result, ok, err, ltb,
  ◌==◌, if◌then◌else◌,
}
use k8s_native_fast_gpu_chec.Effect.{Handler, World, perform}
use k8s_native_fast_gpu_chec.Effect.Fallible.{E, ◌>>=◌, ◌>>◌, check, lift, done, same}
use k8s_native_fast_gpu_chec.Api.{Time}
use k8s_native_fast_gpu_chec.Text.Trim.{is_empty}
use k8s_native_fast_gpu_chec.Text.Decimal.{print_ℕ}
use k8s_native_fast_gpu_chec.Text.FilePath.{join}
use k8s_native_fast_gpu_chec.Agent.Calls.{
  Op, Reply, DirEntry, now, sleep, mkdir_all, write_file, read_file, read_dir, open_read,
  open_write, io_copy, chmod,
}

abbrev pub gcr_signal_idle : ℕ
gcr_signal_idle = 0

abbrev pub gcr_signal_ckpt : ℕ
gcr_signal_ckpt = 1

abbrev pub gcr_signal_restore : ℕ
gcr_signal_restore = 2

abbrev pub gcr_signal_init : ℕ
gcr_signal_init = 10

pub record InterceptorManager : Type 0 where
  pub dist_dir : String
  pub host_lib_dir : String
  pub host_run_dir : String

-- `<HostRunDir>/<key>/control`, as `WaitForAck` writes it.
unfoldable pub control_path : InterceptorManager → String → String
control_path m key = join (m.host_run_dir ∷ key ∷ "control" ∷ [])

-- The test of `WaitForAck` on what it read.
unfoldable pub is_ack : Result String → Bool
is_ack (err t) = false
is_ack (ok b) = is_empty b || b == print_ℕ gcr_signal_idle

-- How the loop of `WaitForAck` ends. `spent` is the end of the fuel, which the code does not have.
pub data Ack : Type 0 where
  acked timed_out spent : Ack

-- `50 * time.Millisecond`
abbrev pub poll_interval : ℕ
poll_interval = 50000000

-- One round for each poll that fits the timeout, and one for the last look at the clock.
abbrev pub ack_fuel : ℕ → ℕ
ack_fuel timeout = timeout / poll_interval + 2

module _ (H : Handler Op Reply) where
  -- `copyFile`
  unfoldable pub copy_file : String → String → ℕ → E (World H) (Unit {0})
  copy_file src dst mode = do
    check same (perform H (open_read src))
    check same (perform H (open_write dst mode))
    check same (perform H (io_copy src dst))
    check same (perform H (chmod dst mode))

  -- The loop of `Install` over the directory entries.
  unfoldable pub install_entries : InterceptorManager → List DirEntry → E (World H) (Unit {0})
  install_entries m [] w = (ok tt, w)
  install_entries m (e ∷ es) w =
      let src = join (m.dist_dir ∷ e.name ∷ []) in
      let dst = join (m.host_lib_dir ∷ e.name ∷ []) in
      let (r, w') = copy_file src dst 0o755 w in
      let skipped = install_entries m es w in
      let rest = install_entries m es w' in
      if e.is_dir
      then skipped
      else elim r [ ok _ ↦ rest | err t ↦ (err ("install " <> e.name <> ": " <> t), w') ]

  -- What `Install` does with the answer of `os.ReadDir`.
  unfoldable pub install_listed :
      InterceptorManager → Result (List DirEntry) → E (World H) (Unit {0})
  install_listed m (err t) = done tt
  install_listed m (ok entries) = install_entries m entries

  -- `Install`
  unfoldable pub install : InterceptorManager → E (World H) (Unit {0})
  install m = do
    check (λ t. "create host lib dir " <> m.host_lib_dir <> ": " <> t)
        (perform H (mkdir_all m.host_lib_dir 0o755))
    check (λ t. "create host run dir " <> m.host_run_dir <> ": " <> t)
        (perform H (mkdir_all m.host_run_dir 0o755))
    entries ← lift (perform H (read_dir m.dist_dir))
    install_listed m entries

  -- `Signal`
  unfoldable pub signal : InterceptorManager → String → ℕ → E (World H) (Unit {0})
  signal m key sig = do
    let dir = join (m.host_run_dir ∷ key ∷ [])
    let ctrl = join (dir ∷ "control" ∷ [])
    check (λ t. "create control dir " <> dir <> ": " <> t) (perform H (mkdir_all dir 0o755))
    check (λ t. "write control " <> ctrl <> ": " <> t)
        (perform H (write_file ctrl (print_ℕ sig) 0o644))

  -- The loop of `WaitForAck`.
  unfoldable pub ack_loop : ℕ → String → Time → World H → Ack × World H
  ack_loop zero ctrl deadline w = (spent, w)
  ack_loop (suc fuel) ctrl deadline w =
      let (t, w₁) = perform H now w in
      let (b, w₂) = perform H (read_file ctrl) w₁ in
      let (_, w₃) = perform H (sleep poll_interval) w₂ in
      let again = ack_loop fuel ctrl deadline w₃ in
      if ltb t deadline then (if is_ack b then (acked, w₂) else again) else (timed_out, w₁)

  abbrev pub ack_result : String → Ack → Result (Unit {0})
  ack_result ctrl acked = ok tt
  ack_result ctrl timed_out = err ("timeout waiting for GCR ack on " <> ctrl)
  ack_result ctrl spent = err "out of fuel"

  -- `WaitForAck`
  unfoldable pub wait_for_ack : InterceptorManager → String → ℕ → E (World H) (Unit {0})
  wait_for_ack m key timeout w =
      let ctrl = control_path m key in
      let (start, w₁) = perform H now w in
      let (a, w₂) = ack_loop (ack_fuel timeout) ctrl (start + timeout) w₁ in (ack_result ctrl a, w₂)
