-- ===== src/Shim/Watcher.antt =====
-- interceptor/preload.c: the control channel, the gate and the thread that serves signals. What is
-- written to standard error is left out. `snprintf n t` is what a buffer of `n` bytes holds of the text
-- `t`.
use Prim.Native.Char.{code}
use k8s_native_fast_gpu_chec.Prelude.{
  ℕ, zero, suc, ℤ, pos, negsuc, String, ◌<>◌, Bool, true, false, ◌&&◌, ◌||◌, not, List, [], ◌∷◌,
  Option, none, some, length, ltb, nat_eq, if◌then◌else◌,
}
use k8s_native_fast_gpu_chec.Effect.{Handler, World, M, pure, ◌>>=◌, ◌>>◌, perform}
use k8s_native_fast_gpu_chec.Text.Trim.{is_empty}
use k8s_native_fast_gpu_chec.Text.Decimal.{print_ℕ}
use k8s_native_fast_gpu_chec.Shim.Calls.{
  Op, Reply, getenv, fopen, fscanf, fprintf, fclose, getpid, usleep,
}
use k8s_native_fast_gpu_chec.Shim.Registry.{Alloc, Phys, Seg, live_allocs, live_segs}
use k8s_native_fast_gpu_chec.Shim.Engine.{Engine, checkpoint_freeze, restore_remap}

abbrev pub gcr_idle : ℕ
gcr_idle = 0

abbrev pub gcr_ckpt : ℕ
gcr_ckpt = 1

abbrev pub gcr_restore : ℕ
gcr_restore = 2

abbrev pub gcr_gating : ℕ
gcr_gating = 3

-- All tables of the process.
pub record Process : Type 0 where
  pub engine : Engine
  pub allocs : List Alloc
  pub phys : List Phys
  pub segs : List Seg

-- `g_ctrl_path`, `g_info_path` and `g_data_dir`
pub record Paths : Type 0 where
  pub ctrl : String
  pub info : String
  pub data_dir : String

-- `if (!x || !*x) x = default;`
abbrev pub or_default : String → Option String → String
or_default d none = d
or_default d (some x) = if is_empty x then d else x

-- `e && e[0] == '1'`
abbrev pub starts_with_1 : Option String → Bool
starts_with_1 none = false
starts_with_1 (some String.[]) = false
starts_with_1 (some (String.◌∷◌ c s)) = nat_eq (code c) b'1'

-- The number that a signal file holds, `-1` where there is none.
abbrev pub signal_of : Option ℤ → ℤ
signal_of none = negsuc 0
signal_of (some v) = v

abbrev pub is_signal : ℕ → ℤ → Bool
is_signal n (pos v) = nat_eq v n
is_signal n (negsuc v) = false

-- `gcr_gate_set`
unfoldable pub gcr_gate_set : Bool → Engine → Engine
gcr_gate_set on e = record e { gate = on }

-- Whether `gcr_gate_wait` lets a thread through now; otherwise the thread waits for the gate to open
-- and looks again. `in_remap` is the thread's own `g_in_remap`.
unfoldable pub gcr_gate_passes : Bool → Engine → Bool
gcr_gate_passes in_remap e = in_remap || not e.gate

-- `dump_intercepted_info`: what the file says.
unfoldable pub info_lines : ℕ → Process → List String
info_lines pid p =
    let (live, bytes) = live_allocs p.allocs in
    let (vlive, vbytes) = live_segs p.segs in
    ("# GCR intercepted (pid=" <> (print_ℕ pid <> ")\n"))
    ∷ ("legacy_live_buffers="
        <> (print_ℕ live <> (" legacy_live_bytes=" <> (print_ℕ bytes <> "\n"))))
    ∷ ("vmm_live_segments=" <> (print_ℕ vlive <> (" vmm_live_bytes=" <> (print_ℕ vbytes <> "\n"))))
    ∷ []

module _ (H : Handler Op Reply) where
  -- `build_paths`
  unfoldable pub build_paths : (ℕ → String → String) → M (World H) Paths
  build_paths snprintf = do
    c ← perform H (getenv "GCR_CONTROL_DIR")
    d ← perform H (getenv "GCR_DATA_DIR")
    u ← perform H (getenv "GCR_POD_UID")
    let cdir = or_default "/var/lib/gpu-cr/run" c
    let ddir = or_default cdir d
    let uid = or_default "default" u
    pure (record {
      ctrl = snprintf 1024 (cdir <> ("/" <> (uid <> "/control")));
      info = snprintf 1024 (cdir <> ("/" <> (uid <> "/intercepted-info")));
      data_dir = snprintf 1024 (ddir <> ("/" <> uid));
    })

  -- `read_signal`
  unfoldable pub read_signal : String → M (World H) ℤ
  read_signal path = do
    opened ← perform H (fopen path "r")
    let scanned = (do v ← perform H (fscanf path); perform H (fclose path); pure (signal_of v))
    if opened then scanned else pure (negsuc 0)

  -- `write_signal`
  unfoldable pub write_signal : String → ℕ → M (World H) (Unit {0})
  write_signal path v = do
    opened ← perform H (fopen path "w")
    let written = (do perform H (fprintf path (print_ℕ v)); perform H (fclose path))
    if opened then written else pure tt

  unfoldable pub write_lines : String → List String → M (World H) (Unit {0})
  write_lines path [] = pure tt
  write_lines path (l ∷ ls) = do perform H (fprintf path l); write_lines path ls

  -- `dump_intercepted_info`
  unfoldable pub dump_intercepted_info : String → Process → M (World H) (Unit {0})
  dump_intercepted_info path p = do
    opened ← perform H (fopen path "w")
    let written = (do
      pid ← perform H getpid
      write_lines path (info_lines pid p)
      perform H (fclose path))
    if opened then written else pure tt

  -- `gcr_vmm_enabled`
  unfoldable pub gcr_vmm_enabled : M (World H) Bool
  gcr_vmm_enabled = do e ← perform H (getenv "GCR_VMM_ALLOC"); pure (starts_with_1 e)

  -- `gcr_vmm_enabled() && gcr_owned_count() > 0`
  unfoldable pub has_buffers : Process → M (World H) Bool
  has_buffers p = do on ← gcr_vmm_enabled; pure (on && ltb 0 (length p.engine.owned))

module _ (H : Handler Op Reply) (has : String → Bool) (paths : Paths) where
  -- The branch of `GCR_CKPT`. `vmm_dump` only logs.
  unfoldable pub serve_checkpoint : Process → M (World H) Process
  serve_checkpoint p = do
    buffers ← has_buffers H p
    engine ← if buffers then checkpoint_freeze H has paths.data_dir p.engine else pure p.engine
    let p' = record p { engine = engine }
    dump_intercepted_info H paths.info p'
    write_signal H paths.ctrl gcr_idle
    pure p'

  -- The gate around `restore_remap`.
  unfoldable pub gated_remap : Engine → M (World H) Engine
  gated_remap e = do
    let up = gcr_gate_set true e
    write_signal H paths.ctrl gcr_gating
    e' ← restore_remap H has paths.data_dir up
    pure (gcr_gate_set false e')

  -- The branch of `GCR_RESTORE`.
  unfoldable pub serve_restore : Process → M (World H) Process
  serve_restore p = do
    buffers ← has_buffers H p
    engine ← if buffers then gated_remap p.engine else pure p.engine
    write_signal H paths.ctrl gcr_idle
    pure (record p { engine = engine })

  unfoldable pub serve : ℤ → Process → M (World H) Process
  serve sig p =
      if is_signal gcr_ckpt sig
      then serve_checkpoint p
      else if is_signal gcr_restore sig
      then serve_restore p
      else pure p

  -- One round of `watcher`.
  unfoldable pub watcher_round : Process → M (World H) Process
  watcher_round p = do
    sig ← read_signal H paths.ctrl
    p' ← serve sig p
    perform H (usleep 50000)
    pure p'

  -- `watcher`, for the first rounds of its loop, which has no end.
  unfoldable pub watcher : ℕ → Process → M (World H) Process
  watcher zero p = pure p
  watcher (suc rounds) p = do p' ← watcher_round p; watcher rounds p'
