-- ===== src/Tests/ShimRuns.antt =====
-- The theorems on the in-Pod interceptor, applied to a process with two buffers.
use k8s_native_fast_gpu_chec.Prelude.{
  ℕ, String, Bool, true, false, List, [], ◌∷◌, Option, none, pos, ◌≡◌, refl, ◌⊎◌,
}
use k8s_native_fast_gpu_chec.Effect.{World, perform}
use k8s_native_fast_gpu_chec.Shim.Calls
use k8s_native_fast_gpu_chec.Shim.Calls.{freeze, remap}
use k8s_native_fast_gpu_chec.Shim.Registry.{
  Alloc, Seg, reg_add, reg_del, vmm_seg_add, vmm_seg_del, live_allocs, live_segs, zero_prop,
}
use k8s_native_fast_gpu_chec.Shim.Registry.Counting.{living, live_totals_restored}
use k8s_native_fast_gpu_chec.Shim.Owned.{
  Owned, gcr_vmm_alloc, gcr_vmm_free, alloc_created, alloc_reserved, alloc_mapped, alloc_accessed,
  alloc_resolved,
}
use k8s_native_fast_gpu_chec.Shim.Owned.Ledger.{Settled, ledger, gcr_vmm_alloc_balanced}
use k8s_native_fast_gpu_chec.Shim.Owned.Freeing.{gcr_vmm_free-gcr_vmm_alloc}
use k8s_native_fast_gpu_chec.Shim.Engine.{Engine, checkpoint_freeze, restore_remap, remap_resolved}
use k8s_native_fast_gpu_chec.Shim.Watcher.{
  Process, Paths, watcher_round, read_signal, gcr_gate_passes, has_buffers, gcr_vmm_enabled,
}
use k8s_native_fast_gpu_chec.Shim.Gate.{NoneFrozen}
use k8s_native_fast_gpu_chec.Shim.Serving.{
  Acked, is_served, watcher_round_answers, watcher_round_opens_gate,
}
use k8s_native_fast_gpu_chec.Tests.ShimWorld.{device, fresh}

abbrev buffer : ℕ → ℕ → Bool → Owned
buffer at size alive = record {
  va = at;
  padded = 2097152;
  req = size;
  handle = 5;
  prop = zero_prop;
  live = alive;
  blob_off = 0;
  frozen = false;
}

abbrev pub buffers : List Owned
buffers = buffer 4194304 300 true ∷ buffer 8388608 7 false ∷ buffer 8388608 5 true ∷ []

abbrev pub engine : Engine
engine = record {
  owned = buffers;
  gate = false;
  in_remap = false;
  blob = none;
  fd = false;
  stage_a = false;
  stage_b = false;
  async_on = false;
}

abbrev process : Process
process = record { engine = engine; allocs = []; phys = []; segs = [] }

abbrev pub found : String → Bool
found name = true

abbrev pub data_dir : String
data_dir = "/data/uid"

abbrev paths : Paths
paths = record {
  ctrl = "/run/uid/control";
  info = "/run/uid/intercepted-info";
  data_dir = data_dir;
}

abbrev frozen_run : Engine × World device
frozen_run = checkpoint_freeze device found data_dir engine fresh

-- The remap runs in a world whose blob is the one that the freeze left, on a device that was reset.
abbrev elsewhere : World device
elsewhere = record {
  state = record frozen_run.1.state {
    dev = λ x. 0;
    settled = λ s. true;
    covered = λ s. false;
    running = [];
  };
  trace = [];
}

abbrev remap_run : Engine × World device
remap_run = restore_remap device found data_dir frozen_run.0 elsewhere

-- A process that was captured with a frozen buffer, behind the gate.
abbrev captured : Process
captured = record process {
  engine = record engine {
    owned = record (buffer 4194304 300 true) { frozen = true } ∷ [];
    gate = true;
  };
}

-- One round that restores.
abbrev served : Process × World device
served = watcher_round device found paths captured fresh

watcher_round_answers_example :
    ((is_served device found paths (pos 2) ≡ true) × Acked paths.ctrl served.1.trace)
    ⊎ ((is_served device found paths (pos 2) ≡ false)
        × (served.0 ≡ captured)
        × (served.1
            ≡ (perform device (Calls.usleep 50000) (read_signal device paths.ctrl fresh).1).1))
unfolding read_signal perform
watcher_round_answers_example =
    watcher_round_answers device found paths captured fresh (λ path mode s. refl)

watcher_round_opens_gate_example :
    NoneFrozen served.0.engine.owned × (gcr_gate_passes false served.0.engine ≡ true)
unfolding read_signal has_buffers gcr_vmm_enabled remap_resolved perform
watcher_round_opens_gate_example =
    watcher_round_opens_gate device found paths captured fresh refl refl refl

-- A buffer of 300 bytes, allocated where none was.
abbrev allocated : (Option ℕ × List Owned) × World device
allocated = gcr_vmm_alloc device found 300 buffers fresh

gcr_vmm_alloc_balanced_example :
    Settled found 300
      (ledger fresh.trace)
      buffers
      allocated.0.0
      allocated.0.1
      (ledger allocated.1.trace)
gcr_vmm_alloc_balanced_example = gcr_vmm_alloc_balanced device found 300 buffers fresh

abbrev freed : (Bool × List Owned) × World device
freed = gcr_vmm_free device found 4096 allocated.0.1 allocated.1

gcr_vmm_free-gcr_vmm_alloc_example :
    (freed.0.0 ≡ true)
    × (living (λ (o : Owned). o.live) freed.0.1 ≡ living (λ (o : Owned). o.live) buffers)
    × (ledger freed.1.trace ≡ ledger fresh.trace)
unfolding gcr_vmm_alloc alloc_created alloc_reserved alloc_mapped alloc_accessed alloc_resolved
    perform
gcr_vmm_free-gcr_vmm_alloc_example =
    gcr_vmm_free-gcr_vmm_alloc device found 300 buffers fresh 4096 refl (refl, (refl, (refl, tt)))
      refl refl refl refl

abbrev some_allocs : List Alloc
some_allocs = record { ptr = 64; size = 10; live = true } ∷ []

abbrev some_segs : List Seg
some_segs = record { va = 128; size = 20; offset = 0; handle = 1; live = true } ∷ []

live_totals_restored_example :
    (live_allocs (reg_del 96 (reg_add 96 30 some_allocs)) ≡ live_allocs some_allocs)
    × (live_segs (vmm_seg_del 256 (vmm_seg_add 256 40 0 2 some_segs)) ≡ live_segs some_segs)
live_totals_restored_example =
    live_totals_restored 96 30 some_allocs 256 40 0 2 some_segs (refl, tt) (refl, tt)
