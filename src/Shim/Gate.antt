-- ===== src/Shim/Gate.antt =====
-- interceptor/preload.c: the gate is up while a buffer is frozen, for every driver, and a thread passes
-- its test only when none is.
pub mod Reachable
use k8s_native_fast_gpu_chec.Prelude.{
  ℕ, String, ◌<>◌, Bool, true, false, ◌&&◌, ◌||◌, not, List, [], ◌∷◌, ◌++◌, Option, none, some, ◌≡◌,
  refl, sym, ap, ◌∙◌, ◌⊎◌, inl, inr, All, All-append, length, ltb, nat_eq, if◌then◌else◌,
  Bool-cases, arith, ℤ,
}
use mathlib.Core.Path.{subst}
use k8s_native_fast_gpu_chec.Effect.{Handler, World, M, pure, ◌>>=◌, ◌>>◌, perform}
use k8s_native_fast_gpu_chec.Shim.Calls.{
  Op, Reply, freeze, ftruncate, mmap, make_dir, open_blob, munmap, set_device, device_sync,
}
use k8s_native_fast_gpu_chec.Shim.Registry.{push_within, retire, gcr_max_vmm}
use k8s_native_fast_gpu_chec.Shim.Owned.{
  Owned, call_if, gcr_vmm_alloc, gcr_vmm_free, free_found, find_owned, owned_at, kill_owned,
  new_owned,
}
use k8s_native_fast_gpu_chec.Shim.Owned.Ledger.{Settled, gcr_vmm_alloc_balanced}
use k8s_native_fast_gpu_chec.Shim.Engine.{
  Engine, thaw, checkpoint_freeze, freeze_buffers, freeze_into, freeze_mapped, freeze_resolved,
  restore_remap, remap_buffers, remap_resolved, gcr_stage_init, assign_offsets, blob_map,
  blob_close, blob_open, blob_resize, blob_unmap, blob_flush, holds, pin_stages, pipe_ready,
  copy_out, release_all,
}
use k8s_native_fast_gpu_chec.Shim.Copying.{pipe_copy}
use k8s_native_fast_gpu_chec.Shim.Offload.Quiet.{if_either}
use k8s_native_fast_gpu_chec.Shim.Unchanged.{
  Like, gcr_stage_init-Like, blob_map-Like, blob_close-Like,
}
use k8s_native_fast_gpu_chec.Shim.Watcher.{
  Process, Paths, gcr_gate_set, gcr_gate_passes, serve, serve_checkpoint, serve_restore,
  gated_remap, watcher_round, has_buffers, read_signal, is_signal, gcr_ckpt, gcr_restore,
}

abbrev pub NoneFrozen : List Owned → Type 0
NoneFrozen = All (λ (o : Owned). o.frozen ≡ false)

-- The gate is up, or no buffer is frozen.
abbrev pub Gated : Engine → Type 0
Gated e = (e.gate ≡ true) ⊎ NoneFrozen e.owned

thaw-NoneFrozen : (os : List Owned) → NoneFrozen (thaw os)
unfolding thaw
thaw-NoneFrozen [] = tt
thaw-NoneFrozen (o ∷ os) = (refl, thaw-NoneFrozen os)

module _ (H : Handler Op Reply) (has : String → Bool) (data_dir : String) where
  -- What a step says of its answer's gate.
  abbrev GateIs : Bool → Engine × World H → Type 0
  GateIs g (e, w) = e.gate ≡ g

  Gated-Like : (e e' : Engine) → Like H has data_dir e e' → Gated e → Gated e'
  Gated-Like e e' (g, o) (inl up) = inl (g ∙ up)
  Gated-Like e e' (g, o) (inr free) = inr (subst NoneFrozen (sym o) free)

  freeze_mapped-gate :
      (e : Engine) (w : World H) → (freeze_mapped H has data_dir e w).0.gate ≡ e.gate
  unfolding freeze_mapped
  freeze_mapped-gate e w =
      let (r, w₁) = pipe_copy H has freeze (pipe_ready e) e.owned w in
      let w₂ = (copy_out H has data_dir r e.owned w₁).1 in
      let (owned, w₃) = release_all H has data_dir e.owned w₂ in
      (blob_close-Like H has data_dir (record e { owned = owned }) w₃).0

  freeze_into-gate :
      (total : ℕ) (e : Engine) (w : World H)
      → (freeze_into H has data_dir total e w).0.gate ≡ e.gate
  unfolding freeze_into
  freeze_into-gate total e w =
      let r = blob_map H has data_dir total e w in
      let kept = (blob_map-Like H has data_dir total e w).0 in
      if_either (GateIs e.gate) r.0.0 _ _ r.1 (freeze_mapped-gate r.0.1 r.1 ∙ kept) kept

  -- Whatever fails, a freeze that found its functions leaves the gate up.
  freeze_buffers-gate :
      (e : Engine) (w : World H) → (freeze_buffers H has data_dir e w).0.gate ≡ true
  unfolding freeze_buffers
  freeze_buffers-gate e w =
      let w₁ = (call_if H has "cudaSetDevice" (set_device 0) w).1 in
      let w₂ = (call_if H has "cudaDeviceSynchronize" device_sync w₁).1 in
      let (owned, total) = assign_offsets e.owned 0 in
      if_either (GateIs true) (nat_eq total 0) _ _ w₂ refl
        (freeze_into-gate total (record e { gate = true; owned = owned; in_remap = true }) w₂)

  checkpoint_freeze-Gated :
      (e : Engine) (w : World H) → Gated e → Gated (checkpoint_freeze H has data_dir e w).0
  unfolding checkpoint_freeze
  checkpoint_freeze-Gated e w h =
      let r = gcr_stage_init H has data_dir e w in
      if_either (λ t. Gated t.0) (freeze_resolved H has data_dir) _ _ r.1
        (inl (freeze_buffers-gate r.0 r.1))
        (Gated-Like e r.0 (gcr_stage_init-Like H has data_dir e w) h)

  pub restore_remap-NoneFrozen :
      (e : Engine) (w : World H)
      → remap_resolved H has data_dir ≡ true
      → NoneFrozen (restore_remap H has data_dir e w).0.owned
  unfolding restore_remap remap_buffers
  restore_remap-NoneFrozen e w h = rw h (thaw-NoneFrozen _)

module _ (H : Handler Op Reply) (has : String → Bool) (paths : Paths) where
  abbrev ProcessGated : Process × World H → Type 0
  ProcessGated (p, w) = Gated p.engine

  abbrev EngineGated : Engine × World H → Type 0
  EngineGated (e, w) = Gated e

  serve-Gated :
      (sig : ℤ) (p : Process) (w : World H)
      → remap_resolved H has paths.data_dir ≡ true
      → Gated p.engine
      → Gated (serve H has paths sig p w).0.engine
  unfolding serve serve_checkpoint serve_restore gated_remap gcr_gate_set
  serve-Gated sig p w resolved h =
      let b = has_buffers H p w in
      if_either ProcessGated (is_signal gcr_ckpt sig) _ _ w
        (if_either EngineGated b.0 _ _ b.1
          (checkpoint_freeze-Gated H has paths.data_dir p.engine b.1 h) h)
        (if_either ProcessGated (is_signal gcr_restore sig) _ _ w
          (if_either EngineGated b.0 _ _ b.1
            (inr (restore_remap-NoneFrozen H has paths.data_dir _ _ resolved)) h)
          h)

  pub watcher_round-Gated :
      (p : Process) (w : World H)
      → remap_resolved H has paths.data_dir ≡ true
      → Gated p.engine
      → Gated (watcher_round H has paths p w).0.engine
  unfolding watcher_round
  watcher_round-Gated p w resolved h =
      let r = read_signal H paths.ctrl w in serve-Gated r.0 p r.1 resolved h
