-- ===== src/Shim/Offload/Losing.antt =====
-- interceptor/preload.c: a freeze does not look at what became of its copies.
use k8s_native_fast_gpu_chec.Prelude.{ℕ, ◌+◌, String, Bool, true, false, ◌≡◌, ap, ◌∙◌, nat_eq}
use k8s_native_fast_gpu_chec.Effect.{Handler, World}
use k8s_native_fast_gpu_chec.Shim.Calls.{Op, Reply, freeze, set_device, device_sync}
use k8s_native_fast_gpu_chec.Shim.Owned.{call_if}
use k8s_native_fast_gpu_chec.Shim.Copying.{pipe_copy}
use k8s_native_fast_gpu_chec.Shim.Engine.{
  Engine, assign_offsets, release_all, copy_out, freeze_mapped, freeze_into, freeze_buffers,
  freeze_resolved, checkpoint_freeze, gcr_stage_init, blob_map, pipe_ready,
}
use k8s_native_fast_gpu_chec.Shim.Unchanged.{gcr_stage_init-Like, blob_map-Like, blob_close-Like}
use k8s_native_fast_gpu_chec.Shim.Offload.Places.{froze, needed, Fits, assign_offsets-total}
use k8s_native_fast_gpu_chec.Shim.Offload.Releasing.{
  release_list, release_list-froze, release_all-list,
}

module _ (H : Handler Op Reply) (has : String → Bool) (data_dir : String) where
  freeze_mapped-list :
      (e : Engine) (w : World H) → (freeze_mapped H has data_dir e w).0.owned ≡ release_list e.owned
  unfolding freeze_mapped
  freeze_mapped-list e w =
      let (r, w₁) = pipe_copy H has freeze (pipe_ready e) e.owned w in
      let w₂ = (copy_out H has data_dir r e.owned w₁).1 in
      let (list, w₃) = release_all H has data_dir e.owned w₂ in
      (blob_close-Like H has data_dir (record e { owned = list }) w₃).1
      ∙ release_all-list H has data_dir e.owned w₂

  -- The blob can be mapped.
  abbrev pub Maps : Type 0
  Maps = (need : ℕ) (e : Engine) (w : World H) → (blob_map H has data_dir need e w).0.0 ≡ true

  freeze_into-list :
      (total : ℕ) (e : Engine) (w : World H)
      → Maps
      → (freeze_into H has data_dir total e w).0.owned ≡ release_list e.owned
  unfolding freeze_into
  freeze_into-list total e w maps =
      let r = blob_map H has data_dir total e w in
      rw (maps total e w)
        (freeze_mapped-list r.0.1 r.1 ∙ ap release_list (blob_map-Like H has data_dir total e w).1)

  -- If the functions are found, the blob can always be mapped and the buffers need some bytes of it, but
  -- less than 2^64, then a freeze marks every live buffer that was not frozen as frozen, at its place in
  -- the blob, with any driver: whatever its copies, unmaps and releases answer.
  pub checkpoint_freeze-froze :
      (e : Engine) (w : World H)
      → freeze_resolved H has data_dir ≡ true
      → Maps
      → Fits 0 e.owned
      → nat_eq (0 + needed e.owned) 0 ≡ false
      → (checkpoint_freeze H has data_dir e w).0.owned ≡ froze e.owned 0
  unfolding checkpoint_freeze freeze_buffers
  checkpoint_freeze-froze e w resolved maps fits some_bytes =
      let r = gcr_stage_init H has data_dir e w in
      let w₁ = (call_if H has "cudaSetDevice" (set_device 0) r.1).1 in
      let w₂ = (call_if H has "cudaDeviceSynchronize" device_sync w₁).1 in
      let same = (gcr_stage_init-Like H has data_dir e w).1 in
      let some_total = ap (λ n. nat_eq n 0) (assign_offsets-total e.owned 0 fits) ∙ some_bytes in
      let e₂ : Engine = record r.0 {
        gate = true;
        owned = (assign_offsets e.owned 0).0;
        in_remap = true;
      } in
      rw (resolved, same, some_total)
        (freeze_into-list (assign_offsets e.owned 0).1 e₂ w₂ maps
          ∙ release_list-froze e.owned 0 fits)
