-- ===== src/Shim/Unchanged.antt =====
-- interceptor/preload.c: preparing the staging buffers and the blob changes neither the table nor the
-- gate, with any driver and whatever fails.
use k8s_native_fast_gpu_chec.Prelude.{
  ℕ, String, ◌<>◌, Bool, true, false, Option, none, some, ◌≡◌, refl, if◌then◌else◌,
}
use k8s_native_fast_gpu_chec.Effect.{Handler, World, perform}
use k8s_native_fast_gpu_chec.Shim.Calls.{Op, Reply, ftruncate, mmap, make_dir, open_blob, munmap}
use k8s_native_fast_gpu_chec.Shim.Engine.{
  Engine, gcr_stage_init, blob_map, blob_close, blob_open, blob_resize, blob_unmap, blob_flush,
  holds, pin_stages,
}
use k8s_native_fast_gpu_chec.Shim.Offload.Quiet.{if_either}

module _ (H : Handler Op Reply) (has : String → Bool) (data_dir : String) where
  -- The table and the gate stay.
  abbrev pub Like : Engine → Engine → Type 0
  Like e e' = (e'.gate ≡ e.gate) × (e'.owned ≡ e.owned)

  abbrev LikeAfter : Engine → Engine × World H → Type 0
  LikeAfter e (e', w) = Like e e'

  abbrev MapLike : Engine → (Bool × Engine) × World H → Type 0
  MapLike e ((mapped, e'), w) = Like e e'

  pub gcr_stage_init-Like :
      (e : Engine) (w : World H) → Like e (gcr_stage_init H has data_dir e w).0
  unfolding gcr_stage_init
  gcr_stage_init-Like e w =
      let p = pin_stages H has data_dir w in
      if_either (λ r. Like e r.0) e.stage_a _ _ w (refl, refl)
        (if_either (λ r. Like e r.0) p.0 _ _ p.1 (refl, refl) (refl, refl))

  blob_resize-Like :
      (need : ℕ) (e : Engine) (w : World H) → Like e (blob_resize H has data_dir need e w).0.1
  unfolding blob_resize
  blob_resize-Like need e w =
      let r = perform H (ftruncate need) w in
      let s = perform H (mmap need) r.1 in if_either (MapLike e) r.0 _ _ r.1 (pick s.0) (refl, refl)
    where
      pick :
          (t : Bool)
          → MapLike e ((if t then (true, record e { blob = some need }) else (false, e)), w)
      pick true = (refl, refl)
      pick false = (refl, refl)

  blob_open-Like :
      (need : ℕ) (e : Engine) (w : World H) → Like e (blob_open H has data_dir need e w).0.1
  unfolding blob_open
  blob_open-Like need e w =
      let w₁ = (perform H (make_dir data_dir 0o755) w).1 in
      let r = perform H (open_blob (data_dir <> "/data.blob")) w₁ in
      if_either (MapLike e) e.fd _ _ w (blob_resize-Like need e w) (
        if_either (MapLike e) r.0 _ _ r.1 (blob_resize-Like need (record e { fd = true }) r.1)
          (refl, refl))

  blob_remap-Like :
      (need : ℕ) (blob : Option ℕ) (e : Engine) (w : World H)
      → let (e', w') = blob_unmap H has data_dir blob e w in
        Like e (blob_open H has data_dir need e' w').0.1
  unfolding blob_unmap
  blob_remap-Like need none e w = blob_open-Like need e w
  blob_remap-Like need (some n) e w =
      blob_open-Like need (record e { blob = none }) (perform H (munmap n) w).1

  pub blob_map-Like :
      (need : ℕ) (e : Engine) (w : World H) → Like e (blob_map H has data_dir need e w).0.1
  unfolding blob_map
  blob_map-Like need e w =
      if_either (MapLike e) (holds e.blob need) _ _ w (refl, refl) (blob_remap-Like need e.blob e w)

  pub blob_close-Like : (e : Engine) (w : World H) → Like e (blob_close H has data_dir e w).0
  unfolding blob_close
  blob_close-Like e w =
      if_either (LikeAfter e) e.fd _ _ (blob_flush H has data_dir e.blob w).1 (refl, refl)
        (refl, refl)
