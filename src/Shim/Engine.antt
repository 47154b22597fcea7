-- ===== src/Shim/Engine.antt =====
-- interceptor/preload.c: offloading the buffers to the blob, and bringing them back to the same
-- addresses. Allocations by other threads while one of these runs are left out, and `data_dir` is set:
-- the calls of `build_paths` for an empty one are not modelled.
use k8s_native_fast_gpu_chec.Prelude.{
  ℕ, String, ◌<>◌, Bool, true, false, ◌&&◌, List, [], ◌∷◌, Option, none, some, ltb, leb, nat_eq,
  if◌then◌else◌,
}
use k8s_native_fast_gpu_chec.Effect.{Handler, World, M, pure, ◌>>=◌, ◌>>◌, perform}
use k8s_native_fast_gpu_chec.Shim.Calls.{
  Op, Reply, a, b, freeze, remap, mem_create, mem_map, set_access, mem_unmap, mem_release,
  set_device, device_sync, host_alloc, malloc, make_dir, open_blob, ftruncate, mmap, msync, munmap,
  close_blob,
}
use k8s_native_fast_gpu_chec.Shim.Registry.{add64}
use k8s_native_fast_gpu_chec.Shim.Owned.{Owned, call_if, call_found, read_write}
use k8s_native_fast_gpu_chec.Shim.Copying.{
  gcr_stage_bytes, round2m, selected, PipeResult, copied, failed, unavailable, pipe_copy,
  serial_freeze, serial_remap,
}

-- The variables of the engine: the table of buffers, `g_gate`, `g_in_remap` of the watcher's thread,
-- `g_blob` with `g_blob_size`, whether `g_blob_fd` is open, the staging buffers, and whether
-- `rt_memcpy_async` is set.
pub record Engine : Type 0 where
  pub owned : List Owned
  pub gate : Bool
  pub in_remap : Bool
  pub blob : Option ℕ
  pub fd : Bool
  pub stage_a : Bool
  pub stage_b : Bool
  pub async_on : Bool

-- The first loop of `checkpoint_freeze`: each selected buffer gets its place in the blob.
unfoldable pub assign_offsets : List Owned → ℕ → List Owned × ℕ
assign_offsets [] total = ([], total)
assign_offsets (o ∷ os) total =
    let taken = selected freeze o in
    let (os', total') = assign_offsets os (if taken then add64 total (round2m o.req) else total) in
    ((if taken then record o { blob_off = total } else o) ∷ os', total')

-- The loop of `restore_remap` that finds how much of the blob is used.
unfoldable pub blob_need : List Owned → ℕ → ℕ
blob_need [] need = need
blob_need (o ∷ os) need =
    let e = add64 o.blob_off (round2m o.req) in
    blob_need os (if selected remap o && ltb need e then e else need)

-- Phase C of `restore_remap`.
unfoldable pub thaw : List Owned → List Owned
thaw [] = []
thaw (o ∷ os) = record o { frozen = false } ∷ thaw os

abbrev pub is_some {ℓ} : {A : Type ℓ} → Option A → Bool
is_some none = false
is_some (some x) = true

abbrev pub holds : Option ℕ → ℕ → Bool
holds none need = false
holds (some n) need = leb need n

-- What `pipe_copy` asks of the variables.
abbrev pub pipe_ready : Engine → Bool
pipe_ready e = e.async_on && e.stage_a && e.stage_b && is_some e.blob

module _ (H : Handler Op Reply) (has : String → Bool) (data_dir : String) where
  -- The condition on `cudaHostAlloc` in `gcr_stage_init`.
  unfoldable pub pin_stages : M (World H) Bool
  pin_stages = do
    let pinned = (do
      rc ← perform H (host_alloc a gcr_stage_bytes)
      let second = (do rc' ← perform H (host_alloc b gcr_stage_bytes); pure (nat_eq rc' 0))
      if nat_eq rc 0 then second else pure false)
    if has "cudaHostAlloc" then pinned else pure false

  -- `gcr_stage_init`
  unfoldable pub gcr_stage_init : Engine → M (World H) Engine
  gcr_stage_init e = do
    let init = (do
      pinned ← pin_stages
      let pageable = (do
        x ← perform H (malloc a gcr_stage_bytes)
        y ← perform H (malloc b gcr_stage_bytes)
        pure (record e { stage_a = x; stage_b = y; async_on = false }))
      if pinned
          then pure (record e { stage_a = true; stage_b = true; async_on = has "cudaMemcpyAsync" })
          else pageable)
    if e.stage_a then pure e else init

  -- `blob_map` from the call of `ftruncate` on.
  unfoldable pub blob_resize : ℕ → Engine → M (World H) (Bool × Engine)
  blob_resize need e = do
    sized ← perform H (ftruncate need)
    let map_it = (do
      mapped ← perform H (mmap need)
      pure (if mapped then (true, record e { blob = some need }) else (false, e)))
    if sized then map_it else pure (false, e)

  -- `blob_map` once no mapping is left.
  unfoldable pub blob_open : ℕ → Engine → M (World H) (Bool × Engine)
  blob_open need e = do
    let opening = (do
      perform H (make_dir data_dir 0o755)
      opened ← perform H (open_blob (data_dir <> "/data.blob"))
      if opened then blob_resize need (record e { fd = true }) else pure (false, e))
    if e.fd then blob_resize need e else opening

  -- `if (g_blob) { munmap(..); g_blob = NULL; }`
  unfoldable pub blob_unmap : Option ℕ → Engine → M (World H) Engine
  blob_unmap none e = pure e
  blob_unmap (some n) e = do perform H (munmap n); pure (record e { blob = none })

  -- `blob_map`
  unfoldable pub blob_map : ℕ → Engine → M (World H) (Bool × Engine)
  blob_map need e = do
    let remapped = (do e' ← blob_unmap e.blob e; blob_open need e')
    if holds e.blob need then pure (true, e) else remapped

  -- The loop of `checkpoint_freeze` that gives the physical memory back.
  unfoldable pub release_all : List Owned → M (World H) (List Owned)
  release_all [] = pure []
  release_all (o ∷ os) = do
    let released = (do
      perform H (mem_unmap o.va o.padded)
      perform H (mem_release o.handle)
      pure (record o { frozen = true }))
    o' ← if selected freeze o then released else pure o
    os' ← release_all os
    pure (o' ∷ os')

  -- The fallback of `checkpoint_freeze`.
  unfoldable pub copy_out : PipeResult → List Owned → M (World H) (Unit {0})
  copy_out copied owned = pure tt
  copy_out failed owned = pure tt
  copy_out unavailable owned = serial_freeze H owned

  -- `if (g_blob) { msync(..); munmap(..); .. } if (g_blob_fd >= 0) { close(..); .. }`
  unfoldable pub blob_flush : Option ℕ → M (World H) (Unit {0})
  blob_flush none = pure tt
  blob_flush (some n) = do perform H (msync n); perform H (munmap n); pure tt

  unfoldable pub blob_close : Engine → M (World H) Engine
  blob_close e = do
    blob_flush e.blob
    let closing = (do perform H close_blob; pure (record e { blob = none; fd = false }))
    if e.fd then closing else pure (record e { blob = none })

  -- `checkpoint_freeze` once the blob is mapped.
  unfoldable pub freeze_mapped : Engine → M (World H) Engine
  freeze_mapped e = do
    r ← pipe_copy H has freeze (pipe_ready e) e.owned
    copy_out r e.owned
    owned ← release_all e.owned
    e' ← blob_close (record e { owned = owned })
    pure (record e' { in_remap = false })

  unfoldable pub freeze_into : ℕ → Engine → M (World H) Engine
  freeze_into total e = do
    (mapped, e') ← blob_map total e
    if mapped then freeze_mapped e' else pure (record e' { in_remap = false })

  unfoldable pub freeze_resolved : Bool
  freeze_resolved = has "cudaMemcpy" && has "cuMemUnmap" && has "cuMemRelease"

  -- `checkpoint_freeze` once the functions were found.
  unfoldable pub freeze_buffers : Engine → M (World H) Engine
  freeze_buffers e = do
    call_if H has "cudaSetDevice" (set_device 0)
    call_if H has "cudaDeviceSynchronize" device_sync
    let (owned, total) = assign_offsets e.owned 0
    if nat_eq total 0
        then pure (record e { gate = true; owned = owned; in_remap = false })
        else freeze_into total (record e { gate = true; owned = owned; in_remap = true })

  -- `checkpoint_freeze`
  unfoldable pub checkpoint_freeze : Engine → M (World H) Engine
  checkpoint_freeze e = do
    e' ← gcr_stage_init e
    if freeze_resolved then freeze_buffers e' else pure e'

  -- Phase A of `restore_remap` for one buffer.
  unfoldable pub remap_one : Owned → M (World H) Owned
  remap_one o = do
    (rc, handle) ← perform H (mem_create o.padded o.prop)
    let map_it = (do
      rc' ← perform H (mem_map o.va o.padded handle)
      let grant = (do
        perform H (set_access o.va o.padded (read_write o.prop.location_id))
        pure (record o { handle = handle }))
      let give_up = (do
        call_found H has "cuMemRelease" (mem_release handle)
        pure (record o { frozen = false }))
      if nat_eq rc' 0 then grant else give_up)
    if nat_eq rc 0 then map_it else pure (record o { frozen = false })

  -- Phase A of `restore_remap`.
  unfoldable pub remap_all : List Owned → M (World H) (List Owned)
  remap_all [] = pure []
  remap_all (o ∷ os) = do
    o' ← if selected remap o then remap_one o else pure o
    os' ← remap_all os
    pure (o' ∷ os')

  -- The fallback of `restore_remap`: its inner loop runs only with a mapped blob.
  unfoldable pub copy_in : PipeResult → Bool → List Owned → M (World H) (Unit {0})
  copy_in copied mapped owned = pure tt
  copy_in failed mapped owned = pure tt
  copy_in unavailable false owned = pure tt
  copy_in unavailable true owned = serial_remap H owned

  -- `if (!g_blob) { .. if (need) blob_map(need); }`
  unfoldable pub blob_reopen : Engine → M (World H) Engine
  blob_reopen e = do
    let need = blob_need e.owned 0
    let reopened = (do (_, e') ← blob_map need e; pure e')
    if is_some e.blob then pure e else (if nat_eq need 0 then pure e else reopened)

  -- `restore_remap` once the functions were found.
  unfoldable pub remap_buffers : Engine → M (World H) Engine
  remap_buffers e = do
    e₁ ← gcr_stage_init e
    e₂ ← blob_reopen e₁
    call_if H has "cudaSetDevice" (set_device 0)
    owned ← remap_all e₂.owned
    r ← pipe_copy H has remap (pipe_ready e₂) owned
    copy_in r (is_some e₂.blob) owned
    call_if H has "cudaDeviceSynchronize" device_sync
    pure (record e₂ { owned = thaw owned; in_remap = false })

  unfoldable pub remap_resolved : Bool
  remap_resolved = has "cudaMemcpy" && has "cuMemCreate" && has "cuMemMap" && has "cuMemSetAccess"

  -- `restore_remap`
  unfoldable pub restore_remap : Engine → M (World H) Engine
  restore_remap e =
      if remap_resolved
      then remap_buffers (record e { in_remap = true })
      else pure (record e { in_remap = true })
