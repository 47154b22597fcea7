-- ===== src/Shim/Owned.antt =====
-- interceptor/preload.c: the allocator that backs `cudaMalloc` by the virtual memory calls of the
-- driver. `has` says which symbols `dlsym` finds in the process.
pub mod Ledger
pub mod Freeing
use k8s_native_fast_gpu_chec.Prelude.{
  ℕ, ◌+◌, ◌-◌, ◌*◌, ◌/◌, ◌%◌, String, Bool, true, false, ◌&&◌, ◌||◌, not, List, [], ◌∷◌, ◌++◌,
  Option, none, some, length, ltb, nat_eq, if◌then◌else◌,
}
use k8s_native_fast_gpu_chec.Effect.{Handler, World, M, pure, ◌>>=◌, ◌>>◌, perform}
use k8s_native_fast_gpu_chec.Shim.Calls.{
  Op, Reply, MemProp, AccessDesc, get_device, granularity, mem_create, address_reserve, mem_map,
  set_access, mem_unmap, mem_release, address_free, null_call,
}
use k8s_native_fast_gpu_chec.Shim.Registry.{gcr_max_vmm, push_within, retire, zero_prop}

-- `gcr_owned_t`. The field `host_buf` of the source is only ever set to NULL.
pub record Owned : Type 0 where
  pub va : ℕ
  pub padded : ℕ
  pub req : ℕ
  pub handle : ℕ
  pub prop : MemProp
  pub live : Bool
  pub blob_off : ℕ
  pub frozen : Bool

-- The properties of the physical memory of the device `dev`.
unfoldable pub device_prop : ℕ → MemProp
device_prop dev = record zero_prop { kind = 1; location_type = 1; location_id = dev }

-- Read and write for the device `dev`.
unfoldable pub read_write : ℕ → AccessDesc
read_write dev = record { location_type = 1; location_id = dev; flags = 3 }

-- `size` in whole pages of `gran` bytes, at least one, in 64-bit arithmetic.
unfoldable pub pad : ℕ → ℕ → ℕ
pad size gran =
    let padded =
      ((((size + gran) % 18446744073709551616 + 18446744073709551615) % 18446744073709551616)
        / gran
        * gran)
      % 18446744073709551616 in
    if nat_eq padded 0 then gran else padded

-- The page size: what the driver says, or 2 MB for 0.
abbrev pub page_size : ℕ × ℕ → ℕ
page_size (rc, gran) = if nat_eq gran 0 then 2097152 else gran

-- The entry of a new buffer.
unfoldable pub new_owned : ℕ → ℕ → ℕ → ℕ → ℕ → Owned
new_owned at padded size handle dev = record {
  va = at;
  padded = padded;
  req = size;
  handle = handle;
  prop = device_prop dev;
  live = true;
  blob_off = 0;
  frozen = false;
}

-- `if (found < 0)` over the loop that looks for the live buffer at an address.
unfoldable pub find_owned : ℕ → List Owned → Option Owned
find_owned at [] = none
find_owned at (o ∷ os) = if o.live && nat_eq o.va at then some o else find_owned at os

abbrev pub owned_at : ℕ → Owned → Bool
owned_at at o = o.live && nat_eq o.va at

abbrev pub kill_owned : Owned → Owned
kill_owned o = record o { live = false }

module _ (H : Handler Op Reply) (has : String → Bool) where
  -- `if (r) r(..)`, for a call whose status is not read.
  unfoldable pub call_if : String → (o : Op) → M (World H) (Unit {0})
  call_if name o w = if has name then (tt, (perform H o w).1) else (tt, w)

  -- `r(..)`, for a function that was not looked for: without it the call goes through a null pointer,
  -- and nothing is known of what follows.
  unfoldable pub call_found : String → (o : Op) → M (World H) (Unit {0})
  call_found name o w = (tt, (perform H (if has name then o else null_call name) w).1)

  -- `int dev = 0; if (r_cudaGetDevice) r_cudaGetDevice(&dev);`
  unfoldable pub current_device : M (World H) ℕ
  current_device w = if has "cudaGetDevice" then perform H get_device w else (0, w)

  unfoldable pub alloc_resolved : Bool
  alloc_resolved =
      has "cuMemCreate"
      && has "cuMemMap"
      && has "cuMemAddressReserve"
      && has "cuMemSetAccess"
      && has "cuMemGetAllocationGranularity"

  -- What is done once the access rights of the mapping were asked for.
  unfoldable pub alloc_accessed :
      ℕ → ℕ → ℕ → ℕ → ℕ → List Owned → ℕ → M (World H) (Option ℕ × List Owned)
  alloc_accessed size padded dev handle at owned rc =
      if nat_eq rc 0
      then pure (some at, push_within gcr_max_vmm owned (new_owned at padded size handle dev))
      else (do
        call_found "cuMemUnmap" (mem_unmap at padded)
        call_found "cuMemAddressFree" (address_free at padded)
        call_found "cuMemRelease" (mem_release handle)
        pure (none, owned))

  -- What is done once the memory was mapped.
  unfoldable pub alloc_mapped :
      ℕ → ℕ → ℕ → ℕ → ℕ → List Owned → ℕ → M (World H) (Option ℕ × List Owned)
  alloc_mapped size padded dev handle at owned rc =
      if nat_eq rc 0
      then (do
        rc' ← perform H (set_access at padded (read_write dev))
        alloc_accessed size padded dev handle at owned rc')
      else (do
        call_found "cuMemAddressFree" (address_free at padded)
        call_found "cuMemRelease" (mem_release handle)
        pure (none, owned))

  -- What is done once an address range was asked for.
  unfoldable pub alloc_reserved :
      ℕ → ℕ → ℕ → ℕ → List Owned → ℕ × ℕ → M (World H) (Option ℕ × List Owned)
  alloc_reserved size padded dev handle owned (rc, at) =
      if nat_eq rc 0
      then (do
        rc' ← perform H (mem_map at padded handle)
        alloc_mapped size padded dev handle at owned rc')
      else (do call_found "cuMemRelease" (mem_release handle); pure (none, owned))

  -- What is done once physical memory was asked for.
  unfoldable pub alloc_created :
      ℕ → ℕ → ℕ → List Owned → ℕ × ℕ → M (World H) (Option ℕ × List Owned)
  alloc_created size padded dev owned (rc, handle) =
      if nat_eq rc 0
      then (do
        r ← perform H (address_reserve padded)
        alloc_reserved size padded dev handle owned r)
      else pure (none, owned)

  -- `gcr_vmm_alloc`: the address, or `none` to fall back to the real `cudaMalloc`.
  unfoldable pub gcr_vmm_alloc : ℕ → List Owned → M (World H) (Option ℕ × List Owned)
  gcr_vmm_alloc size owned =
      if alloc_resolved
      then (do
        dev ← current_device
        g ← perform H (granularity (device_prop dev))
        let padded = pad size (page_size g)
        r ← perform H (mem_create padded (device_prop dev))
        alloc_created size padded dev owned r)
      else pure (none, owned)

  unfoldable pub free_found : List Owned → ℕ → Option Owned → M (World H) (Bool × List Owned)
  free_found owned at none = pure (false, owned)
  free_found owned at (some o) = do
    call_if "cuMemUnmap" (mem_unmap o.va o.padded)
    call_if "cuMemRelease" (mem_release o.handle)
    call_if "cuMemAddressFree" (address_free o.va o.padded)
    pure (true, retire (owned_at at) kill_owned owned)

  -- `gcr_vmm_free`: whether the pointer was a buffer of the allocator.
  unfoldable pub gcr_vmm_free : ℕ → List Owned → M (World H) (Bool × List Owned)
  gcr_vmm_free at owned = free_found owned at (find_owned at owned)
