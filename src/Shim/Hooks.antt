-- ===== src/Shim/Hooks.antt =====
-- interceptor/preload.c: the functions of CUDA that the library stands before. An argument `out` or
-- `handle` says that the caller's pointer for the result is not NULL.
use k8s_native_fast_gpu_chec.Prelude.{
  ℕ, String, Bool, true, ◌&&◌, List, [], ◌∷◌, Option, none, some, ltb, nat_eq, if◌then◌else◌,
}
use k8s_native_fast_gpu_chec.Effect.{Handler, World, M, pure, ◌>>=◌, perform}
use k8s_native_fast_gpu_chec.Shim.Calls.{
  Op, Reply, MemProp, real_malloc, real_free, real_create, real_call, launch,
}
use k8s_native_fast_gpu_chec.Shim.Registry.{
  reg_add, reg_del, vmm_phys_add, vmm_phys_del, vmm_seg_add, vmm_seg_del,
}
use k8s_native_fast_gpu_chec.Shim.Owned.{Owned, gcr_vmm_alloc, gcr_vmm_free}
use k8s_native_fast_gpu_chec.Shim.Watcher.{Process, gcr_vmm_enabled}

abbrev pub with_owned : Process → List Owned → Process
with_owned p owned = record p { engine = record p.engine { owned = owned } }

abbrev pub added : Bool → ℕ → ℕ × ℕ → Process → Process
added out n (rc, at) p =
    if nat_eq rc 0 && out then record p { allocs = reg_add at n p.allocs } else p

module _ (H : Handler Op Reply) where
  -- `cuMemAlloc_v2` and `cudaMallocAsync`, and the end of `cudaMalloc`: the real function, whose
  -- buffer is entered in the table.
  unfoldable pub observed_malloc : String → Bool → ℕ → Process → M (World H) ((ℕ × ℕ) × Process)
  observed_malloc name out n p = do r ← perform H (real_malloc name n); pure (r, added out n r p)

  -- `cuMemFree_v2` and `cudaFreeAsync`, and the end of `cudaFree`.
  unfoldable pub observed_free : String → ℕ → Process → M (World H) (ℕ × Process)
  observed_free name ptr p = do
    rc ← perform H (real_free name ptr)
    pure (rc, record p { allocs = reg_del ptr p.allocs })

  -- `cuMemCreate`
  unfoldable pub cu_mem_create :
      Bool → ℕ → Option MemProp → ℕ → Process → M (World H) ((ℕ × ℕ) × Process)
  cu_mem_create handle n prop flags p = do
    r ← perform H (real_create n prop flags)
    let (rc, h) = r
    pure (r, if nat_eq rc 0 && handle then record p { phys = vmm_phys_add h n prop p.phys } else p)

  -- `cuMemMap`
  unfoldable pub cu_mem_map : ℕ → ℕ → ℕ → ℕ → ℕ → Process → M (World H) (ℕ × Process)
  cu_mem_map ptr n off h flags p = do
    r ← perform H (real_call "cuMemMap" (ptr ∷ n ∷ off ∷ h ∷ flags ∷ []))
    let rc = r.0
    pure (rc, if nat_eq rc 0 then record p { segs = vmm_seg_add ptr n off h p.segs } else p)

  -- `cuMemUnmap`
  unfoldable pub cu_mem_unmap : ℕ → ℕ → Process → M (World H) (ℕ × Process)
  cu_mem_unmap ptr n p = do
    r ← perform H (real_call "cuMemUnmap" (ptr ∷ n ∷ []))
    pure (r.0, record p { segs = vmm_seg_del ptr p.segs })

  -- `cuMemRelease`
  unfoldable pub cu_mem_release : ℕ → Process → M (World H) (ℕ × Process)
  cu_mem_release h p = do
    r ← perform H (real_call "cuMemRelease" (h ∷ []))
    pure (r.0, record p { phys = vmm_phys_del h p.phys })

  -- `cuMemAddressReserve` and `cuMemAddressFree` change no table.
  unfoldable pub cu_mem_address_reserve : ℕ → ℕ → ℕ → ℕ → M (World H) (ℕ × ℕ)
  cu_mem_address_reserve n alignment addr flags =
      perform H (real_call "cuMemAddressReserve" (n ∷ alignment ∷ addr ∷ flags ∷ []))

  unfoldable pub cu_mem_address_free : ℕ → ℕ → M (World H) (ℕ × ℕ)
  cu_mem_address_free ptr n = perform H (real_call "cuMemAddressFree" (ptr ∷ n ∷ []))

  -- What a launch function does after `gcr_gate_wait`.
  unfoldable pub launch_kernel : String → M (World H) ℕ
  launch_kernel name = perform H (launch name)

module _ (H : Handler Op Reply) (has : String → Bool) where
  -- What `cudaMalloc` does with the answer of `gcr_vmm_alloc`.
  unfoldable pub malloc_answered : ℕ → Option ℕ → Process → M (World H) ((ℕ × ℕ) × Process)
  malloc_answered n (some va) p = pure ((0, va), p)
  malloc_answered n none p = observed_malloc H "cudaMalloc" true n p

  -- `cudaMalloc` after the test of its arguments.
  unfoldable pub owned_malloc : ℕ → Process → M (World H) ((ℕ × ℕ) × Process)
  owned_malloc n p = do
    r ← gcr_vmm_alloc H has n p.engine.owned
    let (at, owned) = r
    malloc_answered n at (with_owned p owned)

  -- `cudaMalloc`
  unfoldable pub cuda_malloc : Bool → ℕ → Process → M (World H) ((ℕ × ℕ) × Process)
  cuda_malloc out n p = do
    on ← gcr_vmm_enabled H
    if on && out && ltb 0 n then owned_malloc n p else observed_malloc H "cudaMalloc" out n p

  -- `cudaFree` of a pointer that is not NULL.
  unfoldable pub owned_free : ℕ → Process → M (World H) (ℕ × Process)
  owned_free ptr p = do
    r ← gcr_vmm_free H has ptr p.engine.owned
    let (found, owned) = r
    let p' = with_owned p owned
    if found then pure (0, p') else observed_free H "cudaFree" ptr p'

  -- `cudaFree`
  unfoldable pub cuda_free : ℕ → Process → M (World H) (ℕ × Process)
  cuda_free ptr p = if nat_eq ptr 0 then observed_free H "cudaFree" ptr p else owned_free ptr p
