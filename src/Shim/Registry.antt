-- ===== src/Shim/Registry.antt =====
-- interceptor/preload.c: the fixed tables of allocations, and what is written of them.
pub mod Counting
use k8s_native_fast_gpu_chec.Prelude.{
  ℕ, ◌+◌, ◌%◌, Bool, true, false, ◌&&◌, not, List, [], ◌∷◌, ◌++◌, length, ltb, nat_eq,
  if◌then◌else◌, Option, none, some,
}
use k8s_native_fast_gpu_chec.Shim.Calls.{MemProp}

abbrev pub gcr_max_allocs : ℕ
gcr_max_allocs = 65536

abbrev pub gcr_max_vmm : ℕ
gcr_max_vmm = 131072

-- A sum of `size_t`.
abbrev pub add64 : ℕ → ℕ → ℕ
add64 m n = (m + n) % 18446744073709551616

-- `gcr_alloc_t`
pub record Alloc : Type 0 where
  pub ptr : ℕ
  pub size : ℕ
  pub live : Bool

-- `gcr_phys_t`
pub record Phys : Type 0 where
  pub handle : ℕ
  pub size : ℕ
  pub prop : MemProp
  pub live : Bool

-- `gcr_seg_t`
pub record Seg : Type 0 where
  pub va : ℕ
  pub size : ℕ
  pub offset : ℕ
  pub handle : ℕ
  pub live : Bool

-- `if (n < MAX) { t[n] = x; n++; }`, for a table of which the first `n` entries are a list.
unfoldable pub push_within {ℓ} : {A : Type ℓ} → ℕ → List A → A → List A
push_within limit xs x = if ltb (length xs) limit then xs ++ x ∷ [] else xs

-- `for (i < n) if (test(t[i])) { t[i].live = 0; break; }`
unfoldable pub retire {ℓ} : {A : Type ℓ} → (A → Bool) → (A → A) → List A → List A
retire test kill [] = []
retire test kill (x ∷ xs) =
    let rest = retire test kill xs in if test x then kill x ∷ xs else x ∷ rest

unfoldable pub reg_add : ℕ → ℕ → List Alloc → List Alloc
reg_add p n allocs =
    if nat_eq p 0
    then allocs
    else push_within gcr_max_allocs allocs (record { ptr = p; size = n; live = true })

abbrev pub alloc_at : ℕ → Alloc → Bool
alloc_at p x = x.live && nat_eq x.ptr p

abbrev pub kill_alloc : Alloc → Alloc
kill_alloc x = record x { live = false }

unfoldable pub reg_del : ℕ → List Alloc → List Alloc
reg_del p allocs = if nat_eq p 0 then allocs else retire (alloc_at p) kill_alloc allocs

abbrev pub zero_prop : MemProp
zero_prop = record {
  kind = 0;
  requested_handle_types = 0;
  location_type = 0;
  location_id = 0;
  win32_handle_meta_data = 0;
  compression_type = 0;
  gpu_direct_rdma_capable = 0;
  usage = 0;
}

-- The table is zero before its first use, so an entry that is added with no `prop` has a zero one.
abbrev pub prop_of : Option MemProp → MemProp
prop_of none = zero_prop
prop_of (some p) = p

unfoldable pub vmm_phys_add : ℕ → ℕ → Option MemProp → List Phys → List Phys
vmm_phys_add h n p phys =
    push_within gcr_max_vmm phys (record { handle = h; size = n; prop = prop_of p; live = true })

abbrev pub phys_at : ℕ → Phys → Bool
phys_at h x = x.live && nat_eq x.handle h

abbrev pub kill_phys : Phys → Phys
kill_phys x = record x { live = false }

unfoldable pub vmm_phys_del : ℕ → List Phys → List Phys
vmm_phys_del h phys = retire (phys_at h) kill_phys phys

unfoldable pub vmm_seg_add : ℕ → ℕ → ℕ → ℕ → List Seg → List Seg
vmm_seg_add at n off h segs =
    push_within gcr_max_vmm segs
      (record { va = at; size = n; offset = off; handle = h; live = true })

abbrev pub seg_at : ℕ → Seg → Bool
seg_at at x = x.live && nat_eq x.va at

abbrev pub kill_seg : Seg → Seg
kill_seg x = record x { live = false }

unfoldable pub vmm_seg_del : ℕ → List Seg → List Seg
vmm_seg_del at segs = retire (seg_at at) kill_seg segs

-- The loops of `vmm_dump` and `dump_intercepted_info` over a table: how many entries are live, and
-- their bytes.
unfoldable pub tally {ℓ} : {A : Type ℓ} → (A → Bool) → (A → ℕ) → List A → ℕ × ℕ → ℕ × ℕ
tally live size [] acc = acc
tally live size (x ∷ xs) (n, bytes) =
    tally live size xs (if live x then (add64 n 1, add64 bytes (size x)) else (n, bytes))

unfoldable pub live_allocs : List Alloc → ℕ × ℕ
live_allocs allocs = tally (λ (x : Alloc). x.live) (λ (x : Alloc). x.size) allocs (0, 0)

unfoldable pub live_segs : List Seg → ℕ × ℕ
live_segs segs = tally (λ (x : Seg). x.live) (λ (x : Seg). x.size) segs (0, 0)
