-- ===== src/Shim/Owned/Ledger.antt =====
-- interceptor/preload.c: what the allocator holds of the driver, read off its calls.
use k8s_native_fast_gpu_chec.Prelude.{
  ℕ, String, Bool, true, List, [], ◌∷◌, ◌≡◌, refl, inl, inr, ◌⊎◌, ◌&&◌, false, Option, none, some,
  nat_eq, if◌then◌else◌, Bool-cases, arith,
}
use k8s_native_fast_gpu_chec.Effect.{Handler, World, Event, perform}
use k8s_native_fast_gpu_chec.Shim.Calls.{
  Op, Reply, MemProp, mem_create, address_reserve, mem_map, mem_unmap, mem_release, address_free,
}
use k8s_native_fast_gpu_chec.Shim.Registry.{gcr_max_vmm, push_within}
use k8s_native_fast_gpu_chec.Shim.Owned.{
  Owned, gcr_vmm_alloc, alloc_created, alloc_reserved, alloc_mapped, alloc_accessed, new_owned,
  current_device, call_found, alloc_resolved,
}

-- The physical memory that is held, and the addresses that are reserved and mapped, newest first.
pub record Ledger : Type 0 where
  pub handles : List ℕ
  pub reserved : List ℕ
  pub mapped : List ℕ

unfoldable pub remove : ℕ → List ℕ → List ℕ
remove n [] = []
remove n (x ∷ xs) = let rest = remove n xs in if nat_eq x n then xs else x ∷ rest

-- What one call does to the holdings: a call that takes counts if it succeeds, a call that gives
-- back counts always.
unfoldable pub post : (o : Op) → Reply o → Ledger → Ledger
post (mem_create n p) (rc, h) l = if nat_eq rc 0 then record l { handles = h ∷ l.handles } else l
post (address_reserve n) (rc, at) l =
    if nat_eq rc 0 then record l { reserved = at ∷ l.reserved } else l
post (mem_map at n h) rc l = if nat_eq rc 0 then record l { mapped = at ∷ l.mapped } else l
post (mem_release h) rc l = record l { handles = remove h l.handles }
post (address_free at n) rc l = record l { reserved = remove at l.reserved }
post (mem_unmap at n) rc l = record l { mapped = remove at l.mapped }
post o r l = l

abbrev nothing : Ledger
nothing = record { handles = []; reserved = []; mapped = [] }

unfoldable pub ledger : List (Event Op Reply) → Ledger
ledger [] = nothing
ledger ((o, r) ∷ es) = post o r (ledger es)

pub nat_eq_self : (n : ℕ) → nat_eq n n ≡ true
nat_eq_self n = ground arith

pub remove-first : (n : ℕ) (xs : List ℕ) → remove n (n ∷ xs) ≡ xs
unfolding remove
remove-first n xs = rw (nat_eq_self n) refl

-- The functions that `gcr_vmm_alloc` calls after a failure, without looking whether they are found.
abbrev pub gives_back : (String → Bool) → Bool
gives_back has = has "cuMemUnmap" && has "cuMemAddressFree" && has "cuMemRelease"

-- What an allocation has done when it ends: nothing is held, if the functions that give back are found,
-- and no entry is added, or the memory is held under one handle, one reservation and one mapping at
-- the address that it gives.
abbrev pub Settled :
    (String → Bool) → ℕ → Ledger → List Owned → Option ℕ → List Owned → Ledger → Type 0
Settled has size before owned none owned' after =
    (owned' ≡ owned) × ((after ≡ before) ⊎ (gives_back has ≡ false))
Settled has size before owned (some at) owned' after =
    (padded : ℕ) × (handle : ℕ) × (dev : ℕ) × (owned'
      ≡ push_within gcr_max_vmm owned (new_owned at padded size handle dev))
    × (after.handles ≡ handle ∷ before.handles)
    × (after.reserved ≡ at ∷ before.reserved)
    × (after.mapped ≡ at ∷ before.mapped)

module _ (H : Handler Op Reply) (has : String → Bool) (size : ℕ) (owned : List Owned) where
  abbrev books : World H → Ledger
  books w = ledger w.trace

  abbrev Ends : Ledger → (Option ℕ × List Owned) × World H → Type 0
  Ends before ((r, owned'), w) = Settled has size before owned r owned' (books w)

  given :
      gives_back has ≡ true
      → (has "cuMemUnmap" ≡ true) × (has "cuMemAddressFree" ≡ true) × (has "cuMemRelease" ≡ true)
  given g = (ground arith, ground arith, ground arith)

  alloc_accessed-Ends :
      (before : Ledger) (padded dev handle at : ℕ) (rc : ℕ) (w : World H)
      → books w ≡ record {
        handles = handle ∷ before.handles;
        reserved = at ∷ before.reserved;
        mapped = at ∷ before.mapped;
      }
      → Ends before (alloc_accessed H has size padded dev handle at owned rc w)
  unfolding alloc_accessed call_found perform ledger post
  alloc_accessed-Ends before padded dev handle at rc w e = elim (Bool-cases (nat_eq rc 0)) [
    | inl h ↦ rw (h, e) (padded, handle, dev, refl, refl, refl, refl)
    | inr h ↦
        rw (h, e)
          (
            refl,
            elim (Bool-cases (gives_back has)) [
              | inl g ↦
                  let (u, f, m) = given g in
                  inl (rw (u, f, m) (rw (remove-first, remove-first, remove-first) refl))
              | inr g ↦ inr g
            ],
          )
  ]

  alloc_mapped-Ends :
      (before : Ledger) (padded dev handle at n h : ℕ) (w : World H)
      → books w
        ≡ record before { handles = handle ∷ before.handles; reserved = at ∷ before.reserved }
      → Ends before (
          let (rc, w') = perform H (mem_map at n h) w in
          alloc_mapped H has size padded dev handle at owned rc w')
  unfolding alloc_mapped call_found perform ledger post
  alloc_mapped-Ends before padded dev handle at n h w e =
      elim (Bool-cases (nat_eq (H.handle (mem_map at n h) w.state).0 0)) [
        | inl k ↦ rw k (alloc_accessed-Ends before padded dev handle at _ _ (rw (k, e) refl))
        | inr k ↦
            rw (k, e, k)
              (
                refl,
                elim (Bool-cases (gives_back has)) [
                  | inl g ↦
                      let (u, f, m) = given g in
                      inl (rw (f, m) (rw (remove-first, remove-first) refl))
                  | inr g ↦ inr g
                ],
              )
      ]

  alloc_reserved-Ends :
      (before : Ledger) (padded dev handle n : ℕ) (w : World H)
      → books w ≡ record before { handles = handle ∷ before.handles }
      → Ends before (
          let (r, w') = perform H (address_reserve n) w in
          alloc_reserved H has size padded dev handle owned r w')
  unfolding alloc_reserved call_found perform ledger post
  alloc_reserved-Ends before padded dev handle n w e =
      elim (Bool-cases (nat_eq (H.handle (address_reserve n) w.state).0.0 0)) [
        | inl k ↦ rw k (alloc_mapped-Ends before padded dev handle _ _ _ _ (rw (k, e) refl))
        | inr k ↦
            rw (k, e, k)
              (
                refl,
                elim (Bool-cases (gives_back has)) [
                  | inl g ↦ let (u, f, m) = given g in inl (rw m (rw remove-first refl))
                  | inr g ↦ inr g
                ],
              )
      ]

  alloc_created-Ends :
      (before : Ledger) (padded dev n : ℕ) (p : MemProp) (w : World H)
      → books w ≡ before
      → Ends before (
          let (r, w') = perform H (mem_create n p) w in
          alloc_created H has size padded dev owned r w')
  unfolding alloc_created perform ledger post
  alloc_created-Ends before padded dev n p w e =
      elim (Bool-cases (nat_eq (H.handle (mem_create n p) w.state).0.0 0)) [
        | inl k ↦ rw k (alloc_reserved-Ends before padded dev _ _ _ (rw (k, e) refl))
        | inr k ↦ rw (k, e, k) (refl, inl refl)
      ]

  books-current_device : (w : World H) → books (current_device H has w).1 ≡ books w
  unfolding current_device perform ledger post
  books-current_device w = elim (Bool-cases (has "cudaGetDevice")) [
    | inl k ↦ rw k refl
    | inr k ↦ rw k refl
  ]

  pub gcr_vmm_alloc-Ends : (w : World H) → Ends (books w) (gcr_vmm_alloc H has size owned w)
  unfolding gcr_vmm_alloc perform ledger post
  gcr_vmm_alloc-Ends w = elim (Bool-cases (alloc_resolved H has)) [
    | inl k ↦ rw k (alloc_created-Ends (books w) _ _ _ _ _ (books-current_device w))
    | inr k ↦ rw k (refl, inl refl)
  ]

-- An allocation takes nothing of the driver, and adds no entry, if it falls back to the real
-- `cudaMalloc`, at whichever call it failed, unless a function that gives back is not found; if it gives an address, it holds one physical memory,
-- one reservation and one mapping more, the last two at that address, and its entry has been added
-- to the table as far as there is room.
pub gcr_vmm_alloc_balanced :
    (H : Handler Op Reply) (has : String → Bool) (size : ℕ) (owned : List Owned) (w : World H)
    → let ((r, owned'), w') = gcr_vmm_alloc H has size owned w in
      Settled has size (ledger w.trace) owned r owned' (ledger w'.trace)
gcr_vmm_alloc_balanced H has size owned w = gcr_vmm_alloc-Ends H has size owned w
