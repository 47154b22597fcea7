-- ===== src/Shim/Owned/Freeing.antt =====
-- interceptor/preload.c: freeing what the allocator gave.
use k8s_native_fast_gpu_chec.Prelude.{
  ℕ, String, Bool, true, false, List, [], ◌∷◌, ◌++◌, ◌≡◌, refl, ap, ◌∙◌, All, some, length, ltb,
}
use mathlib.Core.Path.{subst}
use k8s_native_fast_gpu_chec.Effect.{Handler, World, perform}
use k8s_native_fast_gpu_chec.Shim.Calls.{Op, Reply}
use k8s_native_fast_gpu_chec.Shim.Registry.{gcr_max_vmm, push_within}
use k8s_native_fast_gpu_chec.Shim.Registry.Counting.{living, living-retire-push_within}
use k8s_native_fast_gpu_chec.Shim.Owned.{
  Owned, gcr_vmm_alloc, gcr_vmm_free, free_found, find_owned, owned_at, kill_owned, new_owned,
  call_if,
}
use k8s_native_fast_gpu_chec.Shim.Owned.Ledger.{
  Ledger, remove, post, ledger, nat_eq_self, remove-first, Settled, gcr_vmm_alloc-Ends,
}

abbrev owned_live : Owned → Bool
owned_live o = o.live

-- No live buffer starts at `at`.
abbrev pub Unowned : ℕ → List Owned → Type 0
Unowned at = All (λ (o : Owned). owned_at at o ≡ false)

find_owned_last :
    (at : ℕ) (os : List Owned) (o : Owned)
    → Unowned at os
    → owned_at at o ≡ true
    → find_owned at (os ++ o ∷ []) ≡ some o
unfolding find_owned
find_owned_last at [] o h t = rw t refl
find_owned_last at (x ∷ os) o (h, hs) t = rw h (find_owned_last at os o hs t)

push_within_room :
    (os : List Owned) (o : Owned)
    → ltb (length os) gcr_max_vmm ≡ true
    → push_within gcr_max_vmm os o ≡ os ++ o ∷ []
unfolding push_within
push_within_room os o h = rw h refl

module _ (H : Handler Op Reply) (has : String → Bool) where
  -- What the driver and the table are left with once a buffer was freed.
  ledger-free_found :
      (owned : List Owned) (at : ℕ) (o : Owned) (w : World H)
      → has "cuMemUnmap" ≡ true
      → has "cuMemRelease" ≡ true
      → has "cuMemAddressFree" ≡ true
      → ledger (free_found H has owned at (some o) w).1.trace ≡ record {
        handles = remove o.handle (ledger w.trace).handles;
        reserved = remove o.va (ledger w.trace).reserved;
        mapped = remove o.va (ledger w.trace).mapped;
      }
  unfolding free_found call_if perform ledger post
  ledger-free_found owned at o w u r f = rw (u, r, f) refl

  -- Freeing the buffer that was entered last.
  freed_last :
      (size padded dev at handle : ℕ) (owned owned' : List Owned) (l : Ledger) (w : World H)
      → owned' ≡ push_within gcr_max_vmm owned (new_owned at padded size handle dev)
      → (ledger w.trace).handles ≡ handle ∷ l.handles
      → (ledger w.trace).reserved ≡ at ∷ l.reserved
      → (ledger w.trace).mapped ≡ at ∷ l.mapped
      → Unowned at owned
      → ltb (length owned) gcr_max_vmm ≡ true
      → has "cuMemUnmap" ≡ true
      → has "cuMemRelease" ≡ true
      → has "cuMemAddressFree" ≡ true
      → let ((found, owned''), w'') = gcr_vmm_free H has at owned' w in
        (found ≡ true)
        × (living owned_live owned'' ≡ living owned_live owned)
        × (ledger w''.trace ≡ l)
  unfolding gcr_vmm_free new_owned free_found
  freed_last size padded dev at handle owned owned' l w pushed hs rs ms h room u r f =
      let o = new_owned at padded size handle dev in
      let found : find_owned at owned' ≡ some o =
        ap (find_owned at) (pushed ∙ push_within_room owned o room)
        ∙ find_owned_last at owned o h (nat_eq_self at) in
      rw found (
        refl,
        rw pushed (
            living-retire-push_within owned_live (owned_at at) kill_owned gcr_max_vmm owned o h
              (nat_eq_self at) refl),
        ledger-free_found owned' at o w u r f
            ∙ rw (hs, rs, ms, remove-first, remove-first, remove-first) refl,
      )

  -- If no live buffer starts at the address that an allocation gives, the table has room for one
  -- entry more and the driver's calls that give memory back are found, then freeing that address
  -- finds the buffer, leaves the live buffers as they were before the allocation, and leaves no
  -- physical memory, reservation or mapping more than there was.
  pub gcr_vmm_free-gcr_vmm_alloc :
      (size : ℕ) (owned : List Owned) (w : World H) (at : ℕ)
      → let ((r, owned'), w') = gcr_vmm_alloc H has size owned w in
        r ≡ some at
        → Unowned at owned
        → ltb (length owned) gcr_max_vmm ≡ true
        → has "cuMemUnmap" ≡ true
        → has "cuMemRelease" ≡ true
        → has "cuMemAddressFree" ≡ true
        → let ((found, owned''), w'') = gcr_vmm_free H has at owned' w' in
          (found ≡ true)
          × (living owned_live owned'' ≡ living owned_live owned)
          × (ledger w''.trace ≡ ledger w.trace)
  gcr_vmm_free-gcr_vmm_alloc size owned w at e h room u r f =
      let ((r', owned'), w') = gcr_vmm_alloc H has size owned w in
      let (padded, handle, dev, pushed, hs, rs, ms) =
        subst (λ t. Settled has size (ledger w.trace) owned t owned' (ledger w'.trace)) e
          (gcr_vmm_alloc-Ends H has size owned w) in
      freed_last size padded dev at handle owned owned' (ledger w.trace) w' pushed hs rs ms h room u
        r f
