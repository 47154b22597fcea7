-- ===== src/Shim/Offload/Remapping.antt =====
-- interceptor/preload.c: what `restore_remap` leaves.
use k8s_native_fast_gpu_chec.Prelude.{
  ℕ, ◌+◌, ◌<◌, String, Bool, true, false, List, [], ◌∷◌, none, ◌≡◌, refl, sym, ap, ◌∙◌, All, nat_eq,
  if◌then◌else◌,
}
use mathlib.Core.Path.{subst}
use k8s_native_fast_gpu_chec.Effect.{Handler, World, pure, perform}
use k8s_native_fast_gpu_chec.Shim.Calls.{
  Op, Reply, MemProp, remap, mem_create, mem_map, set_access, set_device, device_sync,
}
use k8s_native_fast_gpu_chec.Shim.Owned.{Owned, call_if, read_write}
use k8s_native_fast_gpu_chec.Shim.Copying.{selected, pipe_copy}
use k8s_native_fast_gpu_chec.Shim.Engine.{
  Engine, remap_all, remap_one, copy_in, thaw, blob_need, blob_reopen, is_some, remap_buffers,
  remap_resolved, restore_remap, gcr_stage_init, pipe_ready,
}
use k8s_native_fast_gpu_chec.Shim.Machine.{Bytes, Memory, SameBelow, Machine, Reliable, memory, law}
use k8s_native_fast_gpu_chec.Shim.Transport.Rounds.{bytes, Idle}
use k8s_native_fast_gpu_chec.Shim.Transport.Choice.{call_if-memory}
use k8s_native_fast_gpu_chec.Shim.Offload.Whole.{move_all, Addressed, remap_copies}
use k8s_native_fast_gpu_chec.Shim.Offload.Places.{froze, needed, Unfrozen, Stored, Fits}
use k8s_native_fast_gpu_chec.Shim.Offload.Back.{Apart, Back, move_all-Back}
use k8s_native_fast_gpu_chec.Shim.Offload.Table.{
  froze-FrozenApart, froze-Addressed, blob_need-froze,
}
use k8s_native_fast_gpu_chec.Shim.Offload.Entries.{
  Pairwise, Rehandled, Returned, Intact, move_all-Rehandled, Rehandled-Addressed, thaw-Returned,
  froze-Intact,
}
use k8s_native_fast_gpu_chec.Shim.Offload.Quiet.{
  if_either, gcr_stage_init-Unharmed, blob_map-Mapped,
}
use k8s_native_fast_gpu_chec.Shim.Offload.Releasing.{HostKept, SameHost-refl, SameHost-trans}
use k8s_native_fast_gpu_chec.Shim.Offload.Freezing.{Idle-settled}

module _ (H : Handler Op Reply) (has : String → Bool) (data_dir : String) (machine : Machine H)
    (reliable : Reliable H) where
  create_succeeds : (n : ℕ) (p : MemProp) (w : World H) → (perform H (mem_create n p) w).0.0 ≡ 0
  unfolding perform
  create_succeeds n p w = reliable.creates n p w.state

  map_succeeds : (at n h : ℕ) (w : World H) → (perform H (mem_map at n h) w).0 ≡ 0
  unfolding perform
  map_succeeds at n h w = reliable.maps at n h w.state

  -- A buffer gets new physical memory at its address.
  remap_one-kept :
      (o : Owned) (w : World H)
      → let (o', w') = remap_one H has data_dir o w in
        Rehandled o o' × HostKept H has data_dir machine w w'
  unfolding remap_one
  remap_one-kept o w =
      let r = perform H (mem_create o.padded o.prop) w in
      let w₂ = (perform H (mem_map o.va o.padded r.0.1) r.1).1 in
      let grant = set_access o.va o.padded (read_write o.prop.location_id) in
      rw (create_succeeds o.padded o.prop w, map_succeeds o.va o.padded r.0.1 r.1)
        (
          (r.0.1, refl),
          SameHost-trans (memory machine w) (memory machine r.1) _
              (law machine (mem_create o.padded o.prop) w)
              (SameHost-trans (memory machine r.1) (memory machine w₂) _
                (law machine (mem_map o.va o.padded r.0.1) r.1) (law machine grant w₂)),
        )

  remap_all-kept :
      (os : List Owned) (w : World H)
      → let (os', w') = remap_all H has data_dir os w in
        Pairwise Rehandled os os' × HostKept H has data_dir machine w w'
  unfolding remap_all
  remap_all-kept [] w = (tt, SameHost-refl (memory machine w) _ refl)
  remap_all-kept (o ∷ os) w =
      let r = (if selected remap o then remap_one H has data_dir o else pure o) w in
      let (first, kept) =
        if_either (λ r. Rehandled o r.0 × HostKept H has data_dir machine w r.1) (selected remap o)
          (remap_one H has data_dir o) (pure o) w (remap_one-kept o w)
          ((o.handle, refl), SameHost-refl (memory machine w) _ refl) in
      let (rest, kept') = remap_all-kept os r.1 in
      ((first, rest), SameHost-trans (memory machine w) (memory machine r.1) _ kept kept')

-- The engine and the memory once the buffers `os` are back: each entry has its address and its size,
-- and is not frozen, and the addresses of each live buffer hold the bytes `d`.
pub record BroughtBack (os : List Owned) (d : Bytes) (e : Engine) (m : Memory) : Type 0 where
  pub entries : Pairwise Returned os e.owned
  pub intact : All (Intact d m.dev) os
  pub gate_free : e.in_remap ≡ false
  pub idle : Idle m

module _ (H : Handler Op Reply) (has : String → Bool) (data_dir : String) (machine : Machine H)
    (reliable : Reliable H) (os : List Owned) (unfrozen : Unfrozen os) (apart : Apart os)
    (addressed : All Addressed os) (fits : Fits 0 os) where
  abbrev end : ℕ
  end = 0 + needed os

  blob_reopen-memory :
      (e : Engine) (w : World H)
      → e.owned ≡ froze os 0
      → e.blob ≡ none
      → nat_eq end 0 ≡ false
      → let (e', w') = blob_reopen H has data_dir e w in
        (is_some e'.blob ≡ true)
        × (e'.owned ≡ froze os 0)
        × SameBelow end (memory machine w) (memory machine w')
  unfolding blob_reopen
  blob_reopen-memory e w owned gone some_bytes =
      let need : blob_need e.owned 0 ≡ end =
        ap (λ t. blob_need t 0) owned ∙ blob_need-froze os 0 fits unfrozen in
      let (mapped, there, owned', gate', below) =
        blob_map-Mapped H has data_dir machine reliable end e w in
      rw (ap is_some gone, need, some_bytes) (there, owned' ∙ owned, below)

  -- From the data in the blob, once the buffers have physical memory again.
  remap_mapped-BroughtBack :
      (entries : List Owned) (ready mapped : Bool) (w : World H) (d f : Bytes)
      → entries ≡ froze os 0
      → mapped ≡ true
      → Idle (memory machine w)
      → All (Stored d f end) (froze os 0)
      → ((x : ℕ) → x < end → (memory machine w).file x ≡ f x)
      → let (list, w₁) = remap_all H has data_dir entries w in
        let (r, w₂) = pipe_copy H has remap ready list w₁ in
        let w₃ = (copy_in H has data_dir r mapped list w₂).1 in
        Pairwise Returned os (thaw list)
        × All (Intact d (memory machine w₃).dev) os
        × Idle (memory machine w₃)
  remap_mapped-BroughtBack entries ready mapped w d f owned there idle stored agree =
      let (list, w₁) = remap_all H has data_dir entries w in
      let (rehandled', kept) = remap_all-kept H has data_dir machine reliable entries w in
      let rehandled : Pairwise Rehandled (froze os 0) list =
        subst (λ t. Pairwise Rehandled t list) owned rehandled' in
      let m₁ = memory machine w₁ in
      let (moved, idle₃) =
        remap_copies H has data_dir machine reliable ready list w₁
          (Rehandled-Addressed (froze os 0) list rehandled (froze-Addressed os 0 addressed))
          (Idle-settled (memory machine w) m₁ kept.same_settled kept.same_running idle) in
      let dev = (move_all remap (froze os 0) (bytes m₁)).0 in
      let brought : All (Back dev m₁.file) (froze os 0) =
        move_all-Back (froze os 0) m₁.dev m₁.file (froze-FrozenApart os 0 unfrozen apart) in
      rw there (
        thaw-Returned os list 0 rehandled,
        subst (λ t. All (Intact d t) os)
            (sym
              (ap (λ p. p.0) (moved ∙ move_all-Rehandled (froze os 0) list (bytes m₁) rehandled)))
            (froze-Intact d dev f m₁.file end os 0 unfrozen
              (λ x k. ap (λ t. t x) kept.same_file ∙ agree x k) stored brought),
        idle₃,
      )

  remap_buffers-BroughtBack :
      (e : Engine) (w : World H) (d f : Bytes)
      → e.owned ≡ froze os 0
      → e.blob ≡ none
      → nat_eq end 0 ≡ false
      → Idle (memory machine w)
      → All (Stored d f end) (froze os 0)
      → ((x : ℕ) → x < end → (memory machine w).file x ≡ f x)
      → let (e', w') = remap_buffers H has data_dir e w in BroughtBack os d e' (memory machine w')
  unfolding remap_buffers
  remap_buffers-BroughtBack e w d f owned gone some_bytes idle stored agree =
      let (e₁, w₁) = gcr_stage_init H has data_dir e w in
      let (unharmed, (owned₁, gate₁, blob₁)) = gcr_stage_init-Unharmed H has data_dir machine e w in
      let (e₂, w₂) = blob_reopen H has data_dir e₁ w₁ in
      let (there, owned₂, below) =
        blob_reopen-memory e₁ w₁ (owned₁ ∙ owned) (blob₁ ∙ gone) some_bytes in
      let w₃ = (call_if H has "cudaSetDevice" (set_device 0) w₂).1 in
      let same : memory machine w₃ ≡ memory machine w₂ =
        call_if-memory H has machine "cudaSetDevice" (set_device 0) w₂
          (law machine (set_device 0) w₂) in
      let (list, w₄) = remap_all H has data_dir e₂.owned w₃ in
      let (r, w₅) = pipe_copy H has remap (pipe_ready e₂) list w₄ in
      let w₆ = (copy_in H has data_dir r (is_some e₂.blob) list w₅).1 in
      let (entries, intact, idle₆) =
        remap_mapped-BroughtBack e₂.owned (pipe_ready e₂) (is_some e₂.blob) w₃ d f owned₂ there
          (Idle-settled (memory machine w) (memory machine w₃)
            (ap (λ t. t.settled) same ∙ below.same_settled ∙ unharmed.same_settled)
            (ap (λ t. t.running) same ∙ below.same_running ∙ unharmed.same_running) idle)
          stored
          (λ x k.
            ap (λ t. t.file x) same
            ∙ below.same_below x k
            ∙ ap (λ t. t x) unharmed.same_file
            ∙ agree x k) in
      let synced =
        call_if-memory H has machine "cudaDeviceSynchronize" device_sync w₆
          (law machine device_sync w₆) in
      record {
        entries = entries;
        intact = subst (λ m. All (Intact d m.dev) os) (sym synced) intact;
        gate_free = refl;
        idle = subst Idle (sym synced) idle₆;
      }

  pub restore_remap-BroughtBack :
      (e : Engine) (w : World H) (d f : Bytes)
      → remap_resolved H has data_dir ≡ true
      → e.owned ≡ froze os 0
      → e.blob ≡ none
      → nat_eq end 0 ≡ false
      → Idle (memory machine w)
      → All (Stored d f end) (froze os 0)
      → ((x : ℕ) → x < end → (memory machine w).file x ≡ f x)
      → let (e', w') = restore_remap H has data_dir e w in BroughtBack os d e' (memory machine w')
  unfolding restore_remap
  restore_remap-BroughtBack e w d f resolved owned gone some_bytes idle stored agree = rw resolved (
      remap_buffers-BroughtBack (record e { in_remap = true }) w d f owned gone some_bytes idle
        stored agree)
