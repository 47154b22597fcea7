-- ===== src/Shim/Offload/Freezing.antt =====
-- interceptor/preload.c: what `checkpoint_freeze` leaves.
use k8s_native_fast_gpu_chec.Prelude.{
  ◌+◌, String, Bool, true, false, List, none, ◌≡◌, refl, sym, ap, ◌∙◌, All, nat_eq,
}
use mathlib.Core.Path.{subst}
use k8s_native_fast_gpu_chec.Effect.{Handler, World}
use k8s_native_fast_gpu_chec.Shim.Calls.{Op, Reply, a, b, freeze, set_device, device_sync}
use k8s_native_fast_gpu_chec.Shim.Owned.{Owned, call_if}
use k8s_native_fast_gpu_chec.Shim.Copying.{pipe_copy}
use k8s_native_fast_gpu_chec.Shim.Engine.{
  Engine, assign_offsets, release_all, copy_out, blob_close, freeze_mapped, freeze_into,
  freeze_buffers, freeze_resolved, checkpoint_freeze, gcr_stage_init, blob_map, pipe_ready,
}
use k8s_native_fast_gpu_chec.Shim.Machine.{Bytes, Memory, Machine, Reliable, memory, law}
use k8s_native_fast_gpu_chec.Shim.Transport.Rounds.{bytes, Idle}
use k8s_native_fast_gpu_chec.Shim.Transport.Choice.{call_if-memory}
use k8s_native_fast_gpu_chec.Shim.Offload.Whole.{move_all, Addressed, freeze_copies}
use k8s_native_fast_gpu_chec.Shim.Offload.Places.{
  froze, needed, Unfrozen, Stored, Fits, froze-Stored,
}
use k8s_native_fast_gpu_chec.Shim.Offload.Table.{assign_offsets-Addressed}
use k8s_native_fast_gpu_chec.Shim.Offload.Quiet.{gcr_stage_init-Unharmed, blob_map-Mapped}
use k8s_native_fast_gpu_chec.Shim.Offload.Releasing.{
  release_list, release_list-froze, release_all-list, release_all-HostKept, blob_close-memory,
}

-- The engine and the memory once the buffers `os`, with the device's bytes `d`, were offloaded: every
-- live buffer is frozen with its place, the gate is up, the blob is not mapped, the bytes of each
-- frozen buffer are in the blob below the end, and no copy is under way.
pub record Offloaded (os : List Owned) (d : Bytes) (e : Engine) (m : Memory) : Type 0 where
  pub table : e.owned ≡ froze os 0
  pub gate_up : e.gate ≡ true
  pub unmapped : e.blob ≡ none
  pub stored : All (Stored d m.file (0 + needed os)) (froze os 0)
  pub idle : Idle m

pub Offloaded-device :
    {os : List Owned} {d d' : Bytes} {e : Engine} {m : Memory}
    → d ≡ d'
    → Offloaded os d e m
    → Offloaded os d' e m
Offloaded-device {os} {e} {m} q h = subst (λ d. Offloaded os d e m) q h

pub Idle-settled :
    (m m' : Memory) → m'.settled ≡ m.settled → m'.running ≡ m.running → Idle m → Idle m'
Idle-settled m m' e r (x, y, i) = (ap (λ f. f a) e ∙ x, ap (λ f. f b) e ∙ y, r ∙ i)

module _ (H : Handler Op Reply) (has : String → Bool) (data_dir : String) (machine : Machine H)
    (reliable : Reliable H) (os : List Owned) (unfrozen : Unfrozen os)
    (addressed : All Addressed os) (fits : Fits 0 os) where
  freeze_mapped-Offloaded :
      (e : Engine) (w : World H)
      → e.owned ≡ (assign_offsets os 0).0
      → e.gate ≡ true
      → Idle (memory machine w)
      → let (e', w') = freeze_mapped H has data_dir e w in
        Offloaded os (memory machine w).dev e' (memory machine w')
  unfolding freeze_mapped
  freeze_mapped-Offloaded e w owned gate idle =
      let m = memory machine w in
      let placed = (assign_offsets os 0).0 in
      let (r, w₁) = pipe_copy H has freeze (pipe_ready e) e.owned w in
      let w₂ = (copy_out H has data_dir r e.owned w₁).1 in
      let (moved, idle₂) =
        freeze_copies H has data_dir machine reliable (pipe_ready e) e.owned w
          (subst (All Addressed) (sym owned) (assign_offsets-Addressed os 0 addressed)) idle in
      let (list, w₃) = release_all H has data_dir e.owned w₂ in
      let list_eq = release_all-list H has data_dir e.owned w₂ in
      let kept = release_all-HostKept H has data_dir machine e.owned w₂ in
      let e₃ : Engine = record e { owned = list } in
      let (same, gone, owned₄, gate₄) = blob_close-memory H has data_dir machine e₃ w₃ in
      let w₄ = (blob_close H has data_dir e₃ w₃).1 in
      let file : (memory machine w₄).file ≡ (move_all freeze placed (bytes m)).1 =
        ap (λ t. t.file) same
        ∙ kept.same_file
        ∙ ap (λ p. p.1) moved
        ∙ ap (λ t. (move_all freeze t (bytes m)).1) owned in
      record {
        table = owned₄ ∙ list_eq ∙ ap release_list owned ∙ release_list-froze os 0 fits;
        gate_up = gate₄ ∙ gate;
        unmapped = gone;
        stored =
            subst (λ f. All (Stored m.dev f (0 + needed os)) (froze os 0)) (sym file)
              (froze-Stored os 0 m.dev m.file fits unfrozen).1;
        idle =
            Idle-settled (memory machine w₂) (memory machine w₄)
              (ap (λ t. t.settled) same ∙ kept.same_settled)
              (ap (λ t. t.running) same ∙ kept.same_running) idle₂;
      }

  freeze_into-Offloaded :
      (e : Engine) (w : World H)
      → e.owned ≡ (assign_offsets os 0).0
      → e.gate ≡ true
      → Idle (memory machine w)
      → let (e', w') = freeze_into H has data_dir (assign_offsets os 0).1 e w in
        Offloaded os (memory machine w).dev e' (memory machine w')
  unfolding freeze_into
  freeze_into-Offloaded e w owned gate idle =
      let total = (assign_offsets os 0).1 in
      let r = blob_map H has data_dir total e w in
      let (mapped, is_there, owned', gate', below) =
        blob_map-Mapped H has data_dir machine reliable total e w in
      let done = freeze_mapped-Offloaded r.0.1 r.1 (owned' ∙ owned) (gate' ∙ gate) (
        Idle-settled (memory machine w) (memory machine r.1) below.same_settled below.same_running
          idle) in
      rw mapped (Offloaded-device below.same_dev done)

  freeze_buffers-Offloaded :
      (e : Engine) (w : World H)
      → e.owned ≡ os
      → nat_eq (assign_offsets os 0).1 0 ≡ false
      → Idle (memory machine w)
      → let (e', w') = freeze_buffers H has data_dir e w in
        Offloaded os (memory machine w).dev e' (memory machine w')
  unfolding freeze_buffers
  freeze_buffers-Offloaded e w owned some_bytes idle =
      let w₁ = (call_if H has "cudaSetDevice" (set_device 0) w).1 in
      let w₂ = (call_if H has "cudaDeviceSynchronize" device_sync w₁).1 in
      let same : memory machine w₂ ≡ memory machine w =
        call_if-memory H has machine "cudaDeviceSynchronize" device_sync w₁
          (law machine device_sync w₁)
        ∙ call_if-memory H has machine "cudaSetDevice" (set_device 0) w
            (law machine (set_device 0) w) in
      rw (owned, some_bytes)
        (Offloaded-device (ap (λ t. t.dev) same) (
          freeze_into-Offloaded
            (record e { gate = true; owned = (assign_offsets os 0).0; in_remap = true }) w₂ refl
            refl (subst Idle (sym same) idle)))

  pub checkpoint_freeze-Offloaded :
      (e : Engine) (w : World H)
      → freeze_resolved H has data_dir ≡ true
      → e.owned ≡ os
      → nat_eq (assign_offsets os 0).1 0 ≡ false
      → Idle (memory machine w)
      → let (e', w') = checkpoint_freeze H has data_dir e w in
        Offloaded os (memory machine w).dev e' (memory machine w')
  unfolding checkpoint_freeze
  checkpoint_freeze-Offloaded e w resolved owned some_bytes idle =
      let r = gcr_stage_init H has data_dir e w in
      let (unharmed, (owned', gate', blob')) = gcr_stage_init-Unharmed H has data_dir machine e w in
      rw resolved (
        Offloaded-device unharmed.same_dev (
          freeze_buffers-Offloaded r.0 r.1 (owned' ∙ owned) some_bytes (
            Idle-settled (memory machine w) (memory machine r.1) unharmed.same_settled
              unharmed.same_running idle)))
