-- ===== src/Copies/Isolation.antt =====
-- Writes after a deep copy: what the original and the copy see of them.
use k8s_native_fast_gpu_chec.Prelude.{ℕ, ◌≤◌, ◌<◌, ◌≡◌, ◌∙◌, ◌⊎◌, inl, inr, Option, arith}
use k8s_native_fast_gpu_chec.Copies.{Ptr, Heap, write, Layout, IsCopy}
use k8s_native_fast_gpu_chec.Copies.Outside.{Outside}
use k8s_native_fast_gpu_chec.Copies.Memory.{Agree-write, Agree-write_below}
use k8s_native_fast_gpu_chec.Copies.Checkpoints.{CheckpointCells, deep_copy_checkpoint}
use k8s_native_fast_gpu_chec.Copies.Checkpoints.Deep.{
  checkpoint_pointer, deep_copy_checkpoint-IsCopy,
}

lt_or_ge : (a b : ℕ) → (a < b) ⊎ (b ≤ a)
lt_or_ge a b = ground arith

module _ {Cell A : Type 0} (L : Layout Cell A) (h : Heap Cell) (a : A) (r : A × Heap Cell)
    (copied : IsCopy L h a r) (p : Ptr) (c : Cell) where
  old_write_unseen : p < h.next → L.view (write p c r.1) r.0 ≡ L.view h a
  old_write_unseen old =
      let below = Agree-write_below p c h.next r.1 old in
      (L.frame h.next r.1 (write p c r.1) r.0 below copied.fresh).0 ∙ copied.same

  new_write_unseen : L.Within 0 h a → h.next ≤ p → L.view (write p c r.1) a ≡ L.view h a
  new_write_unseen w new = (L.frame 0 h (write p c r.1) a (Agree-write p c new copied.keeps) w).0

module _ {Cell : Type 0} (O : Outside Cell) (cells : CheckpointCells O) where
  abbrev V : Layout Cell (Option Ptr)
  V = (checkpoint_pointer O cells).layout

  -- After `DeepCopy` of a GPUCheckpoint that lies in memory, a write anywhere is seen by at most one of
  -- the two: at an address that was in use it leaves the resource that the copy stands for, and at any
  -- other address the resource that the original stands for.
  pub deep_copy_checkpoint_isolated :
      (o : Option Ptr) (h : Heap Cell) (p : Ptr) (c : Cell)
      → V.Within 0 h o
      → (p < h.next)
          × (V.view
                (write p c (deep_copy_checkpoint O cells o h).1)
                (deep_copy_checkpoint O cells o h).0
              ≡ V.view h o)
        ⊎ (h.next ≤ p) × (V.view (write p c (deep_copy_checkpoint O cells o h).1) o ≡ V.view h o)
  deep_copy_checkpoint_isolated o h p c w =
      let copied = deep_copy_checkpoint-IsCopy O cells o h w in
      let r = deep_copy_checkpoint O cells o h in
      elim (lt_or_ge p h.next) [
        | inl old ↦ inl (old, old_write_unseen V h o r copied p c old)
        | inr new ↦ inr (new, new_write_unseen V h o r copied p c w new)
      ]
