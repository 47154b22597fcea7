-- ===== src/Copies/Structs.antt =====
-- The copy of a struct behind a pointer.
use k8s_native_fast_gpu_chec.Prelude.{suc, ◌≡◌, sym, ap, ◌∙◌, Option, none, some, arith}
use k8s_native_fast_gpu_chec.Copies.{Ptr, Heap, alloc, write, Kind, IsCopy, Copier}
use k8s_native_fast_gpu_chec.Copies.Layouts.{Agree-trans}
use k8s_native_fast_gpu_chec.Copies.Memory.{
  Agree-alloc, Agree-write, next-write, alloc_lem, Agree-write_below, load, load-write,
}
use k8s_native_fast_gpu_chec.Copies.Pointers.{PointsWithin, pointer_view-loaded, pointer_layout}

module _ {Cell : Type 0} where
  -- `if c := in.DeepCopy(); c != nil { return c }; return nil`
  abbrev pub as_object : Option Ptr × Heap Cell → Option Ptr × Heap Cell
  as_object (none, h) = (none, h)
  as_object (some p, h) = (some p, h)

  -- Pointers to structs.
  module _ {A : Type 0} (K : Kind Cell A) (copy : A → Heap Cell → A × Heap Cell) where
    -- `out := new(T); in.DeepCopyInto(out); return out`, for the struct that `in` points to.
    unfoldable pub copy_struct : A → Heap Cell → Ptr × Heap Cell
    copy_struct a h =
        let (q, h₁) = alloc (K.wrap K.zero_value) h in
        let (a', h₂) = copy a h₁ in (q, write q (K.wrap a') h₂)

    abbrev deep_copy_loaded : Ptr → Option A → Heap Cell → Ptr × Heap Cell
    deep_copy_loaded p none h = (p, h)
    deep_copy_loaded p (some a) h = copy_struct a h

    -- `DeepCopy` of a pointer that is not nil. Memory without a struct there does not occur.
    unfoldable pub deep_copy_pointer : Ptr → Heap Cell → Ptr × Heap Cell
    deep_copy_pointer p h = deep_copy_loaded p (load K p h) h

  module _ {A : Type 0} (K : Kind Cell A) (C : Copier Cell A) where
    pub copy_struct-IsCopy :
        (h : Heap Cell) (p : Ptr) (a : A)
        → load K p h ≡ some a
        → C.layout.Within 0 h a
        → IsCopy (pointer_layout K C.layout) h p (copy_struct K C.copy a h)
    unfolding copy_struct
    copy_struct-IsCopy h p a e w =
        let (q, h₁) = alloc (K.wrap K.zero_value) h in
        let (a', h₂) = C.copy a h₁ in
        let made = Agree-alloc (K.wrap K.zero_value) h in
        let (same_a, w₁) = C.layout.frame 0 h h₁ a made w in
        let c = C.copies h₁ a w₁ in
        let (q_eq, next₁) = alloc_lem (K.wrap K.zero_value) h in
        let below = Agree-write_below q (K.wrap a') (suc q) h₂ (omega arith) in
        let (same_w, w₂) =
          C.layout.frame (suc q) h₂ (write q (K.wrap a') h₂) a' below
            (C.layout.weaken h₁.next (suc q) h₂ a' (omega arith) c.fresh) in
        let loaded = load-write K q a' h₂ in
        record {
          keeps = Agree-write q (K.wrap a') (omega arith) (Agree-trans made c.keeps);
          fresh = record {
            above = omega arith;
            used = next-write q (K.wrap a') h₂ (omega (arith, c.keeps.grows));
            target = a';
            loaded = loaded;
            target_within = C.layout.weaken (suc q) h.next _ a' (omega arith) w₂;
          };
          same =
              pointer_view-loaded K C.layout _ q a' loaded
              ∙ ap some (same_w ∙ c.same ∙ same_a)
              ∙ sym (pointer_view-loaded K C.layout h p a e);
        }

    pub deep_copy_pointer-IsCopy :
        (h : Heap Cell) (p : Ptr)
        → PointsWithin K C.layout 0 h p
        → IsCopy (pointer_layout K C.layout) h p (deep_copy_pointer K C.copy p h)
    unfolding deep_copy_pointer
    deep_copy_pointer-IsCopy h p w =
        rw w.loaded (copy_struct-IsCopy h p w.target w.loaded w.target_within)

    abbrev pub pointer : Copier Cell Ptr
    pointer = record {
      layout = pointer_layout K C.layout;
      copy = deep_copy_pointer K C.copy;
      copies = deep_copy_pointer-IsCopy;
    }
