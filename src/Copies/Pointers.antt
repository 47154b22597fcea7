-- ===== src/Copies/Pointers.antt =====
-- Pointers and slices as values in memory: what they stand for is read at their address.
use k8s_native_fast_gpu_chec.Prelude.{◌≤◌, ◌<◌, ◌≡◌, sym, ap, ◌∙◌, Option, some, arith}
use k8s_native_fast_gpu_chec.Copies.{Ptr, Heap, Agree, Kind, Layout}
use k8s_native_fast_gpu_chec.Copies.Layouts.{opt_view}
use k8s_native_fast_gpu_chec.Copies.Memory.{load, load-Agree}

module _ {Cell A : Type 0} (K : Kind Cell A) (L : Layout Cell A) where
  abbrev pub pointer_view : Heap Cell → Ptr → Option L.View
  pointer_view h p = opt_view L h (load K p h)

  pub record PointsWithin (lo : Ptr) (h : Heap Cell) (p : Ptr) : Type 0 where
    pub above : lo ≤ p
    pub used : p < h.next
    pub target : A
    pub loaded : load K p h ≡ some target
    pub target_within : L.Within lo h target

  pub pointer_view-loaded :
      (h : Heap Cell) (p : Ptr) (a : A) → load K p h ≡ some a → pointer_view h p ≡ some (L.view h a)
  pointer_view-loaded h p a e = ap (opt_view L h) e

  pub PointsWithin-frame :
      (lo : Ptr) (h g : Heap Cell) (p : Ptr)
      → Agree lo h g
      → PointsWithin lo h p
      → (pointer_view g p ≡ pointer_view h p) × PointsWithin lo g p
  PointsWithin-frame lo h g p e w =
      let (same, within) = L.frame lo h g w.target e w.target_within in
      let loaded = load-Agree K p e w.above w.used ∙ w.loaded in
      (
        pointer_view-loaded g p w.target loaded
            ∙ ap some same
            ∙ sym (pointer_view-loaded h p w.target w.loaded),
        record {
          above = w.above;
          used = omega (arith, w.used, e.grows);
          target = w.target;
          loaded = loaded;
          target_within = within;
        },
      )

  pub PointsWithin-weaken :
      (lo lo' : Ptr) (h : Heap Cell) (p : Ptr)
      → lo' ≤ lo
      → PointsWithin lo h p
      → PointsWithin lo' h p
  PointsWithin-weaken lo lo' h p l w = record {
    above = omega (arith, w.above);
    used = w.used;
    target = w.target;
    loaded = w.loaded;
    target_within = L.weaken lo lo' h w.target l w.target_within;
  }

  abbrev pub pointer_layout : Layout Cell Ptr
  pointer_layout = record {
    View = Option L.View;
    view = pointer_view;
    Within = PointsWithin;
    frame = PointsWithin-frame;
    weaken = PointsWithin-weaken;
  }
