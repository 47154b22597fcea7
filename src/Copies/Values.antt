-- ===== src/Copies/Values.antt =====
-- Pointers to values without pointers, and slices of such values: `v := *p; q = &v`, and `make` with the
-- builtin `copy`.
use k8s_native_fast_gpu_chec.Prelude.{◌≤◌, ◌<◌, ◌≡◌, sym, ◌∙◌, Option, none, some, List, arith}
use k8s_native_fast_gpu_chec.Copies.{Ptr, Heap, alloc, write, Agree, Kind, IsCopy, Copier}
use k8s_native_fast_gpu_chec.Copies.Layouts.{flat_layout}
use k8s_native_fast_gpu_chec.Copies.Memory.{
  Agree-alloc, Agree-write, alloc_lem, next-write, load, load-write, load-alloc,
}
use k8s_native_fast_gpu_chec.Copies.Pointers.{PointsWithin, pointer_view-loaded, pointer_layout}
use k8s_native_fast_gpu_chec.Copies.Slices.{zeros_of}

module _ {Cell A : Type 0} (K : Kind Cell A) where
  -- A new cell with a plain value.
  new_value-IsCopy :
      (h g : Heap Cell) (p q : Ptr) (a : A)
      → load K p h ≡ some a
      → Agree 0 h g
      → h.next ≤ q
      → q < g.next
      → load K q g ≡ some a
      → IsCopy (pointer_layout K (flat_layout A)) h p (q, g)
  new_value-IsCopy h g p q a e k above used loaded = record {
    keeps = k;
    fresh = record { above = above; used = used; target = a; loaded = loaded; target_within = tt };
    same =
        pointer_view-loaded K (flat_layout A) g q a loaded
        ∙ sym (pointer_view-loaded K (flat_layout A) h p a e);
  }

  abbrev value_at : Ptr → Option A → Heap Cell → Ptr × Heap Cell
  value_at p none h = (p, h)
  value_at p (some a) h = alloc (K.wrap a) h

  -- `v := *p; return &v`, for a pointer that is not nil.
  unfoldable pub copy_value : Ptr → Heap Cell → Ptr × Heap Cell
  copy_value p h = value_at p (load K p h) h

  value_at-IsCopy :
      (h : Heap Cell) (p : Ptr) (a : A)
      → load K p h ≡ some a
      → IsCopy (pointer_layout K (flat_layout A)) h p (alloc (K.wrap a) h)
  unfolding alloc
  value_at-IsCopy h p a e =
      new_value-IsCopy h (alloc (K.wrap a) h).1 p h.next a e (Agree-alloc (K.wrap a) h)
        (omega arith) (omega arith) (load-alloc K a h)

  pub copy_value-IsCopy :
      (h : Heap Cell) (p : Ptr)
      → PointsWithin K (flat_layout A) 0 h p
      → IsCopy (pointer_layout K (flat_layout A)) h p (copy_value p h)
  unfolding copy_value
  copy_value-IsCopy h p w = rw w.loaded (value_at-IsCopy h p w.target w.loaded)

  abbrev pub value : Copier Cell Ptr
  value = record {
    layout = pointer_layout K (flat_layout A);
    copy = copy_value;
    copies = copy_value-IsCopy;
  }

module _ {Cell A : Type 0} (K : Kind Cell (List A)) (zero_element : A) where
  -- `l := make([]T, len(in)); copy(l, in)`
  abbrev copy_elements : List A → Heap Cell → Ptr × Heap Cell
  copy_elements xs h =
      let (q, h₁) = alloc (K.wrap (zeros_of zero_element xs)) h in (q, write q (K.wrap xs) h₁)

  abbrev elements_at : Ptr → Option (List A) → Heap Cell → Ptr × Heap Cell
  elements_at p none h = (p, h)
  elements_at p (some xs) h = copy_elements xs h

  unfoldable pub copy_plain_slice : Ptr → Heap Cell → Ptr × Heap Cell
  copy_plain_slice p h = elements_at p (load K p h) h

  copy_elements-IsCopy :
      (h : Heap Cell) (p : Ptr) (xs : List A)
      → load K p h ≡ some xs
      → IsCopy (pointer_layout K (flat_layout (List A))) h p (copy_elements xs h)
  copy_elements-IsCopy h p xs e =
      let (q, h₁) = alloc (K.wrap (zeros_of zero_element xs)) h in
      let (q_eq, next₁) = alloc_lem (K.wrap (zeros_of zero_element xs)) h in
      new_value-IsCopy K h (write q (K.wrap xs) h₁) p q xs e
        (Agree-write q (K.wrap xs) (omega arith) (Agree-alloc _ h)) (omega arith)
        (next-write q (K.wrap xs) h₁ (omega arith)) (load-write K q xs h₁)

  pub copy_plain_slice-IsCopy :
      (h : Heap Cell) (p : Ptr)
      → PointsWithin K (flat_layout (List A)) 0 h p
      → IsCopy (pointer_layout K (flat_layout (List A))) h p (copy_plain_slice p h)
  unfolding copy_plain_slice
  copy_plain_slice-IsCopy h p w = rw w.loaded (copy_elements-IsCopy h p w.target w.loaded)

  abbrev pub plain_slice : Copier Cell Ptr
  plain_slice = record {
    layout = pointer_layout K (flat_layout (List A));
    copy = copy_plain_slice;
    copies = copy_plain_slice-IsCopy;
  }
