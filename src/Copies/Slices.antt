-- ===== src/Copies/Slices.antt =====
-- The copy of a slice: an array at a new address, filled element by element.
use k8s_native_fast_gpu_chec.Prelude.{
  suc, ◌≤◌, ◌<◌, ◌≡◌, refl, sym, ap, ◌∙◌, Option, none, some, List, [], ◌∷◌, ◌++◌, map, arith, All,
  All-append,
}
use mathlib.Core.List.{append-nil, append_assoc, map-append}
use k8s_native_fast_gpu_chec.Copies.{Ptr, Heap, alloc, write, Agree, Kind, Layout, IsCopy, Copier}
use k8s_native_fast_gpu_chec.Copies.Layouts.{Agree-trans, Agree-above}
use k8s_native_fast_gpu_chec.Copies.Memory.{
  Agree-alloc, Agree-write, next-write, Agree-write_below, load, load-write, load-alloc,
}
use k8s_native_fast_gpu_chec.Copies.Pointers.{PointsWithin, pointer_view-loaded, pointer_layout}

-- `make([]T, len(xs))`
abbrev pub zeros_of : {A : Type 0} → A → List A → List A
zeros_of zero_element [] = []
zeros_of zero_element (x ∷ xs) = zero_element ∷ zeros_of zero_element xs

module _ {Cell : Type 0} where
  -- The elements of a slice.
  module _ {A : Type 0} (L : Layout Cell A) where
    abbrev pub AllWithin : Ptr → Heap Cell → List A → Type 0
    AllWithin lo h xs = All (L.Within lo h) xs

    pub AllWithin-frame :
        (lo : Ptr) (h g : Heap Cell) (xs : List A)
        → Agree lo h g
        → AllWithin lo h xs
        → (map (L.view g) xs ≡ map (L.view h) xs) × AllWithin lo g xs
    AllWithin-frame lo h g [] e w = (refl, tt)
    AllWithin-frame lo h g (x ∷ xs) e (u, w) =
        let (p, u') = L.frame lo h g x e u in
        let (q, w') = AllWithin-frame lo h g xs e w in
        (ap (λ v. v ∷ map (L.view g) xs) p ∙ ap (λ vs. L.view h x ∷ vs) q, (u', w'))

    pub AllWithin-weaken :
        (lo lo' : Ptr) (h : Heap Cell) (xs : List A)
        → lo' ≤ lo
        → AllWithin lo h xs
        → AllWithin lo' h xs
    AllWithin-weaken lo lo' h [] l w = tt
    AllWithin-weaken lo lo' h (x ∷ xs) l (u, w) =
        (L.weaken lo lo' h x l u, AllWithin-weaken lo lo' h xs l w)

    abbrev pub list_layout : Layout Cell (List A)
    list_layout = record {
      View = List L.View;
      view = λ h xs. map (L.view h) xs;
      Within = AllWithin;
      frame = AllWithin-frame;
      weaken = AllWithin-weaken;
    }

  module _ {A : Type 0} (K : Kind Cell (List A)) (zero_element : A)
      (copy : A → Heap Cell → A × Heap Cell) where
    -- `for i := range in { in[i].DeepCopyInto(&out[i]) }`, with the array of `out` at `q`, once the
    -- elements `done` are in place.
    unfoldable pub fill : Ptr → List A → List A → Heap Cell → Heap Cell
    fill q done [] h = h
    fill q done (x ∷ xs) h =
        let (x', h') = copy x h in
        let done' = done ++ (x' ∷ []) in
        fill q done' xs (write q (K.wrap (done' ++ zeros_of zero_element xs)) h')

    -- `out = make([]T, len(in))` and the loop, over the array at `p`.
    unfoldable pub copy_array : List A → Heap Cell → Ptr × Heap Cell
    copy_array xs h =
        let (q, h') = alloc (K.wrap (zeros_of zero_element xs)) h in (q, fill q [] xs h')

    abbrev copy_loaded : Ptr → Option (List A) → Heap Cell → Ptr × Heap Cell
    copy_loaded p none h = (p, h)
    copy_loaded p (some xs) h = copy_array xs h

    unfoldable pub copy_slice : Ptr → Heap Cell → Ptr × Heap Cell
    copy_slice p h = copy_loaded p (load K p h) h

  module _ {A : Type 0} (K : Kind Cell (List A)) (zero_element : A) (C : Copier Cell A) where
    abbrev L : Layout Cell A
    L = C.layout

    -- What the loop leaves, over the heap `h₀` in which the slice lies.
    record Filled (h₀ : Heap Cell) (q : Ptr) (views : List L.View) (g : Heap Cell) : Type 0 where
      keeps : Agree 0 h₀ g
      used : q < g.next
      elements : List A
      loaded : load K q g ≡ some elements
      within : AllWithin L (suc q) g elements
      same : map (L.view g) elements ≡ views

    -- The views of `done` after one more round.
    round_views :
        (h₀ h w : Heap Cell) (done xs : List A) (x x' : A)
        → map (L.view w) done ≡ map (L.view h) done
        → L.view w x' ≡ L.view h₀ x
        → map (L.view w) (done ++ (x' ∷ [])) ++ map (L.view h₀) xs
          ≡ map (L.view h) done ++ map (L.view h₀) (x ∷ xs)
    round_views h₀ h w done xs x x' d e =
        ap (λ vs. vs ++ map (L.view h₀) xs)
          (map-append (L.view w) done (x' ∷ [])
            ∙ ap (λ vs. vs ++ (L.view w x' ∷ [])) d
            ∙ ap (λ v. map (L.view h) done ++ (v ∷ [])) e)
        ∙ append_assoc (map (L.view h) done) (L.view h₀ x ∷ []) (map (L.view h₀) xs)

    fill-Filled :
        (h₀ : Heap Cell) (q : Ptr) (done xs : List A) (h : Heap Cell)
        → h₀.next ≤ q
        → Agree 0 h₀ h
        → q < h.next
        → load K q h ≡ some (done ++ zeros_of zero_element xs)
        → AllWithin L (suc q) h done
        → AllWithin L 0 h₀ xs
        → Filled h₀ q
            (map (L.view h) done ++ map (L.view h₀) xs)
            (fill K zero_element C.copy q done xs h)
    unfolding fill
    fill-Filled h₀ q done [] h new e used loaded w v = record {
      keeps = e;
      used = used;
      elements = done;
      loaded = loaded ∙ ap some (append-nil done);
      within = w;
      same = sym (append-nil (map (L.view h) done));
    }
    fill-Filled h₀ q done (x ∷ xs) h new e used loaded w (u, v) =
        let (x', h') = C.copy x h in
        let done' = done ++ (x' ∷ []) in
        let g = write q (K.wrap (done' ++ zeros_of zero_element xs)) h' in
        let (same_x, u') = L.frame 0 h₀ h x e u in
        let c = C.copies h x u' in
        let (d₁, w₁) = AllWithin-frame L (suc q) h h' done (Agree-above (omega arith) c.keeps) w in
        let below =
          Agree-write_below q (K.wrap (done' ++ zeros_of zero_element xs)) (suc q) h'
            (omega arith) in
        let (d₂, w₂) = AllWithin-frame L (suc q) h' g done below w₁ in
        let (x₂, v₂) =
          L.frame (suc q) h' g x' below (L.weaken h.next (suc q) h' x' (omega arith) c.fresh) in
        let r =
          fill-Filled h₀ q done' xs g new
            (Agree-write q (K.wrap (done' ++ zeros_of zero_element xs)) new (Agree-trans e c.keeps))
            (next-write q (K.wrap (done' ++ zeros_of zero_element xs)) h'
              (omega (arith, c.keeps.grows)))
            (load-write K q (done' ++ zeros_of zero_element xs) h')
            (All-append (L.Within (suc q) g) done (x' ∷ []) w₂ (v₂, tt)) v in
        record {
          keeps = r.keeps;
          used = r.used;
          elements = r.elements;
          loaded = r.loaded;
          within = r.within;
          same = r.same ∙ round_views h₀ h g done xs x x' (d₂ ∙ d₁) (x₂ ∙ c.same ∙ same_x);
        }

    pub copy_array-IsCopy :
        (h : Heap Cell) (p : Ptr) (xs : List A)
        → load K p h ≡ some xs
        → AllWithin L 0 h xs
        → IsCopy (pointer_layout K (list_layout L)) h p (copy_array K zero_element C.copy xs h)
    unfolding copy_array alloc
    copy_array-IsCopy h p xs e w =
        let f =
          fill-Filled h h.next [] xs (alloc (K.wrap (zeros_of zero_element xs)) h).1 (omega arith)
            (Agree-alloc (K.wrap (zeros_of zero_element xs)) h) (omega arith)
            (load-alloc K (zeros_of zero_element xs) h) tt w in
        record {
          keeps = f.keeps;
          fresh = record {
            above = omega arith;
            used = f.used;
            target = f.elements;
            loaded = f.loaded;
            target_within =
                AllWithin-weaken L (suc h.next) h.next _ f.elements (omega arith) f.within;
          };
          same =
              pointer_view-loaded K (list_layout L) _ h.next f.elements f.loaded
              ∙ ap some f.same
              ∙ sym (pointer_view-loaded K (list_layout L) h p xs e);
        }

    pub copy_slice-IsCopy :
        (h : Heap Cell) (p : Ptr)
        → PointsWithin K (list_layout L) 0 h p
        → IsCopy (pointer_layout K (list_layout L)) h p (copy_slice K zero_element C.copy p h)
    unfolding copy_slice
    copy_slice-IsCopy h p w = rw w.loaded (copy_array-IsCopy h p w.target w.loaded w.target_within)

    abbrev pub slice : Copier Cell Ptr
    slice = record {
      layout = pointer_layout K (list_layout L);
      copy = copy_slice K zero_element C.copy;
      copies = copy_slice-IsCopy;
    }
