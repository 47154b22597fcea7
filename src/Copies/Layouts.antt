-- ===== src/Copies/Layouts.antt =====
-- Values without pointers, pairs, pointers that may be nil, and structs as tuples of their fields.
use k8s_native_fast_gpu_chec.Prelude.{◌≤◌, ◌≡◌, refl, ap, ◌∙◌, Option, none, some, arith}
use k8s_native_fast_gpu_chec.Copies.{Ptr, Heap, Agree, Layout, IsCopy, Copier}

module _ {Cell : Type 0} where
  pub Agree-refl : (lo : Ptr) (h : Heap Cell) → Agree lo h h
  Agree-refl lo h = record { grows = omega arith; same_cell = λ p a b. refl }

  pub Agree-trans : {lo : Ptr} {h g k : Heap Cell} → Agree lo h g → Agree lo g k → Agree lo h k
  Agree-trans {h} {g} {k} a b = record {
    grows = omega (arith, a.grows, b.grows);
    same_cell = λ p l u. b.same_cell p l (omega (arith, a.grows)) ∙ a.same_cell p l u;
  }

  pub Agree-above : {lo lo' : Ptr} {h g : Heap Cell} → lo ≤ lo' → Agree lo h g → Agree lo' h g
  Agree-above le a = record { grows = a.grows; same_cell = λ p l u. a.same_cell p (omega arith) u }

  -- Plain values: `*out = *in` copies them whole.
  abbrev pub flat_layout : (A : Type 0) → Layout Cell A
  flat_layout A = record {
    View = A;
    view = λ h a. a;
    Within = λ lo h a. Unit;
    frame = λ lo h g a e w. (refl, tt);
    weaken = λ lo lo' h a l w. tt;
  }

  abbrev pub flat : (A : Type 0) → Copier Cell A
  flat A = record {
    layout = flat_layout A;
    copy = λ a h. (a, h);
    copies = λ h a w. record { keeps = Agree-refl 0 h; fresh = tt; same = refl };
  }

  abbrev pub pair_layout : {A B : Type 0} → Layout Cell A → Layout Cell B → Layout Cell (A × B)
  pair_layout K L = record {
    View = K.View × L.View;
    view = λ h (a, b). (K.view h a, L.view h b);
    Within = λ lo h (a, b). K.Within lo h a × L.Within lo h b;
    frame = λ lo h g (a, b) e (u, v).
        let (p, u') = K.frame lo h g a e u in
        let (q, v') = L.frame lo h g b e v in (rw (p, q) refl, (u', v'));
    weaken = λ lo lo' h (a, b) l (u, v). (K.weaken lo lo' h a l u, L.weaken lo lo' h b l v);
  }

  -- One copy after the other.
  pub pair_copies :
      {A B : Type 0} {K : Layout Cell A} {L : Layout Cell B} (h : Heap Cell) (a : A) (b : B)
      (r : A × Heap Cell) (s : B × Heap Cell)
      → K.Within 0 h a
      → L.Within 0 h b
      → IsCopy K h a r
      → (L.Within 0 r.1 b → IsCopy L r.1 b s)
      → IsCopy (pair_layout K L) h (a, b) ((r.0, s.0), s.1)
  pair_copies {K} {L} h a b r s u v p q =
      let (same_b, v') = L.frame 0 h r.1 b p.keeps v in
      let q' = q v' in
      let low : 0 ≤ r.1.next = omega arith in
      let (same_a, fresh_a) =
        K.frame h.next r.1 s.1 r.0 (Agree-above (omega arith) q'.keeps) p.fresh in
      record {
        keeps = Agree-trans p.keeps q'.keeps;
        fresh = (fresh_a, L.weaken r.1.next h.next s.1 s.0 p.keeps.grows q'.fresh);
        same =
            ap (λ x. (x, L.view s.1 s.0)) (same_a ∙ p.same)
            ∙ ap (λ y. (K.view h a, y)) (q'.same ∙ same_b);
      }

  abbrev pub pair : {A B : Type 0} → Copier Cell A → Copier Cell B → Copier Cell (A × B)
  pair K L = record {
    layout = pair_layout K.layout L.layout;
    copy = λ (a, b) h. let (a', h₁) = K.copy a h in let (b', h₂) = L.copy b h₁ in ((a', b'), h₂);
    copies = λ h (a, b) (u, v).
        pair_copies h a b (K.copy a h) (L.copy b (K.copy a h).1) u v (K.copies h a u)
          (λ v'. L.copies (K.copy a h).1 b v');
  }

  module _ {A : Type 0} (L : Layout Cell A) where
    abbrev pub opt_view : Heap Cell → Option A → Option L.View
    opt_view h none = none
    opt_view h (some a) = some (L.view h a)

    abbrev pub OptWithin : Ptr → Heap Cell → Option A → Type 0
    OptWithin lo h none = Unit
    OptWithin lo h (some a) = L.Within lo h a

    pub OptWithin-frame :
        (lo : Ptr) (h g : Heap Cell) (o : Option A)
        → Agree lo h g
        → OptWithin lo h o
        → (opt_view g o ≡ opt_view h o) × OptWithin lo g o
    OptWithin-frame lo h g none e w = (refl, tt)
    OptWithin-frame lo h g (some a) e w = let (p, w') = L.frame lo h g a e w in (ap some p, w')

    pub OptWithin-weaken :
        (lo lo' : Ptr) (h : Heap Cell) (o : Option A)
        → lo' ≤ lo
        → OptWithin lo h o
        → OptWithin lo' h o
    OptWithin-weaken lo lo' h none l w = tt
    OptWithin-weaken lo lo' h (some a) l w = L.weaken lo lo' h a l w

  -- A pointer or a slice that may be nil.
  abbrev pub optional_layout : {A : Type 0} → Layout Cell A → Layout Cell (Option A)
  optional_layout L = record {
    View = Option L.View;
    view = opt_view L;
    Within = OptWithin L;
    frame = OptWithin-frame L;
    weaken = OptWithin-weaken L;
  }

  -- `if in.X != nil { out.X = ... }`, where `out.X` is `in.X` so far.
  abbrev pub copy_if_set :
      {A : Type 0} → (A → Heap Cell → A × Heap Cell) → Option A → Heap Cell → Option A × Heap Cell
  copy_if_set copy none h = (none, h)
  copy_if_set copy (some a) h = let (a', h') = copy a h in (some a', h')

  module _ {A : Type 0} (K : Copier Cell A) where
    pub copy_if_set-IsCopy :
        (h : Heap Cell) (o : Option A)
        → OptWithin K.layout 0 h o
        → IsCopy (optional_layout K.layout) h o (copy_if_set K.copy o h)
    copy_if_set-IsCopy h none w = record { keeps = Agree-refl 0 h; fresh = tt; same = refl }
    copy_if_set-IsCopy h (some a) w =
        let c = K.copies h a w in record { keeps = c.keeps; fresh = c.fresh; same = ap some c.same }

    abbrev pub optional : Copier Cell (Option A)
    optional = record {
      layout = optional_layout K.layout;
      copy = copy_if_set K.copy;
      copies = copy_if_set-IsCopy;
    }

  -- A struct, by the tuple of its fields.
  abbrev pub struct_layout : {S T : Type 0} → (S → T) → Layout Cell T → Layout Cell S
  struct_layout fields_of L = record {
    View = L.View;
    view = λ h s. L.view h (fields_of s);
    Within = λ lo h s. L.Within lo h (fields_of s);
    frame = λ lo h g s e w. L.frame lo h g (fields_of s) e w;
    weaken = λ lo lo' h s l w. L.weaken lo lo' h (fields_of s) l w;
  }

  pub struct-IsCopy :
      {S T : Type 0} (fields_of : S → T) (L : Layout Cell T) (h : Heap Cell) (s : S)
      (r : S × Heap Cell)
      → IsCopy L h (fields_of s) (fields_of r.0, r.1)
      → IsCopy (struct_layout fields_of L) h s r
  struct-IsCopy fields_of L h s r c = record { keeps = c.keeps; fresh = c.fresh; same = c.same }
