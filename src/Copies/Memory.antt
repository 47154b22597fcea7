-- ===== src/Copies/Memory.antt =====
-- Allocation, writes and reads, and what of the memory they leave alone.
use k8s_native_fast_gpu_chec.Prelude.{
  ℕ, suc, ◌≤◌, ◌<◌, ◌≡◌, refl, ap, Option, none, some, arith, nat_eq, nat_eq_iff, false,
}
use k8s_native_fast_gpu_chec.Copies.{Ptr, Heap, alloc, write, Agree, Kind}

module _ {Cell : Type 0} where
  pub Agree-alloc : (c : Cell) (h : Heap Cell) → Agree 0 h (alloc c h).1
  unfolding alloc
  Agree-alloc c h = record { grows = omega arith; same_cell = λ p l u. ground arith }

  -- A write at an address that was not in use in `h`.
  pub Agree-write :
      (p : Ptr) (c : Cell) {h g : Heap Cell} → h.next ≤ p → Agree 0 h g → Agree 0 h (write p c g)
  unfolding write
  Agree-write p c {h} {g} new e = record {
    grows = e.grows;
    same_cell = λ q l u. rw (other q u) (e.same_cell q l u);
  }
    where
      other : (q : Ptr) → q < h.next → nat_eq q p ≡ false
      other q u = ground arith

  pub next-write :
      (p : Ptr) (c : Cell) (h : Heap Cell) {n : ℕ} → n < h.next → n < (write p c h).next
  unfolding write
  next-write p c h l = l

  pub alloc_lem :
      (c : Cell) (h : Heap Cell) → ((alloc c h).0 ≡ h.next) × ((alloc c h).1.next ≡ suc h.next)
  unfolding alloc
  alloc_lem c h = (refl, refl)

  -- A write below `lo`.
  pub Agree-write_below :
      (p : Ptr) (c : Cell) (lo : Ptr) (h : Heap Cell) → p < lo → Agree lo h (write p c h)
  unfolding write
  Agree-write_below p c lo h below = record {
    grows = omega arith;
    same_cell = λ q l u. ground arith;
  }

  module _ {A : Type 0} (K : Kind Cell A) where
    -- What a pointer points to.
    abbrev pub load_option : Option Cell → Option A
    load_option none = none
    load_option (some c) = K.unwrap c

    unfoldable pub load : Ptr → Heap Cell → Option A
    load p h = load_option (h.cell p)

    pub load-write : (p : Ptr) (a : A) (h : Heap Cell) → load p (write p (K.wrap a) h) ≡ some a
    unfolding load write
    load-write p a h = rw ((nat_eq_iff p p).1 refl) (K.unwrap-wrap a)

    pub load-alloc : (a : A) (h : Heap Cell) → load h.next (alloc (K.wrap a) h).1 ≡ some a
    unfolding load alloc
    load-alloc a h = rw ((nat_eq_iff h.next h.next).1 refl) (K.unwrap-wrap a)

    pub load-Agree :
        {lo : Ptr} {h g : Heap Cell} (p : Ptr)
        → Agree lo h g
        → lo ≤ p
        → p < h.next
        → load p g ≡ load p h
    unfolding load
    load-Agree p e l u = ap load_option (e.same_cell p l u)
