-- ===== src/Copies.antt =====
-- Go's memory for the deep copies of api/v1alpha1/zz_generated.deepcopy.go and
-- orchestrator/api/v1alpha1/zz_generated.deepcopy.go: pointers, `new`, `make` and slices, and what it
-- is for a copy to be deep.
pub mod Layouts
pub mod Memory
pub mod Pointers
pub mod Slices
pub mod Structs
pub mod Outside
pub mod Values
pub mod Checkpoints
pub mod Workloads
pub mod Isolation
use k8s_native_fast_gpu_chec.Prelude.{
  ℕ, suc, ◌≤◌, ◌<◌, ◌≡◌, Option, none, some, nat_eq, if◌then◌else◌,
}

abbrev pub Ptr : Type 0
Ptr = ℕ

-- `next` is the first address that is not in use.
pub record Heap (Cell : Type 0) : Type 0 where
  pub next : Ptr
  pub cell : Ptr → Option Cell

module _ {Cell : Type 0} where
  unfoldable pub alloc : Cell → Heap Cell → Ptr × Heap Cell
  alloc c h = (
    h.next,
    record { next = suc h.next; cell = λ q. if nat_eq q h.next then some c else h.cell q },
  )

  unfoldable pub write : Ptr → Cell → Heap Cell → Heap Cell
  write p c h = record { next = h.next; cell = λ q. if nat_eq q p then some c else h.cell q }

  -- `g` has what `h` has at the addresses from `lo` on, and may have more.
  pub record Agree (lo : Ptr) (h g : Heap Cell) : Type 0 where
    pub grows : h.next ≤ g.next
    pub same_cell : (p : Ptr) → lo ≤ p → p < h.next → g.cell p ≡ h.cell p

-- The cells that hold an `A`, and its zero value.
pub record Kind (Cell A : Type 0) : Type 0 where
  pub wrap : A → Cell
  pub unwrap : Cell → Option A
  pub unwrap-wrap : (a : A) → unwrap (wrap a) ≡ some a
  pub zero_value : A

-- How a value of type `A` lies in memory: the value that it stands for once all pointers are followed,
-- and that all addresses it leads to are in use and not below `lo`.
pub record Layout (Cell A : Type 0) : Type 1 where
  pub View : Type 0
  pub view : Heap Cell → A → View
  pub Within : Ptr → Heap Cell → A → Type 0
  pub frame :
      (lo : Ptr) (h g : Heap Cell) (a : A)
      → Agree lo h g
      → Within lo h a
      → (view g a ≡ view h a) × Within lo g a
  pub weaken : (lo lo' : Ptr) (h : Heap Cell) (a : A) → lo' ≤ lo → Within lo h a → Within lo' h a

-- What a deep copy of `a` leaves: all that was there is as it was, the copy leads only to addresses
-- that were not in use, and it stands for the same value.
pub record IsCopy {Cell A : Type 0} (L : Layout Cell A) (h : Heap Cell) (a : A) (r : A × Heap Cell)
    : Type 0 where
  pub keeps : Agree 0 h r.1
  pub fresh : L.Within h.next r.1 r.0
  pub same : L.view r.1 r.0 ≡ L.view h a

-- A type with its deep copy.
pub record Copier (Cell A : Type 0) : Type 1 where
  pub layout : Layout Cell A
  pub copy : A → Heap Cell → A × Heap Cell
  pub copies : (h : Heap Cell) (a : A) → layout.Within 0 h a → IsCopy layout h a (copy a h)
