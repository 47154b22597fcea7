-- ===== src/Shim/Offload/Entries.antt =====
-- interceptor/preload.c: the entries of buffers before and after, one by one.
use k8s_native_fast_gpu_chec.Prelude.{
  ℕ, ◌+◌, ◌<◌, Bool, true, false, ◌&&◌, not, List, [], ◌∷◌, ◌≡◌, refl, sym, ap, ◌∙◌, All,
  if◌then◌else◌, arith,
}
use mathlib.Core.Path.{subst}
use k8s_native_fast_gpu_chec.Shim.Calls.{freeze, remap}
use k8s_native_fast_gpu_chec.Shim.Owned.{Owned}
use k8s_native_fast_gpu_chec.Shim.Copying.{selected}
use k8s_native_fast_gpu_chec.Shim.Engine.{thaw}
use k8s_native_fast_gpu_chec.Shim.Machine.{Bytes}
use k8s_native_fast_gpu_chec.Shim.Offload.Whole.{move, move_all, Addressed}
use k8s_native_fast_gpu_chec.Shim.Offload.Places.{froze, frozen_at, next, Unfrozen, Stored}
use k8s_native_fast_gpu_chec.Shim.Offload.Back.{Back}

-- The entries of two tables are related one by one.
module _ (R : Owned → Owned → Type 0) where
  abbrev pub Pairwise : List Owned → List Owned → Type 0
  Pairwise [] [] = Unit
  Pairwise [] (o ∷ os) = ⊥
  Pairwise (o ∷ os) [] = ⊥
  Pairwise (o ∷ os) (o' ∷ os') = R o o' × Pairwise os os'

-- The same entry, with some physical memory.
abbrev pub Rehandled : Owned → Owned → Type 0
Rehandled o o' = (h : ℕ) × (o' ≡ record o { handle = h })

-- The same entry, not frozen, with some physical memory and some place in the blob.
abbrev pub Returned : Owned → Owned → Type 0
Returned o o' = (h : ℕ) × (off : ℕ) × (o' ≡ record o { handle = h; blob_off = off; frozen = false })

pub move_all-Rehandled :
    (os os' : List Owned) (p : Bytes × Bytes)
    → Pairwise Rehandled os os'
    → move_all remap os' p ≡ move_all remap os p
unfolding move_all
move_all-Rehandled [] [] p h = refl
move_all-Rehandled [] (o ∷ os) p h = absurd h
move_all-Rehandled (o ∷ os) [] p h = absurd h
move_all-Rehandled (o ∷ os) (o' ∷ os') p ((h, e), hs) =
    move_all-Rehandled os os' _ hs
    ∙ ap
        (λ (x : Owned).
          move_all remap os (if selected remap x then move remap x.va x.blob_off x.req p else p))
        e

pub Rehandled-Addressed :
    (os os' : List Owned) → Pairwise Rehandled os os' → All Addressed os → All Addressed os'
Rehandled-Addressed [] [] h k = tt
Rehandled-Addressed [] (o ∷ os) h k = absurd h
Rehandled-Addressed (o ∷ os) [] h k = absurd h
Rehandled-Addressed (o ∷ os) (o' ∷ os') ((h, e), hs) (k, ks) =
    (subst Addressed (sym e) k, Rehandled-Addressed os os' hs ks)

Returned-frozen_at :
    (o o' : Owned) (start h : ℕ) (t : Bool)
    → o' ≡ record (frozen_at start t o) { handle = h }
    → Returned o (record o' { frozen = false })
Returned-frozen_at o o' start h true e =
    (h, start, ap (λ (x : Owned). record x { frozen = false }) e)
Returned-frozen_at o o' start h false e =
    (h, o.blob_off, ap (λ (x : Owned). record x { frozen = false }) e)

pub thaw-Returned :
    (os os' : List Owned) (start : ℕ)
    → Pairwise Rehandled (froze os start) os'
    → Pairwise Returned os (thaw os')
unfolding froze thaw
thaw-Returned [] [] start h = tt
thaw-Returned [] (o ∷ os) start h = absurd h
thaw-Returned (o ∷ os) [] start h = absurd h
thaw-Returned (o ∷ os) (o' ∷ os') start ((h, e), hs) = (
  Returned-frozen_at o o' start h (selected freeze o) e,
  thaw-Returned os os' (next (selected freeze o) start o.req) hs,
)

-- The addresses of a live buffer hold what they held.
abbrev pub Intact : Bytes → Bytes → Owned → Type 0
Intact d d' o = o.live ≡ true → (i : ℕ) → i < o.req → d' (o.va + i) ≡ d (o.va + i)

same_first :
    (d d' f f' : Bytes) (total start : ℕ) (o : Owned) (t : Bool)
    → t ≡ (o.live && not o.frozen)
    → o.frozen ≡ false
    → ((x : ℕ) → x < total → f' x ≡ f x)
    → Stored d f total (frozen_at start t o)
    → Back d' f' (frozen_at start t o)
    → Intact d d' o
same_first d d' f f' total start o true e u g s b l i k =
    let (stored, below) = s refl i k in b refl i k ∙ g (start + i) below ∙ stored
same_first d d' f f' total start o false e u g s b l i k = absurd (ground arith)

pub froze-Intact :
    (d d' f f' : Bytes) (total : ℕ) (os : List Owned) (start : ℕ)
    → Unfrozen os
    → ((x : ℕ) → x < total → f' x ≡ f x)
    → All (Stored d f total) (froze os start)
    → All (Back d' f') (froze os start)
    → All (Intact d d') os
unfolding froze
froze-Intact d d' f f' total [] start u g s b = tt
froze-Intact d d' f f' total (o ∷ os) start (u, us) g (s, ss) (b, bs) = (
  same_first d d' f f' total start o (selected freeze o) refl u g s b,
  froze-Intact d d' f f' total os (next (selected freeze o) start o.req) us g ss bs,
)
