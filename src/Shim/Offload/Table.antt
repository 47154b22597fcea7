-- ===== src/Shim/Offload/Table.antt =====
-- interceptor/preload.c: the table of buffers through a freeze and a remap.
use k8s_native_fast_gpu_chec.Prelude.{
  ℕ, ◌+◌, ◌<◌, Bool, true, false, ◌&&◌, List, [], ◌∷◌, ◌≡◌, refl, sym, ap, ◌∙◌, inl, inr, All, ltb,
  if◌then◌else◌, Bool-cases, arith,
}
use k8s_native_fast_gpu_chec.Shim.Calls.{freeze}
use k8s_native_fast_gpu_chec.Shim.Registry.{add64}
use k8s_native_fast_gpu_chec.Shim.Owned.{Owned}
use k8s_native_fast_gpu_chec.Shim.Copying.{round2m, selected}
use k8s_native_fast_gpu_chec.Shim.Engine.{assign_offsets, blob_need}
use k8s_native_fast_gpu_chec.Shim.Offload.Whole.{Addressed}
use k8s_native_fast_gpu_chec.Shim.Offload.Places.{
  froze, frozen_at, next, next_fits, next_place, needed, Unfrozen, Fits, Fits-after_first,
}
use k8s_native_fast_gpu_chec.Shim.Offload.Back.{Disjoint, Apart, FrozenApart}

Disjoint-frozen_at :
    (o o' : Owned) (start start' : ℕ) (t t' : Bool)
    → Disjoint o o'
    → Disjoint (frozen_at start t o) (frozen_at start' t' o')
Disjoint-frozen_at o o' start start' true true h = h
Disjoint-frozen_at o o' start start' true false h = h
Disjoint-frozen_at o o' start start' false true h = h
Disjoint-frozen_at o o' start start' false false h = h

-- Only live buffers are frozen.
live-frozen_at :
    (o : Owned) (start : ℕ)
    → o.frozen ≡ false
    → (frozen_at start (selected freeze o) o).frozen ≡ true
    → o.live ≡ true
live-frozen_at o start u h = elim (Bool-cases o.live) [ inl l ↦ l | inr l ↦ ground arith ]

clear-froze :
    (o : Owned) (at : ℕ) (os : List Owned) (start : ℕ)
    → o.frozen ≡ false
    → Unfrozen os
    → All (λ (o' : Owned). o.live ≡ true → o'.live ≡ true → Disjoint o o') os
    → let p = frozen_at at (selected freeze o) o in
      All (λ (o' : Owned). p.frozen ≡ true → o'.frozen ≡ true → Disjoint p o') (froze os start)
unfolding froze
clear-froze o at [] start u us h = tt
clear-froze o at (o' ∷ os) start u (u', us) (h, hs) = (
  (λ e e'.
      Disjoint-frozen_at o o' at start (selected freeze o) (selected freeze o')
        (h (live-frozen_at o at u e) (live-frozen_at o' start u' e'))),
  clear-froze o at os (next (selected freeze o') start o'.req) u us hs,
)

pub froze-FrozenApart :
    (os : List Owned) (start : ℕ) → Unfrozen os → Apart os → FrozenApart (froze os start)
unfolding froze
froze-FrozenApart [] start u h = tt
froze-FrozenApart (o ∷ os) start (u, us) (h, hs) = (
  clear-froze o start os (next (selected freeze o) start o.req) u us h,
  froze-FrozenApart os (next (selected freeze o) start o.req) us hs,
)

Addressed-frozen_at :
    (o : Owned) (start : ℕ) (t : Bool) → Addressed o → Addressed (frozen_at start t o)
Addressed-frozen_at o start true h = h
Addressed-frozen_at o start false h = h

pub froze-Addressed :
    (os : List Owned) (start : ℕ) → All Addressed os → All Addressed (froze os start)
unfolding froze
froze-Addressed [] start h = tt
froze-Addressed (o ∷ os) start (h, hs) = (
  Addressed-frozen_at o start (selected freeze o) h,
  froze-Addressed os (next (selected freeze o) start o.req) hs,
)

Addressed-placed :
    (o : Owned) (start : ℕ) (t : Bool)
    → Addressed o
    → Addressed (if t then record o { blob_off = start } else o)
Addressed-placed o start true h = h
Addressed-placed o start false h = h

pub assign_offsets-Addressed :
    (os : List Owned) (start : ℕ) → All Addressed os → All Addressed (assign_offsets os start).0
unfolding assign_offsets
assign_offsets-Addressed [] start h = tt
assign_offsets-Addressed (o ∷ os) start (h, hs) =
    (Addressed-placed o start (selected freeze o) h, assign_offsets-Addressed os _ hs)

-- How one entry raises the need.
need_first :
    (o : Owned) (start : ℕ) (t : Bool)
    → o.frozen ≡ false
    → next t start o.req < 18446744073709551616
    → let p = frozen_at start t o in
      let e = add64 p.blob_off (round2m p.req) in
      (if p.frozen && ltb start e then e else start) ≡ next t start o.req
need_first o start true u h =
    ap (λ (e : ℕ). if ltb start e then e else start) (next_place start o.req h) ∙ ground arith
need_first o start false u h = rw u refl

-- What the remap finds in the table is what the freeze took of the blob.
pub blob_need-froze :
    (os : List Owned) (start : ℕ)
    → Fits start os
    → Unfrozen os
    → blob_need (froze os start) start ≡ start + needed os
unfolding froze blob_need needed
blob_need-froze [] start h u = omega arith
blob_need-froze (o ∷ os) start h (u, us) =
    let s = next (selected freeze o) start o.req in
    let k = Fits-after_first o os start h in
    ap (blob_need (froze os s)) (need_first o start (selected freeze o) u (omega (arith, k)))
    ∙ blob_need-froze os s k us
    ∙ sym (next_fits (selected freeze o) start o.req (needed os))
