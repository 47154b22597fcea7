-- ===== src/Shim/Offload/Places.antt =====
-- interceptor/preload.c: the places that the buffers get in the blob, and what is stored there.
use k8s_native_fast_gpu_chec.Prelude.{
  ℕ, ◌+◌, ◌*◌, ◌/◌, ◌<◌, Bool, true, false, List, [], ◌∷◌, ◌≡◌, refl, sym, ap, ◌∙◌, inl, inr, All,
  if◌then◌else◌, Bool-cases, arith,
}
use mathlib.Core.Path.{subst}
use k8s_native_fast_gpu_chec.Shim.Calls.{freeze}
use k8s_native_fast_gpu_chec.Shim.Registry.{add64}
use k8s_native_fast_gpu_chec.Shim.Owned.{Owned}
use k8s_native_fast_gpu_chec.Shim.Copying.{round2m, selected}
use k8s_native_fast_gpu_chec.Shim.Engine.{assign_offsets}
use k8s_native_fast_gpu_chec.Shim.Machine.{Bytes, put}
use k8s_native_fast_gpu_chec.Shim.Offload.Whole.{move, move_all, add64-exact}

-- `n` in whole pieces of 2 MB, without overflow.
abbrev pub whole_2m : ℕ → ℕ
whole_2m n = (n + 2097151) / 2097152 * 2097152

-- The bytes of blob that the selected buffers need.
unfoldable pub needed : List Owned → ℕ
needed [] = 0
needed (o ∷ os) = (if selected freeze o then whole_2m o.req else 0) + needed os

-- The entry of a buffer after it was frozen with its data at `start`.
abbrev pub frozen_at : ℕ → Bool → Owned → Owned
frozen_at start taken o = if taken then record o { blob_off = start; frozen = true } else o

-- The table after a freeze that starts to fill the blob at `start`.
unfoldable pub froze : List Owned → ℕ → List Owned
froze [] start = []
froze (o ∷ os) start =
    frozen_at start (selected freeze o) o
    ∷ froze os (if selected freeze o then start + whole_2m o.req else start)

abbrev pub Fits : ℕ → List Owned → Type 0
Fits start os = start + needed os < 18446744073709551616

round2m-exact : (n : ℕ) → whole_2m n < 18446744073709551616 → round2m n ≡ whole_2m n
unfolding round2m
round2m-exact n h = omega arith

pub next_place :
    (start n : ℕ)
    → start + whole_2m n < 18446744073709551616
    → add64 start (round2m n) ≡ start + whole_2m n
next_place start n h =
    ap (add64 start) (round2m-exact n (omega arith)) ∙ add64-exact start (whole_2m n) h

pub put-at :
    (f : Bytes) (at : ℕ) (d : Bytes) (from n i : ℕ)
    → i < n
    → put f at d from n (at + i) ≡ d (from + i)
unfolding put
put-at f at d from n i h = ground arith

put-below : (f : Bytes) (at : ℕ) (d : Bytes) (from n x : ℕ) → x < at → put f at d from n x ≡ f x
unfolding put
put-below f at d from n x h = ground arith

-- A frozen buffer's bytes lie in the blob, below `total`.
abbrev pub Stored : Bytes → Bytes → ℕ → Owned → Type 0
Stored d f total o =
    o.frozen ≡ true
    → (i : ℕ) → i < o.req
    → (f (o.blob_off + i) ≡ d (o.va + i)) × (o.blob_off + i < total)

abbrev pub Unfrozen : List Owned → Type 0
Unfrozen = All (λ (o : Owned). o.frozen ≡ false)

-- Where the next buffer goes.
abbrev pub next : Bool → ℕ → ℕ → ℕ
next taken start n = if taken then start + whole_2m n else start

pub next_fits :
    (taken : Bool) (start n rest : ℕ)
    → start + ((if taken then whole_2m n else 0) + rest) ≡ next taken start n + rest
next_fits true start n rest = omega arith
next_fits false start n rest = omega arith

next_exact :
    (taken : Bool) (start n : ℕ)
    → next taken start n < 18446744073709551616
    → (if taken then add64 start (round2m n) else start) ≡ next taken start n
next_exact true start n h = next_place start n h
next_exact false start n h = refl

module _ (o : Owned) (os : List Owned) (start : ℕ) (h : Fits start (o ∷ os)) where
  pub Fits-after_first : Fits (next (selected freeze o) start o.req) os
  unfolding needed
  Fits-after_first = omega (arith, next_fits (selected freeze o) start o.req (needed os), h)

  pub place_exact :
      (if selected freeze o then add64 start (round2m o.req) else start)
      ≡ next (selected freeze o) start o.req
  place_exact = next_exact (selected freeze o) start o.req (omega (arith, Fits-after_first))

pub assign_offsets-total :
    (os : List Owned) (start : ℕ) → Fits start os → (assign_offsets os start).1 ≡ start + needed os
unfolding assign_offsets needed
assign_offsets-total [] start h = omega arith
assign_offsets-total (o ∷ os) start h =
    ap (λ s. (assign_offsets os s).1) (place_exact o os start h)
    ∙ assign_offsets-total os (next (selected freeze o) start o.req) (Fits-after_first o os start h)
    ∙ sym (next_fits (selected freeze o) start o.req (needed os))

module _ (o : Owned) (start : ℕ) (d f : Bytes) where
  -- The blob after the copy of one buffer.
  abbrev copied_first : Bool → Bytes
  copied_first taken = if taken then put f start d o.va o.req else f

  abbrev placed_first : Owned
  placed_first = if selected freeze o then record o { blob_off = start } else o

  copy_first :
      (if selected freeze placed_first
        then move freeze placed_first.va placed_first.blob_off placed_first.req (d, f)
        else (d, f))
      ≡ (d, copied_first (selected freeze o))
  copy_first = elim (Bool-cases (selected freeze o)) [
    | inl taken ↦ rw (taken, taken) refl
    | inr left ↦ rw (left, left) refl
  ]

  first_below :
      (taken : Bool) (g : Bytes)
      → ((x : ℕ) → x < next taken start o.req → g x ≡ copied_first taken x)
      → (x : ℕ) → x < start
      → g x ≡ f x
  first_below true g h x k = h x (omega arith) ∙ put-below f start d o.va o.req x k
  first_below false g h x k = h x k

  first_stored :
      (taken : Bool) (g : Bytes) (more : ℕ)
      → o.frozen ≡ false
      → ((x : ℕ) → x < next taken start o.req → g x ≡ copied_first taken x)
      → Stored d g (next taken start o.req + more) (frozen_at start taken o)
  first_stored true g more u h e i k =
      (h (start + i) (omega arith) ∙ put-at f start d o.va o.req i k, omega arith)
  first_stored false g more u h e i k = cc

-- The data of the buffers as they are stored from `start` on.
pub froze-Stored :
    (os : List Owned) (start : ℕ) (d f : Bytes)
    → Fits start os
    → Unfrozen os
    → let after = (move_all freeze (assign_offsets os start).0 (d, f)).1 in
      ((x : ℕ) → x < start → after x ≡ f x)
      × All (Stored d after (start + needed os)) (froze os start)
unfolding assign_offsets needed move_all froze
froze-Stored [] start d f h u = ((λ x k. refl), tt)
froze-Stored (o ∷ os) start d f h (u, us) =
    let t = selected freeze o in
    let s = next t start o.req in
    let g = (move_all freeze (assign_offsets os s).0 (d, copied_first o start d f t)).1 in
    let (below, stored) =
      froze-Stored os s d (copied_first o start d f t) (Fits-after_first o os start h) us in
    let same : (move_all freeze (assign_offsets (o ∷ os) start).0 (d, f)).1 ≡ g =
      ap (λ s. (move_all freeze (placed_first o start d f ∷ (assign_offsets os s).0) (d, f)).1)
        (place_exact o os start h)
      ∙ ap (λ p. (move_all freeze (assign_offsets os s).0 p).1) (copy_first o start d f) in
    subst
      (λ (g : Bytes).
        ((x : ℕ) → x < start → g x ≡ f x)
        × All (Stored d g (start + needed (o ∷ os))) (froze (o ∷ os) start))
      (sym same)
      (
        first_below o start d f t g below,
        subst (λ (n : ℕ). All (Stored d g n) (froze (o ∷ os) start))
            (sym (next_fits t start o.req (needed os)))
            (first_stored o start d f t g (needed os) u below, stored),
      )
