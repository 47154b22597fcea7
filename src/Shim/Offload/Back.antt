-- ===== src/Shim/Offload/Back.antt =====
-- interceptor/preload.c: what comes back from the blob to the addresses of the buffers.
use k8s_native_fast_gpu_chec.Prelude.{
  ℕ, ◌+◌, ◌≤◌, ◌<◌, Bool, true, false, List, [], ◌∷◌, ◌≡◌, refl, sym, ap, ◌∙◌, ◌⊎◌, inl, inr, All,
  if◌then◌else◌, arith,
}
use mathlib.Core.Path.{subst}
use k8s_native_fast_gpu_chec.Shim.Calls.{remap}
use k8s_native_fast_gpu_chec.Shim.Owned.{Owned}
use k8s_native_fast_gpu_chec.Shim.Machine.{Bytes, put}
use k8s_native_fast_gpu_chec.Shim.Offload.Whole.{move, move_all}
use k8s_native_fast_gpu_chec.Shim.Offload.Places.{put-at}

-- Two buffers that share no address.
abbrev pub Disjoint : Owned → Owned → Type 0
Disjoint o o' = (o.va + o.req ≤ o'.va) ⊎ (o'.va + o'.req ≤ o.va)

-- Live buffers share no address.
abbrev pub Apart : List Owned → Type 0
Apart [] = Unit
Apart (o ∷ os) = All (λ (o' : Owned). o.live ≡ true → o'.live ≡ true → Disjoint o o') os × Apart os

-- Frozen buffers share no address.
abbrev pub FrozenApart : List Owned → Type 0
FrozenApart [] = Unit
FrozenApart (o ∷ os) =
    All (λ (o' : Owned). o.frozen ≡ true → o'.frozen ≡ true → Disjoint o o') os × FrozenApart os

-- An address outside a buffer that comes back.
abbrev Outside : ℕ → Owned → Type 0
Outside x o = o.frozen ≡ true → (x < o.va) ⊎ (o.va + o.req ≤ x)

put-outside :
    (d : Bytes) (at : ℕ) (f : Bytes) (off n x : ℕ)
    → (x < at) ⊎ (at + n ≤ x)
    → put d at f off n x ≡ d x
unfolding put
put-outside d at f off n x (inl h) = ground arith
put-outside d at f off n x (inr h) = ground arith

-- The device after one buffer came back, or did not.
abbrev brought : Bool → ℕ → ℕ → ℕ → Bytes → Bytes → Bytes
brought taken at off n d f = if taken then put d at f off n else d

brought-pair :
    (t : Bool) (at off n : ℕ) (d f : Bytes)
    → (if t then move remap at off n (d, f) else (d, f)) ≡ (brought t at off n d f, f)
brought-pair true at off n d f = refl
brought-pair false at off n d f = refl

move_all-remap :
    (o : Owned) (os : List Owned) (d f : Bytes)
    → move_all remap (o ∷ os) (d, f)
      ≡ move_all remap os (brought o.frozen o.va o.blob_off o.req d f, f)
unfolding move_all
move_all-remap o os d f = ap (move_all remap os) (brought-pair o.frozen o.va o.blob_off o.req d f)

brought-outside :
    (taken : Bool) (at off n : ℕ) (d f : Bytes) (x : ℕ)
    → (taken ≡ true → (x < at) ⊎ (at + n ≤ x))
    → brought taken at off n d f x ≡ d x
brought-outside true at off n d f x h = put-outside d at f off n x (h refl)
brought-outside false at off n d f x h = refl

move_all-outside :
    (os : List Owned) (d f : Bytes) (x : ℕ)
    → All (Outside x) os
    → (move_all remap os (d, f)).0 x ≡ d x
unfolding move_all
move_all-outside [] d f x h = refl
move_all-outside (o ∷ os) d f x (h, hs) =
    ap (λ p. p.0 x) (move_all-remap o os d f)
    ∙ move_all-outside os (brought o.frozen o.va o.blob_off o.req d f) f x hs
    ∙ brought-outside o.frozen o.va o.blob_off o.req d f x h

-- What a frozen buffer's addresses hold at the end.
abbrev pub Back : Bytes → Bytes → Owned → Type 0
Back d f o = o.frozen ≡ true → (i : ℕ) → i < o.req → d (o.va + i) ≡ f (o.blob_off + i)

disjoint-Outside :
    (o : Owned) (i : ℕ) (os : List Owned)
    → i < o.req
    → o.frozen ≡ true
    → All (λ (o' : Owned). o.frozen ≡ true → o'.frozen ≡ true → Disjoint o o') os
    → All (Outside (o.va + i)) os
disjoint-Outside o i [] k e h = tt
disjoint-Outside o i (o' ∷ os) k e (h, hs) =
    ((λ e'. side o o' i k (h e e')), disjoint-Outside o i os k e hs)
  where
    side :
        (o o' : Owned) (i : ℕ)
        → i < o.req
        → Disjoint o o'
        → (o.va + i < o'.va) ⊎ (o'.va + o'.req ≤ o.va + i)
    side o o' i k (inl h) = inl (omega arith)
    side o o' i k (inr h) = inr (omega arith)

pub move_all-Back :
    (os : List Owned) (d f : Bytes) → FrozenApart os → All (Back (move_all remap os (d, f)).0 f) os
unfolding move_all
move_all-Back [] d f h = tt
move_all-Back (o ∷ os) d f (h, hs) =
    let d' = brought o.frozen o.va o.blob_off o.req d f in
    subst (λ (p : Bytes × Bytes). All (Back p.0 f) (o ∷ os)) (sym (move_all-remap o os d f))
      (
        (λ e i k.
            move_all-outside os d' f (o.va + i) (disjoint-Outside o i os k e h)
            ∙ ap (λ t. brought t o.va o.blob_off o.req d f (o.va + i)) e
            ∙ put-at d o.va f o.blob_off o.req i k),
        move_all-Back os d' f hs,
      )
