-- ===== src/Shim/Registry/Counting.antt =====
-- interceptor/preload.c: adding to a table and deleting from it cancel.
use k8s_native_fast_gpu_chec.Prelude.{
  ℕ, Bool, true, false, List, [], ◌∷◌, ◌++◌, ◌≡◌, refl, sym, ap, ◌∙◌, inl, inr, All, length, ltb,
  nat_eq, if◌then◌else◌, Bool-cases, arith,
}
use k8s_native_fast_gpu_chec.Shim.Registry.{
  Alloc, Seg, push_within, retire, reg_add, reg_del, alloc_at, kill_alloc, vmm_seg_add, vmm_seg_del,
  seg_at, kill_seg, tally, live_allocs, live_segs, gcr_max_allocs, gcr_max_vmm,
}

-- The live entries of a table, in its order.
abbrev pub living {ℓ} : {A : Type ℓ} → (A → Bool) → List A → List A
living live [] = []
living live (x ∷ xs) = if live x then x ∷ living live xs else living live xs

module _ {ℓ} {A : Type ℓ} (live test : A → Bool) (kill : A → A) where
  abbrev pub Absent : List A → Type 0
  Absent = All (λ x. test x ≡ false)

  retire-Absent : (xs : List A) → Absent xs → retire test kill xs ≡ xs
  unfolding retire
  retire-Absent [] h = refl
  retire-Absent (x ∷ xs) (h, hs) = rw h (ap (λ t. x ∷ t) (retire-Absent xs hs))

  living-retire_last :
      (xs : List A) (x : A)
      → Absent xs
      → test x ≡ true
      → live (kill x) ≡ false
      → living live (retire test kill (xs ++ x ∷ [])) ≡ living live xs
  unfolding retire
  living-retire_last [] x h t k = rw (t, k) refl
  living-retire_last (y ∷ xs) x (h, hs) t k = rw (h, living-retire_last xs x hs t k) refl

  -- Also when the table is full.
  pub living-retire-push_within :
      (limit : ℕ) (xs : List A) (x : A)
      → Absent xs
      → test x ≡ true
      → live (kill x) ≡ false
      → living live (retire test kill (push_within limit xs x)) ≡ living live xs
  unfolding push_within
  living-retire-push_within limit xs x h t k = elim (Bool-cases (ltb (length xs) limit)) [
    | inl room ↦ rw room (living-retire_last xs x h t k)
    | inr full ↦ rw full (ap (living live) (retire-Absent xs h))
  ]

module _ {ℓ} {A : Type ℓ} (live : A → Bool) (size : A → ℕ) where
  -- The totals depend on the live entries only.
  pub tally-living :
      (xs : List A) (acc : ℕ × ℕ) → tally live size (living live xs) acc ≡ tally live size xs acc
  unfolding tally
  tally-living [] acc = refl
  tally-living (x ∷ xs) (n, bytes) = elim (Bool-cases (live x)) [
    | inl h ↦ rw (h, tally, h) (tally-living xs _)
    | inr h ↦ rw h (tally-living xs _)
  ]

abbrev alloc_live : Alloc → Bool
alloc_live x = x.live

abbrev seg_live : Seg → Bool
seg_live x = x.live

abbrev pub Unknown : ℕ → List Alloc → Type 0
Unknown p = All (λ (x : Alloc). alloc_at p x ≡ false)

abbrev pub Unmapped : ℕ → List Seg → Type 0
Unmapped at = All (λ (x : Seg). seg_at at x ≡ false)

nat_eq_self : (n : ℕ) → nat_eq n n ≡ true
nat_eq_self n = ground arith

pub living-reg_del-reg_add :
    (p n : ℕ) (allocs : List Alloc)
    → Unknown p allocs
    → living alloc_live (reg_del p (reg_add p n allocs)) ≡ living alloc_live allocs
unfolding reg_add reg_del
living-reg_del-reg_add p n allocs h = elim (Bool-cases (nat_eq p 0)) [
  | inl null ↦ rw null refl
  | inr some_ptr ↦ rw some_ptr (
      living-retire-push_within alloc_live (alloc_at p) kill_alloc gcr_max_allocs allocs
        (record { ptr = p; size = n; live = true }) h (nat_eq_self p) refl)
]

tally-of_living :
    {A : Type 0} (live : A → Bool) (size : A → ℕ) (xs ys : List A)
    → living live xs ≡ living live ys
    → tally live size xs (0, 0) ≡ tally live size ys (0, 0)
tally-of_living live size xs ys e =
    sym (tally-living live size xs (0, 0))
    ∙ ap (λ t. tally live size t (0, 0)) e
    ∙ tally-living live size ys (0, 0)

-- If no live entry of the table has the pointer `p`, then an allocation at `p` that is freed again
-- leaves the number and the bytes of the live buffers that are reported as they were, also when the
-- table has no room; and if no live segment starts at `at`, the same holds of a segment that is
-- mapped there and unmapped again.
pub live_totals_restored :
    (p n : ℕ) (allocs : List Alloc) (at size offset handle : ℕ) (segs : List Seg)
    → Unknown p allocs
    → Unmapped at segs
    → (live_allocs (reg_del p (reg_add p n allocs)) ≡ live_allocs allocs)
      × (live_segs (vmm_seg_del at (vmm_seg_add at size offset handle segs)) ≡ live_segs segs)
unfolding live_allocs live_segs vmm_seg_add vmm_seg_del
live_totals_restored p n allocs at size offset handle segs h k = (
  tally-of_living alloc_live (λ (x : Alloc). x.size) _ allocs (living-reg_del-reg_add p n allocs h),
  tally-of_living seg_live (λ (x : Seg). x.size) _ segs
      (living-retire-push_within seg_live (seg_at at) kill_seg gcr_max_vmm segs
        (record { va = at; size = size; offset = offset; handle = handle; live = true }) k
        (nat_eq_self at) refl),
)
