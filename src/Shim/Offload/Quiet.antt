-- ===== src/Shim/Offload/Quiet.antt =====
-- interceptor/preload.c: preparing the staging buffers and the blob leaves the data alone.
use k8s_native_fast_gpu_chec.Prelude.{
  ℕ, String, ◌<>◌, Bool, true, false, Option, none, some, ◌≡◌, refl, sym, ap, ◌∙◌, inl, inr, nat_eq,
  if◌then◌else◌, Bool-cases,
}
use mathlib.Core.Path.{subst}
use k8s_native_fast_gpu_chec.Effect.{Handler, World, M, perform}
use k8s_native_fast_gpu_chec.Shim.Calls.{
  Op, Reply, a, b, host_alloc, malloc, make_dir, open_blob, ftruncate, mmap, munmap,
}
use k8s_native_fast_gpu_chec.Shim.Copying.{gcr_stage_bytes}
use k8s_native_fast_gpu_chec.Shim.Engine.{
  Engine, pin_stages, gcr_stage_init, blob_map, blob_unmap, blob_open, blob_resize, holds, is_some,
}
use k8s_native_fast_gpu_chec.Shim.Machine.{
  Memory, SameData, SameBelow, Machine, Reliable, memory, law,
}

-- A blob that is large enough is mapped.
held : (blob : Option ℕ) (need : ℕ) → holds blob need ≡ true → is_some blob ≡ true
held none need h = cc
held (some n) need h = refl

-- Both branches of a test.
pub if_either :
    {W A : Type 0} (P : A × W → Type 0) (t : Bool) (x y : M W A) (w : W)
    → P (x w)
    → P (y w)
    → P ((if t then x else y) w)
if_either P true x y w h k = h
if_either P false x y w h k = k

SameData-refl : (m m' : Memory) → m' ≡ m → SameData m m'
SameData-refl m m' e = record {
  same_dev = ap (λ t. t.dev) e;
  same_file = ap (λ t. t.file) e;
  same_settled = ap (λ t. t.settled) e;
  same_running = ap (λ t. t.running) e;
}

pub SameData-trans : (m m' m'' : Memory) → SameData m m' → SameData m' m'' → SameData m m''
SameData-trans m m' m'' h k = record {
  same_dev = k.same_dev ∙ h.same_dev;
  same_file = k.same_file ∙ h.same_file;
  same_settled = k.same_settled ∙ h.same_settled;
  same_running = k.same_running ∙ h.same_running;
}

module _ (H : Handler Op Reply) (has : String → Bool) (data_dir : String)
    (machine : Machine H) where
  -- The memory of two worlds is the same but for the staging buffers.
  abbrev pub Unharmed : World H → World H → Type 0
  Unharmed w w' = SameData (memory machine w) (memory machine w')

  pin_stages-Unharmed : (w : World H) → Unharmed w (pin_stages H has data_dir w).1
  unfolding pin_stages
  pin_stages-Unharmed w =
      let r = perform H (host_alloc a gcr_stage_bytes) w in
      elim (Bool-cases (has "cudaHostAlloc")) [
        | inr missing ↦ rw missing (SameData-refl (memory machine w) (memory machine w) refl)
        | inl found ↦ elim (Bool-cases (nat_eq r.0 0)) [
          | inl fine ↦
              rw (found, fine)
                (SameData-trans (memory machine w) (memory machine r.1) _
                  (law machine (host_alloc a gcr_stage_bytes) w)
                  (law machine (host_alloc b gcr_stage_bytes) r.1))
          | inr bad ↦ rw (found, bad) (law machine (host_alloc a gcr_stage_bytes) w)
        ]
      ]

  -- The table, the gate and the blob's mapping stay.
  abbrev pub SameTable : Engine → Engine → Type 0
  SameTable e e' = (e'.owned ≡ e.owned) × (e'.gate ≡ e.gate) × (e'.blob ≡ e.blob)

  pub gcr_stage_init-Unharmed :
      (e : Engine) (w : World H)
      → let (e', w') = gcr_stage_init H has data_dir e w in Unharmed w w' × SameTable e e'
  unfolding gcr_stage_init
  gcr_stage_init-Unharmed e w =
      let p = pin_stages H has data_dir w in
      let m = memory machine w in
      let m₁ = memory machine p.1 in
      let x = perform H (malloc a gcr_stage_bytes) p.1 in
      let y = perform H (malloc b gcr_stage_bytes) x.1 in
      let pinned = pin_stages-Unharmed w in
      if_either (λ r. Unharmed w r.1 × SameTable e r.0) e.stage_a _ _ w
        (SameData-refl m m refl, (refl, refl, refl))
        (if_either (λ r. Unharmed w r.1 × SameTable e r.0) p.0 _ _ p.1 (pinned, (refl, refl, refl))
          (
            SameData-trans m m₁ (memory machine y.1) pinned (
                SameData-trans m₁ (memory machine x.1) (memory machine y.1)
                  (law machine (malloc a gcr_stage_bytes) p.1)
                  (law machine (malloc b gcr_stage_bytes) x.1)),
            (refl, refl, refl),
          ))

  -- What `blob_map` gives when its calls succeed.
  abbrev pub Mapped : ℕ → Engine → World H → (Bool × Engine) × World H → Type 0
  Mapped need e w ((mapped, e'), w') =
      (mapped ≡ true)
      × (is_some e'.blob ≡ true)
      × (e'.owned ≡ e.owned)
      × (e'.gate ≡ e.gate)
      × SameBelow need (memory machine w) (memory machine w')

  below_refl : (need : ℕ) (m m' : Memory) → m' ≡ m → SameBelow need m m'
  below_refl need m m' e = record {
    same_dev = ap (λ t. t.dev) e;
    same_below = λ x k. ap (λ t. t.file x) e;
    same_settled = ap (λ t. t.settled) e;
    same_running = ap (λ t. t.running) e;
  }

  below-after :
      (need : ℕ) (m m' m'' : Memory) → m' ≡ m → SameBelow need m' m'' → SameBelow need m m''
  below-after need m m' m'' e = subst (λ t. SameBelow need t m'') e

  below-before :
      (need : ℕ) (m m' m'' : Memory) → SameBelow need m m' → m'' ≡ m' → SameBelow need m m''
  below-before need m m' m'' h e = subst (SameBelow need m) (sym e) h

  module _ (reliable : Reliable H) where
    ftruncate_succeeds : (n : ℕ) (w : World H) → (perform H (ftruncate n) w).0 ≡ true
    unfolding perform
    ftruncate_succeeds n w = reliable.sizes n w.state

    mmap_succeeds : (n : ℕ) (w : World H) → (perform H (mmap n) w).0 ≡ true
    unfolding perform
    mmap_succeeds n w = reliable.mmaps n w.state

    open_succeeds : (p : String) (w : World H) → (perform H (open_blob p) w).0 ≡ true
    unfolding perform
    open_succeeds p w = reliable.opens p w.state

    -- From a memory that is still the one of `w₀`.
    blob_resize-Mapped :
        (need : ℕ) (e : Engine) (w w₀ : World H)
        → memory machine w ≡ memory machine w₀
        → Mapped need e w₀ (blob_resize H has data_dir need e w)
    unfolding blob_resize
    blob_resize-Mapped need e w w₀ same =
        let r = perform H (ftruncate need) w in
        let sized = ftruncate_succeeds need w in
        rw (sized, mmap_succeeds need r.1)
          (
            refl,
            refl,
            refl,
            refl,
            below-after need (memory machine w₀) (memory machine w) _ same (
                below-before need (memory machine w) (memory machine r.1) _
                  (law machine (ftruncate need) w sized) (law machine (mmap need) r.1)),
          )

    blob_open-Mapped :
        (need : ℕ) (e : Engine) (w w₀ : World H)
        → memory machine w ≡ memory machine w₀
        → Mapped need e w₀ (blob_open H has data_dir need e w)
    unfolding blob_open
    blob_open-Mapped need e w w₀ same =
        let w₁ = (perform H (make_dir data_dir 0o755) w).1 in
        let r = perform H (open_blob (data_dir <> "/data.blob")) w₁ in
        if_either (Mapped need e w₀) e.fd _ _ w (blob_resize-Mapped need e w w₀ same) (
          rw (open_succeeds (data_dir <> "/data.blob") w₁) (
            blob_resize-Mapped need (record e { fd = true }) r.1 w₀
              (law machine (open_blob (data_dir <> "/data.blob")) w₁
                ∙ law machine (make_dir data_dir 0o755) w
                ∙ same)))

    blob_remap-Mapped :
        (need : ℕ) (blob : Option ℕ) (e : Engine) (w : World H)
        → Mapped need e w (
            let (e', w') = blob_unmap H has data_dir blob e w in
            blob_open H has data_dir need e' w')
    unfolding blob_unmap
    blob_remap-Mapped need none e w = blob_open-Mapped need e w w refl
    blob_remap-Mapped need (some n) e w =
        blob_open-Mapped need (record e { blob = none }) (perform H (munmap n) w).1 w
          (law machine (munmap n) w)

    pub blob_map-Mapped :
        (need : ℕ) (e : Engine) (w : World H) → Mapped need e w (blob_map H has data_dir need e w)
    unfolding blob_map
    blob_map-Mapped need e w = elim (Bool-cases (holds e.blob need)) [
      | inl fits ↦
          rw fits
            (refl, held e.blob need fits, refl, refl, below_refl need (memory machine w) _ refl)
      | inr small ↦ rw small (blob_remap-Mapped need e.blob e w)
    ]
