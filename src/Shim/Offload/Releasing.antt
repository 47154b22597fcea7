-- ===== src/Shim/Offload/Releasing.antt =====
-- interceptor/preload.c: giving the physical memory back, and closing the blob.
use k8s_native_fast_gpu_chec.Prelude.{
  ℕ, String, Bool, true, List, [], ◌∷◌, Option, none, some, ◌≡◌, refl, ap, ◌∙◌, inl, inr,
  if◌then◌else◌, Bool-cases,
}
use k8s_native_fast_gpu_chec.Effect.{Handler, World, perform}
use k8s_native_fast_gpu_chec.Shim.Calls.{
  Op, Reply, freeze, mem_unmap, mem_release, msync, munmap, close_blob,
}
use k8s_native_fast_gpu_chec.Shim.Owned.{Owned}
use k8s_native_fast_gpu_chec.Shim.Copying.{selected}
use k8s_native_fast_gpu_chec.Shim.Engine.{
  Engine, assign_offsets, release_all, blob_flush, blob_close,
}
use k8s_native_fast_gpu_chec.Shim.Machine.{Memory, SameHost, Machine, memory, law}
use k8s_native_fast_gpu_chec.Shim.Offload.Places.{
  froze, frozen_at, next, Fits, Fits-after_first, place_exact,
}
use k8s_native_fast_gpu_chec.Shim.Offload.Quiet.{if_either}

-- The entries once the memory of the selected buffers was given back.
abbrev pub released : Owned → Owned
released o = if selected freeze o then record o { frozen = true } else o

abbrev pub release_list : List Owned → List Owned
release_list [] = []
release_list (o ∷ os) = released o ∷ release_list os

released-placed :
    (o : Owned) (start : ℕ)
    → released (if selected freeze o then record o { blob_off = start } else o)
      ≡ frozen_at start (selected freeze o) o
released-placed o start = elim (Bool-cases (selected freeze o)) [
  | inl taken ↦ rw (taken, taken) refl
  | inr left ↦ rw (left, left) refl
]

pub release_list-froze :
    (os : List Owned) (start : ℕ)
    → Fits start os
    → release_list (assign_offsets os start).0 ≡ froze os start
unfolding assign_offsets froze
release_list-froze [] start h = refl
release_list-froze (o ∷ os) start h =
    let s = next (selected freeze o) start o.req in
    ap
      (λ s.
        released (if selected freeze o then record o { blob_off = start } else o)
        ∷ release_list (assign_offsets os s).0)
      (place_exact o os start h)
    ∙ ap (λ p. p ∷ release_list (assign_offsets os s).0) (released-placed o start)
    ∙ ap (λ t. frozen_at start (selected freeze o) o ∷ t)
        (release_list-froze os s (Fits-after_first o os start h))

pub SameHost-refl : (m m' : Memory) → m' ≡ m → SameHost m m'
SameHost-refl m m' e = record {
  same_file = ap (λ t. t.file) e;
  same_stage = ap (λ t. t.stage) e;
  same_settled = ap (λ t. t.settled) e;
  same_covered = ap (λ t. t.covered) e;
  same_running = ap (λ t. t.running) e;
}

pub SameHost-trans : (m m' m'' : Memory) → SameHost m m' → SameHost m' m'' → SameHost m m''
SameHost-trans m m' m'' h k = record {
  same_file = k.same_file ∙ h.same_file;
  same_stage = k.same_stage ∙ h.same_stage;
  same_settled = k.same_settled ∙ h.same_settled;
  same_covered = k.same_covered ∙ h.same_covered;
  same_running = k.same_running ∙ h.same_running;
}

module _ (H : Handler Op Reply) (has : String → Bool) (data_dir : String) where
  pub release_all-list :
      (os : List Owned) (w : World H) → (release_all H has data_dir os w).0 ≡ release_list os
  unfolding release_all
  release_all-list [] w = refl
  release_all-list (o ∷ os) w =
      let w₁ = (perform H (mem_unmap o.va o.padded) w).1 in
      let w₂ = (perform H (mem_release o.handle) w₁).1 in
      elim (Bool-cases (selected freeze o)) [
        | inl taken ↦ rw taken (ap (λ t. record o { frozen = true } ∷ t) (release_all-list os w₂))
        | inr left ↦ rw left (ap (λ t. o ∷ t) (release_all-list os w))
      ]

module _ (H : Handler Op Reply) (has : String → Bool) (data_dir : String)
    (machine : Machine H) where
  -- The host memory of two worlds is the same.
  abbrev pub HostKept : World H → World H → Type 0
  HostKept w w' = SameHost (memory machine w) (memory machine w')

  pub release_all-HostKept :
      (os : List Owned) (w : World H) → HostKept w (release_all H has data_dir os w).1
  unfolding release_all
  release_all-HostKept [] w = SameHost-refl (memory machine w) _ refl
  release_all-HostKept (o ∷ os) w =
      let w₁ = (perform H (mem_unmap o.va o.padded) w).1 in
      let w₂ = (perform H (mem_release o.handle) w₁).1 in
      elim (Bool-cases (selected freeze o)) [
        | inl taken ↦ rw taken (
            SameHost-trans (memory machine w) (memory machine w₂) _
              (SameHost-trans (memory machine w) (memory machine w₁) (memory machine w₂)
                (law machine (mem_unmap o.va o.padded) w) (law machine (mem_release o.handle) w₁))
              (release_all-HostKept os w₂))
        | inr left ↦ rw left (release_all-HostKept os w)
      ]

  blob_flush-memory :
      (blob : Option ℕ) (w : World H)
      → memory machine (blob_flush H has data_dir blob w).1 ≡ memory machine w
  unfolding blob_flush
  blob_flush-memory none w = refl
  blob_flush-memory (some n) w =
      law machine (munmap n) (perform H (msync n) w).1 ∙ law machine (msync n) w

  -- The mapping is gone, and neither the table, the gate nor the memory has changed.
  pub blob_close-memory :
      (e : Engine) (w : World H)
      → let (e', w') = blob_close H has data_dir e w in
        (memory machine w' ≡ memory machine w)
        × (e'.blob ≡ none)
        × (e'.owned ≡ e.owned)
        × (e'.gate ≡ e.gate)
  unfolding blob_close
  blob_close-memory e w =
      let w₁ = (blob_flush H has data_dir e.blob w).1 in
      let flushed = blob_flush-memory e.blob w in
      if_either
        (λ r.
          (memory machine r.1 ≡ memory machine w)
          × (r.0.blob ≡ none)
          × (r.0.owned ≡ e.owned)
          × (r.0.gate ≡ e.gate))
        e.fd _ _ w₁ (law machine close_blob w₁ ∙ flushed, refl, refl, refl)
        (flushed, refl, refl, refl)
