-- ===== src/Shim/Transport/Serial.antt =====
-- interceptor/preload.c: the serial copies, and the choice between them and the pipeline.
use k8s_native_fast_gpu_chec.Prelude.{
  ℕ, zero, suc, ◌+◌, ◌-◌, ◌<◌, true, false, List, [], ◌∷◌, ◌≡◌, refl, sym, ap, ◌∙◌, inl, inr, All,
  All-append, ltb, Bool-cases, arith,
}
use mathlib.Core.Path.{subst}
use k8s_native_fast_gpu_chec.Effect.{Handler, World, perform}
use k8s_native_fast_gpu_chec.Shim.Calls.{Op, Reply, a, Mode, freeze, remap, copy_sync}
use k8s_native_fast_gpu_chec.Shim.Registry.{add64}
use k8s_native_fast_gpu_chec.Shim.Owned.{Owned}
use k8s_native_fast_gpu_chec.Shim.Copying.{
  Transfer, memcpy_mt, serial_out, serial_in, serial_freeze, serial_remap, transfers, chunks,
  chunks_of, chunk_of, selected,
}
use k8s_native_fast_gpu_chec.Shim.Machine.{
  host_copied, device_copied, put, Memory, Machine, Reliable, memory, law,
}
use k8s_native_fast_gpu_chec.Shim.Transport.{memcpy_mt-memory}
use k8s_native_fast_gpu_chec.Shim.Transport.Rounds.{
  bytes, carry, carry-append, Idle, Moderate, put-source, put-inside, restaged,
}

chunk_of-le : (rem : ℕ) → chunk_of rem < 18446744073709551613
chunk_of-le rem = ground arith

-- One round of the loop over a buffer.
pub chunks-round :
    (fuel at off rem coff : ℕ)
    → ltb 0 rem ≡ true
    → chunks (suc fuel) at off rem coff
      ≡ record { dev = add64 at coff; blob = off + coff; size = chunk_of rem }
        ∷ chunks fuel at off (rem - chunk_of rem) (coff + chunk_of rem)
unfolding chunks
chunks-round fuel at off rem coff h = ground arith

pub chunks-over :
    (fuel at off rem coff : ℕ) → ltb 0 rem ≡ false → chunks (suc fuel) at off rem coff ≡ []
unfolding chunks
chunks-over fuel at off rem coff h = ground arith

chunks-Moderate : (fuel at off rem coff : ℕ) → All Moderate (chunks fuel at off rem coff)
unfolding chunks
chunks-Moderate zero at off rem coff = tt
chunks-Moderate (suc fuel) at off rem coff = elim (Bool-cases (ltb 0 rem)) [
  | inl more ↦
      subst (All Moderate) (sym (chunks-round fuel at off rem coff more))
        (chunk_of-le rem, chunks-Moderate fuel at off (rem - chunk_of rem) (coff + chunk_of rem))
  | inr over ↦ subst (All Moderate) (sym (chunks-over fuel at off rem coff over)) tt
]

chunks_of-Moderate : (o : Owned) → All Moderate (chunks_of o)
unfolding chunks_of
chunks_of-Moderate o = chunks-Moderate o.req o.va o.blob_off o.req 0

pub transfers-Moderate : (mode : Mode) (os : List Owned) → All Moderate (transfers mode os)
unfolding transfers
transfers-Moderate mode [] = tt
transfers-Moderate mode (o ∷ os) = elim (Bool-cases (selected mode o)) [
  | inl taken ↦ rw taken (
      All-append Moderate (chunks_of o) (transfers mode os) (chunks_of-Moderate o)
        (transfers-Moderate mode os))
  | inr left ↦ rw left (transfers-Moderate mode os)
]

-- What a copy of these transfers leaves.
abbrev pub Carried : Mode → List Transfer → Memory → Memory → Type 0
Carried mode ts m m' = (bytes m' ≡ carry mode ts (bytes m)) × Idle m'

module _ (H : Handler Op Reply) (machine : Machine H) (reliable : Reliable H) where
  copy_sync-memory :
      (mode : Mode) (at n : ℕ) (w : World H)
      → (memory machine w).settled a ≡ true
      → (memory machine w).running ≡ []
      → memory machine (perform H (copy_sync mode at n) w).1
        ≡ device_copied mode a at n (memory machine w)
  unfolding perform
  copy_sync-memory mode at n w q i =
      law machine (copy_sync mode at n) w q i (reliable.copies mode at n w.state)

  serial_out-Carried :
      (ts : List Transfer) (w : World H)
      → All Moderate ts
      → Idle (memory machine w)
      → Carried freeze ts (memory machine w) (memory machine (serial_out H ts w).1)
  unfolding serial_out carry
  serial_out-Carried [] w k h = (refl, h)
  serial_out-Carried (t ∷ ts) w (k, ks) h =
      let m = memory machine w in
      let w₁ = (perform H (copy_sync freeze t.dev t.size) w).1 in
      let e₁ = copy_sync-memory freeze t.dev t.size w h.0 h.2 in
      let w₂ = (memcpy_mt H freeze a t.blob t.size w₁).1 in
      let e₂ =
        memcpy_mt-memory H machine freeze a t.blob t.size w₁ k (ap (λ m. m.settled a) e₁ ∙ h.0)
          (ap (λ m. m.running) e₁ ∙ h.2)
        ∙ ap (host_copied freeze a 0 t.blob t.size) e₁ in
      let (moved, idle) = serial_out-Carried ts w₂ ks (subst Idle (sym e₂) h) in
      rw (status freeze t w) (
        moved
            ∙ ap (λ m. carry freeze ts (bytes m)) e₂
            ∙ ap (λ f. carry freeze ts (m.dev, f))
                (put-source m.file t.blob (put (m.stage a) 0 m.dev t.dev t.size) 0 m.dev t.dev
                  t.size (put-inside (m.stage a) m.dev t.dev t.size)),
        idle,
      )
    where
      status :
          (mode : Mode) (t : Transfer) (w : World H)
          → (perform H (copy_sync mode t.dev t.size) w).0 ≡ 0
      status mode t w = unfold perform in reliable.copies mode t.dev t.size w.state

  serial_in-Carried :
      (ts : List Transfer) (w : World H)
      → All Moderate ts
      → Idle (memory machine w)
      → Carried remap ts (memory machine w) (memory machine (serial_in H ts w).1)
  unfolding serial_in carry
  serial_in-Carried [] w k h = (refl, h)
  serial_in-Carried (t ∷ ts) w (k, ks) h =
      let m = memory machine w in
      let w₁ = (memcpy_mt H remap a t.blob t.size w).1 in
      let e₁ = memcpy_mt-memory H machine remap a t.blob t.size w k h.0 h.2 in
      let w₂ = (perform H (copy_sync remap t.dev t.size) w₁).1 in
      let e₂ =
        copy_sync-memory remap t.dev t.size w₁ (ap (λ m. m.settled a) e₁ ∙ h.0)
          (ap (λ m. m.running) e₁ ∙ h.2)
        ∙ ap (device_copied remap a t.dev t.size) e₁ in
      let (moved, idle) = serial_in-Carried ts w₂ ks (subst Idle (sym e₂) h) in
      (
        moved
            ∙ ap (λ m. carry remap ts (bytes m)) e₂
            ∙ ap (λ d. carry remap ts (d, m.file))
                (restaged m.dev (m.stage a) m.file t.dev t.blob t.size),
        idle,
      )

  pub serial_freeze-Carried :
      (os : List Owned) (w : World H)
      → Idle (memory machine w)
      → Carried freeze
          (transfers freeze os)
          (memory machine w)
          (memory machine (serial_freeze H os w).1)
  unfolding serial_freeze transfers carry
  serial_freeze-Carried [] w h = (refl, h)
  serial_freeze-Carried (o ∷ os) w h = elim (Bool-cases (selected freeze o)) [
    | inl taken ↦
        let w' = (serial_out H (chunks_of o) w).1 in
        let (moved, idle) = serial_out-Carried (chunks_of o) w (chunks_of-Moderate o) h in
        let (moved', idle') = serial_freeze-Carried os w' idle in
        rw taken (
          moved'
              ∙ ap (carry freeze (transfers freeze os)) moved
              ∙ sym (
                  carry-append freeze (chunks_of o) (transfers freeze os)
                    (bytes (memory machine w))),
          idle',
        )
    | inr left ↦ rw left (serial_freeze-Carried os w h)
  ]

  pub serial_remap-Carried :
      (os : List Owned) (w : World H)
      → Idle (memory machine w)
      → Carried remap
          (transfers remap os)
          (memory machine w)
          (memory machine (serial_remap H os w).1)
  unfolding serial_remap transfers carry chunks_of
  serial_remap-Carried [] w h = (refl, h)
  serial_remap-Carried (o ∷ os) w h = elim (Bool-cases (selected remap o)) [
    | inl taken ↦
        let w' = (serial_in H (chunks_of o) w).1 in
        let (moved, idle) = serial_in-Carried (chunks_of o) w (chunks_of-Moderate o) h in
        let (moved', idle') = serial_remap-Carried os w' idle in
        rw taken (
          moved'
              ∙ ap (carry remap (transfers remap os)) moved
              ∙ sym (
                  carry-append remap (chunks_of o) (transfers remap os) (bytes (memory machine w))),
          idle',
        )
    | inr left ↦ rw left (serial_remap-Carried os w h)
  ]
