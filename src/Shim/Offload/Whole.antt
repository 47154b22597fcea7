-- ===== src/Shim/Offload/Whole.antt =====
-- interceptor/preload.c: the chunks of a buffer add up to the buffer.
use k8s_native_fast_gpu_chec.Prelude.{
  ℕ, zero, suc, ◌+◌, ◌-◌, ◌≤◌, ◌<◌, String, Bool, true, false, List, [], ◌∷◌, ◌≡◌, refl, sym, ap,
  ◌∙◌, inl, inr, All, ltb, ltb→lt, if◌then◌else◌, Bool-cases, arith,
}
use mathlib.Core.Path.{subst}
use k8s_native_fast_gpu_chec.Effect.{Handler, World}
use k8s_native_fast_gpu_chec.Shim.Calls.{Op, Reply, Mode, freeze, remap}
use k8s_native_fast_gpu_chec.Shim.Registry.{add64}
use k8s_native_fast_gpu_chec.Shim.Owned.{Owned}
use k8s_native_fast_gpu_chec.Shim.Copying.{
  Transfer, chunk_of, chunks, chunks_of, selected, transfers, pipe_copy, serial_freeze,
  serial_remap,
}
use k8s_native_fast_gpu_chec.Shim.Engine.{copy_out, copy_in}
use k8s_native_fast_gpu_chec.Shim.Machine.{Bytes, put, Machine, Reliable, memory}
use k8s_native_fast_gpu_chec.Shim.Transport.{put-none, put-put}
use k8s_native_fast_gpu_chec.Shim.Transport.Rounds.{bytes, carry, carry-append, Idle}
use k8s_native_fast_gpu_chec.Shim.Transport.Serial.{
  chunks-round, chunks-over, serial_freeze-Carried, serial_remap-Carried,
}
use k8s_native_fast_gpu_chec.Shim.Transport.Choice.{pipe_copy-Copied}

-- A buffer that ends within the 64-bit addresses.
abbrev pub Addressed : Owned → Type 0
Addressed o = o.va + o.req ≤ 18446744073709551616

-- One copy for a buffer.
abbrev pub move : Mode → ℕ → ℕ → ℕ → Bytes × Bytes → Bytes × Bytes
move freeze at off n (d, f) = (d, put f off d at n)
move remap at off n (d, f) = (put d at f off n, f)

-- One copy for each selected buffer.
unfoldable pub move_all : Mode → List Owned → Bytes × Bytes → Bytes × Bytes
move_all m [] p = p
move_all m (o ∷ os) p = move_all m os (if selected m o then move m o.va o.blob_off o.req p else p)

move-none : (m : Mode) (at off : ℕ) (p : Bytes × Bytes) → p ≡ move m at off 0 p
move-none freeze at off (d, f) = ap (λ f. (d, f)) (sym (put-none f off d at))
move-none remap at off (d, f) = ap (λ d. (d, f)) (sym (put-none d at f off))

pub add64-exact : (m n : ℕ) → m + n < 18446744073709551616 → add64 m n ≡ m + n
add64-exact m n h = omega arith

chunk_bounds : (rem : ℕ) → ltb 0 rem ≡ true → (0 < chunk_of rem) × (chunk_of rem ≤ rem)
chunk_bounds rem h = ground arith

-- One chunk more.
carry-move :
    (m : Mode) (at off n k : ℕ) (p : Bytes × Bytes)
    → at + n < 18446744073709551616
    → carry m (record { dev = add64 at n; blob = off + n; size = k } ∷ []) (move m at off n p)
      ≡ move m at off (n + k) p
unfolding carry
carry-move freeze at off n k (d, f) h =
    ap (λ f. (d, f)) (put-put f off d at n k (off + n) (add64 at n) refl (add64-exact at n h))
carry-move remap at off n k (d, f) h =
    ap (λ d. (d, f)) (put-put d at f off n k (add64 at n) (off + n) (add64-exact at n h) refl)

carry-nil : (m : Mode) (p : Bytes × Bytes) → carry m [] p ≡ p
unfolding carry
carry-nil m (d, f) = refl

chunks-move :
    (m : Mode) (fuel at off rem n : ℕ) (p : Bytes × Bytes)
    → rem ≤ fuel
    → at + n + rem ≤ 18446744073709551616
    → carry m (chunks fuel at off rem n) (move m at off n p) ≡ move m at off (n + rem) p
unfolding carry chunks
chunks-move m zero at off rem n p h k =
    carry-nil m (move m at off n p) ∙ ap (λ z. move m at off z p) (omega arith)
chunks-move m (suc fuel) at off rem n p h k = elim (Bool-cases (ltb 0 rem)) [
  | inl more ↦
      let c = chunk_of rem in
      let (pos_c, le_c) = chunk_bounds rem more in
      let t : Transfer = record { dev = add64 at n; blob = off + n; size = c } in
      let rest = chunks fuel at off (rem - c) (n + c) in
      ap (λ ts. carry m ts (move m at off n p)) (chunks-round fuel at off rem n more)
      ∙ carry-append m (t ∷ []) rest (move m at off n p)
      ∙ ap (carry m rest) (carry-move m at off n c p (omega (arith, ltb→lt 0 rem more)))
      ∙ chunks-move m fuel at off (rem - c) (n + c) p (omega arith) (omega arith)
      ∙ ap (λ z. move m at off z p) (omega arith)
  | inr over ↦
      ap (λ ts. carry m ts (move m at off n p)) (chunks-over fuel at off rem n over)
      ∙ carry-nil m (move m at off n p)
      ∙ ap (λ z. move m at off z p) (ground arith)
]

chunks_of-move :
    (m : Mode) (o : Owned) (p : Bytes × Bytes)
    → Addressed o
    → carry m (chunks_of o) p ≡ move m o.va o.blob_off o.req p
unfolding chunks_of
chunks_of-move m o p h =
    ap (carry m (chunks o.req o.va o.blob_off o.req 0)) (move-none m o.va o.blob_off p)
    ∙ chunks-move m o.req o.va o.blob_off o.req 0 p (omega arith) (omega arith)
    ∙ ap (λ z. move m o.va o.blob_off z p) (omega arith)

chunks-move_if :
    (m : Mode) (o : Owned) (taken : Bool) (p : Bytes × Bytes)
    → Addressed o
    → carry m (if taken then chunks_of o else []) p
      ≡ (if taken then move m o.va o.blob_off o.req p else p)
chunks-move_if m o true p h = chunks_of-move m o p h
chunks-move_if m o false p h = carry-nil m p

-- What the loops over chunks move is what one copy for each selected buffer moves.
pub transfers-move_all :
    (m : Mode) (os : List Owned) (p : Bytes × Bytes)
    → All Addressed os
    → carry m (transfers m os) p ≡ move_all m os p
unfolding transfers move_all
transfers-move_all m [] p h = carry-nil m p
transfers-move_all m (o ∷ os) p (h, hs) =
    carry-append m (if selected m o then chunks_of o else []) (transfers m os) p
    ∙ ap (carry m (transfers m os)) (chunks-move_if m o (selected m o) p h)
    ∙ transfers-move_all m os (if selected m o then move m o.va o.blob_off o.req p else p) hs

module _ (H : Handler Op Reply) (has : String → Bool) (data_dir : String) (machine : Machine H)
    (reliable : Reliable H) where
  -- The pipeline or its fallback, in a world whose memory is `m` before.
  pub freeze_copies :
      (ready : Bool) (os : List Owned) (w : World H)
      → All Addressed os
      → Idle (memory machine w)
      → let (r, w₁) = pipe_copy H has freeze ready os w in
        let w₂ = (copy_out H has data_dir r os w₁).1 in
        (bytes (memory machine w₂) ≡ move_all freeze os (bytes (memory machine w)))
        × Idle (memory machine w₂)
  unfolding copy_out
  freeze_copies ready os w k h =
      let (r, w₁) = pipe_copy H has freeze ready os w in
      elim (pipe_copy-Copied H has machine reliable freeze ready os w h) [
        | inl (e, (moved, idle)) ↦
            rw e (moved ∙ transfers-move_all freeze os (bytes (memory machine w)) k, idle)
        | inr (e, same) ↦
            let (moved, idle) =
              serial_freeze-Carried H machine reliable os w₁ (subst Idle (sym same) h) in
            rw e (
              moved
                  ∙ transfers-move_all freeze os (bytes (memory machine w₁)) k
                  ∙ ap (λ m. move_all freeze os (bytes m)) same,
              idle,
            )
      ]

  pub remap_copies :
      (ready : Bool) (os : List Owned) (w : World H)
      → All Addressed os
      → Idle (memory machine w)
      → let (r, w₁) = pipe_copy H has remap ready os w in
        let w₂ = (copy_in H has data_dir r true os w₁).1 in
        (bytes (memory machine w₂) ≡ move_all remap os (bytes (memory machine w)))
        × Idle (memory machine w₂)
  unfolding copy_in
  remap_copies ready os w k h =
      let (r, w₁) = pipe_copy H has remap ready os w in
      elim (pipe_copy-Copied H has machine reliable remap ready os w h) [
        | inl (e, (moved, idle)) ↦
            rw e (moved ∙ transfers-move_all remap os (bytes (memory machine w)) k, idle)
        | inr (e, same) ↦
            let (moved, idle) =
              serial_remap-Carried H machine reliable os w₁ (subst Idle (sym same) h) in
            rw e (
              moved
                  ∙ transfers-move_all remap os (bytes (memory machine w₁)) k
                  ∙ ap (λ m. move_all remap os (bytes m)) same,
              idle,
            )
      ]

-- In a world whose calls have their documented effects and whose copies succeed, let every buffer end
-- within 64 bits and no copy be under way. Then `pipe_copy` with its fallback leaves the device and the
-- blob as one copy for each selected buffer does, in both directions, whether the pipeline was available
-- or not; so do the serial loops alone; and no copy is under way at the end of any of the four.
pub copies_agree :
    (H : Handler Op Reply) (has : String → Bool) (data_dir : String) (machine : Machine H)
    (ready : Bool) (os : List Owned) (w : World H)
    → Reliable H
    → All Addressed os
    → Idle (memory machine w)
    → let (r, u₁) = pipe_copy H has freeze ready os w in
      let out = memory machine (copy_out H has data_dir r os u₁).1 in
      let (s, v₁) = pipe_copy H has remap ready os w in
      let in_again = memory machine (copy_in H has data_dir s true os v₁).1 in
      let serial_out = memory machine (serial_freeze H os w).1 in
      let serial_in = memory machine (serial_remap H os w).1 in
      (bytes out ≡ move_all freeze os (bytes (memory machine w)))
      × (bytes serial_out ≡ bytes out)
      × (bytes in_again ≡ move_all remap os (bytes (memory machine w)))
      × (bytes serial_in ≡ bytes in_again)
      × (Idle out × Idle serial_out)
      × (Idle in_again × Idle serial_in)
copies_agree H has data_dir machine ready os w reliable k h =
    let d = bytes (memory machine w) in
    let (out, idle) = freeze_copies H has data_dir machine reliable ready os w k h in
    let (again, idle') = remap_copies H has data_dir machine reliable ready os w k h in
    let (s_out, s_idle) = serial_freeze-Carried H machine reliable os w h in
    let (s_in, s_idle') = serial_remap-Carried H machine reliable os w h in
    (
      out,
      s_out ∙ transfers-move_all freeze os d k ∙ sym out,
      again,
      s_in ∙ transfers-move_all remap os d k ∙ sym again,
      (idle, s_idle),
      (idle', s_idle'),
    )
