-- ===== src/Shim/Transport/Pipeline.antt =====
-- interceptor/preload.c: the pipeline of `pipe_copy` moves what one copy after the other moves.
use k8s_native_fast_gpu_chec.Prelude.{
  true, List, [], ◌∷◌, Option, none, some, ◌≡◌, refl, sym, ap, ◌∙◌, All,
}
use mathlib.Core.Path.{subst}
use k8s_native_fast_gpu_chec.Effect.{Handler, World, perform}
use k8s_native_fast_gpu_chec.Shim.Calls.{
  Op, Reply, Side, a, Mode, freeze, remap, copy_async, event_record, event_sync,
}
use k8s_native_fast_gpu_chec.Shim.Copying.{Transfer, other, memcpy_mt, drain, start_copy, pipe_loop}
use k8s_native_fast_gpu_chec.Shim.Machine.{
  host_copied, device_copied, in_flight, Machine, Reliable, memory, law,
}
use k8s_native_fast_gpu_chec.Shim.Transport.{memcpy_mt-memory}
use k8s_native_fast_gpu_chec.Shim.Transport.Rounds.{
  bytes, carry, carry-append, Idle, Moderate, last, Ready, pending, started, recorded, waited,
  drained, round-Ready, drained-bytes, final-bytes, final-Idle, other-other, Waitable,
  Waitable-round, Waitable-last, settled-waited, Ready-settled, Ready-running,
}

module _ (H : Handler Op Reply) (machine : Machine H) (reliable : Reliable H) where
  start_copy-status :
      (mode : Mode) (s : Side) (t : Transfer) (w : World H) → (start_copy H mode s t w).0 ≡ 0
  unfolding start_copy perform
  start_copy-status freeze s t w = reliable.copies_async freeze s t.dev t.size w.state
  start_copy-status remap s t w =
      reliable.copies_async remap s t.dev t.size (memcpy_mt H remap s t.blob t.size w).1.state

  start_copy-memory :
      (mode : Mode) (s : Side) (t : Transfer) (w : World H)
      → Moderate t
      → (memory machine w).settled s ≡ true
      → (memory machine w).running ≡ []
      → memory machine (start_copy H mode s t w).1 ≡ started mode s t (memory machine w)
  unfolding start_copy
  start_copy-memory freeze s t w k q i =
      law machine (copy_async freeze s t.dev t.size) w q i (start_copy-status freeze s t w)
  start_copy-memory remap s t w k q i =
      let w' = (memcpy_mt H remap s t.blob t.size w).1 in
      let e = memcpy_mt-memory H machine remap s t.blob t.size w k q i in
      law machine (copy_async remap s t.dev t.size) w' (ap (λ m. m.settled s) e ∙ q)
        (ap (λ m. m.running) e ∙ i) (start_copy-status remap s t w)
      ∙ ap (λ m. in_flight s (device_copied remap s t.dev t.size m)) e

  event_record-memory :
      (s : Side) (w : World H)
      → memory machine (perform H (event_record s) w).1 ≡ recorded s (memory machine w)
  unfolding perform
  event_record-memory s w = law machine (event_record s) w (reliable.records s w.state)

  event_sync-memory :
      (s : Side) (w : World H)
      → (memory machine w).covered s ≡ true
      → memory machine (perform H (event_sync s) w).1 ≡ waited s (memory machine w)
  unfolding perform
  event_sync-memory s w c = law machine (event_sync s) w c (reliable.waits s w.state)

  drain-memory :
      (mode : Mode) (s : Side) (prev : Option Transfer) (w : World H)
      → Waitable (memory machine w) s prev
      → memory machine (drain H mode (last s prev) w).1 ≡ drained mode s prev (memory machine w)
  unfolding drain
  drain-memory freeze s none w h = refl
  drain-memory remap s none w h = refl
  drain-memory remap s (some t) w (c, k, i) = event_sync-memory (other s) w c
  drain-memory freeze s (some t) w (c, k, i) =
      let w' = (perform H (event_sync (other s)) w).1 in
      let e = event_sync-memory (other s) w c in
      memcpy_mt-memory H machine freeze (other s) t.blob t.size w' k
        (ap (λ m. m.settled (other s)) e ∙ settled-waited (other s) (memory machine w))
        (ap (λ m. m.running) e ∙ i)
      ∙ ap (host_copied freeze (other s) 0 t.blob t.size) e

  -- The world after one round, up to the next.
  abbrev after_round : Mode → Side → Transfer → Option Transfer → World H → World H
  after_round mode s t prev w =
      (drain H mode (last s prev) (perform H (event_record s) (start_copy H mode s t w).1).1).1

  after_round-memory :
      (mode : Mode) (s : Side) (t : Transfer) (prev : Option Transfer) (w : World H)
      → Moderate t
      → Ready mode (memory machine w) s prev
      → memory machine (after_round mode s t prev w)
        ≡ drained mode s prev (recorded s (started mode s t (memory machine w)))
  after_round-memory mode s t prev w k h =
      let w₁ = (start_copy H mode s t w).1 in
      let w₂ = (perform H (event_record s) w₁).1 in
      let m = memory machine w in
      let e : memory machine w₂ ≡ recorded s (started mode s t m) =
        event_record-memory s w₁
        ∙ ap (recorded s) (
            start_copy-memory mode s t w k (Ready-settled mode s prev m h)
              (Ready-running mode s prev m h)) in
      drain-memory mode s prev w₂
        (subst (λ m. Waitable m s prev) (sym e) (Waitable-round mode s t prev m h))
      ∙ ap (drained mode s prev) e

  -- The loops of `pipe_copy` from any round on.
  pipe_loop-carry :
      (mode : Mode) (ts : List Transfer) (s : Side) (prev : Option Transfer)
      (prevs : Option (Side × Transfer)) (w : World H)
      → prevs ≡ last s prev
      → All Moderate ts
      → Ready mode (memory machine w) s prev
      → let (fine, w') = pipe_loop H mode ts s prevs w in
        (fine ≡ true)
        × (bytes (memory machine w')
            ≡ carry mode ts (carry mode (pending mode prev) (bytes (memory machine w))))
        × Idle (memory machine w')
  unfolding pipe_loop carry
  pipe_loop-carry mode [] s prev prevs w e ks h =
      let m = memory machine w in
      let d = drain-memory mode s prev w (Waitable-last mode s prev m h) in
      rw e (
        refl,
        ap bytes d ∙ final-bytes mode s prev m h,
        subst Idle (sym d) (final-Idle mode s prev m h),
      )
  pipe_loop-carry mode (t ∷ ts) s prev prevs w e (k, ks) h =
      let m = memory machine w in
      let w' = after_round mode s t prev w in
      let r = after_round-memory mode s t prev w k h in
      let (fine, moved, idle) =
        pipe_loop-carry mode ts (other s) (some t) (some (s, t)) w'
          (ap (λ z. some (z, t)) (sym (other-other s))) ks
          (subst (λ m. Ready mode m (other s) (some t)) (sym r)
            (round-Ready mode s t prev m h k)) in
      rw (e, start_copy-status mode s t w)
        (
          fine,
          moved
              ∙ ap (λ m. carry mode ts (carry mode (pending mode (some t)) (bytes m))) r
              ∙ ap (carry mode ts) (drained-bytes mode s t prev m h)
              ∙ sym (carry-append mode (t ∷ []) ts (carry mode (pending mode prev) (bytes m))),
          idle,
        )

  pub pipe_loop_moves :
      (mode : Mode) (ts : List Transfer) (w : World H)
      → All Moderate ts
      → Idle (memory machine w)
      → let (fine, w') = pipe_loop H mode ts a none w in
        (fine ≡ true)
        × (bytes (memory machine w') ≡ carry mode ts (bytes (memory machine w)))
        × Idle (memory machine w')
  unfolding carry
  pipe_loop_moves freeze ts w ks h = pipe_loop-carry freeze ts a none none w refl ks h
  pipe_loop_moves remap ts w ks h = pipe_loop-carry remap ts a none none w refl ks h
