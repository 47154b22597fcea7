-- ===== src/Shim/Transport/Choice.antt =====
-- interceptor/preload.c: the pipeline where it is available, the serial copy otherwise.
use k8s_native_fast_gpu_chec.Prelude.{
  String, Bool, true, false, ◌&&◌, List, none, ◌≡◌, refl, sym, ap, ◌∙◌, ◌⊎◌, inl, inr, nat_eq,
  Bool-cases,
}
use mathlib.Core.Path.{subst}
use k8s_native_fast_gpu_chec.Effect.{Handler, World, perform}
use k8s_native_fast_gpu_chec.Shim.Calls.{
  Op, Reply, a, b, Mode, stream_create, stream_destroy, stream_sync, event_create, event_destroy,
}
use k8s_native_fast_gpu_chec.Shim.Owned.{Owned, call_if}
use k8s_native_fast_gpu_chec.Shim.Copying.{
  pipe_loop, pipe_copy, pipe_with_events, pipe_end, create_events, transfers, PipeResult, copied,
  unavailable,
}
use k8s_native_fast_gpu_chec.Shim.Machine.{Machine, Reliable, memory, law}
use k8s_native_fast_gpu_chec.Shim.Transport.Rounds.{bytes, carry, Idle}
use k8s_native_fast_gpu_chec.Shim.Transport.Pipeline.{pipe_loop_moves}
use k8s_native_fast_gpu_chec.Shim.Transport.Serial.{Carried, transfers-Moderate}

module _ (H : Handler Op Reply) (has : String → Bool) (machine : Machine H) where
  -- A call that leaves the memory alone leaves it alone also where its function is not found.
  pub call_if-memory :
      (name : String) (o : Op) (w : World H)
      → memory machine (perform H o w).1 ≡ memory machine w
      → memory machine (call_if H has name o w).1 ≡ memory machine w
  unfolding call_if
  call_if-memory name o w e = elim (Bool-cases (has name)) [
    | inl found ↦ rw found e
    | inr missing ↦ rw missing refl
  ]

  create_events-memory : (w : World H) → memory machine (create_events H has w).1 ≡ memory machine w
  unfolding create_events
  create_events-memory w =
      let r = perform H (event_create a) w in
      elim (Bool-cases (nat_eq r.0 0)) [
        | inl h ↦ rw h (law machine (event_create b) r.1 ∙ law machine (event_create a) w)
        | inr h ↦ rw h (law machine (event_create a) w)
      ]

  pipe_end-memory :
      (fine : Bool) (w : World H) → memory machine (pipe_end H has fine w).1 ≡ memory machine w
  unfolding pipe_end
  pipe_end-memory fine w =
      let w₁ = (call_if H has "cudaStreamSynchronize" stream_sync w).1 in
      let w₂ = (call_if H has "cudaEventDestroy" (event_destroy a) w₁).1 in
      let w₃ = (call_if H has "cudaEventDestroy" (event_destroy b) w₂).1 in
      call_if-memory "cudaStreamDestroy" stream_destroy w₃ (law machine stream_destroy w₃)
      ∙ call_if-memory "cudaEventDestroy" (event_destroy b) w₂ (law machine (event_destroy b) w₂)
      ∙ call_if-memory "cudaEventDestroy" (event_destroy a) w₁ (law machine (event_destroy a) w₁)
      ∙ call_if-memory "cudaStreamSynchronize" stream_sync w (law machine stream_sync w)

  module _ (reliable : Reliable H) where
    -- Either all is copied, or nothing is done and the caller has to copy.
    abbrev Copied : Mode → List Owned → World H → PipeResult × World H → Type 0
    Copied mode os w (r, w') =
        ((r ≡ copied) × Carried mode (transfers mode os) (memory machine w) (memory machine w'))
        ⊎ ((r ≡ unavailable) × (memory machine w' ≡ memory machine w))

    pipe_with_events-Copied :
        (mode : Mode) (os : List Owned) (events : Bool) (w w₀ : World H)
        → memory machine w ≡ memory machine w₀
        → Idle (memory machine w₀)
        → Copied mode os w₀ (pipe_with_events H has mode os events w)
    unfolding pipe_with_events pipe_end
    pipe_with_events-Copied mode os true w w₀ e h =
        let r = pipe_loop H mode (transfers mode os) a none w in
        let (fine, moved, idle) =
          pipe_loop_moves H machine reliable mode (transfers mode os) w (transfers-Moderate mode os)
            (subst Idle (sym e) h) in
        let ended = pipe_end-memory r.0 r.1 in
        inl (
          rw fine refl,
          (
            ap bytes ended ∙ moved ∙ ap (λ m. carry mode (transfers mode os) (bytes m)) e,
            subst Idle (sym ended) idle,
          ),
        )
    pipe_with_events-Copied mode os false w w₀ e h = inr (
      refl,
      call_if-memory "cudaStreamDestroy" stream_destroy w (law machine stream_destroy w) ∙ e,
    )

    pub pipe_copy-Copied :
        (mode : Mode) (ready : Bool) (os : List Owned) (w : World H)
        → Idle (memory machine w)
        → Copied mode os w (pipe_copy H has mode ready os w)
    unfolding pipe_copy
    pipe_copy-Copied mode ready os w h =
        let r = perform H stream_create w in
        let events = create_events H has r.1 in
        elim (Bool-cases (
          ready
          && has "cudaStreamCreate"
          && has "cudaEventCreate"
          && has "cudaEventRecord"
          && has "cudaEventSynchronize")) [
            | inr missing ↦ rw missing (inr (refl, refl))
            | inl resolved ↦ elim (Bool-cases r.0) [
              | inr none_made ↦ rw (resolved, none_made) (inr (refl, law machine stream_create w))
              | inl made ↦
                  rw (resolved, made)
                    (pipe_with_events-Copied mode os events.0 events.1 w
                      (create_events-memory r.1 ∙ law machine stream_create w) h)
            ]
          ]
