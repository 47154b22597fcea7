-- ===== src/Shim/Serving.antt =====
-- interceptor/preload.c: how a signal is answered on the control file, which the node agent reads in
-- `WaitForAck` of internal/agent/interceptor.go.
use k8s_native_fast_gpu_chec.Prelude.{
  ℤ, pos, negsuc, String, Bool, true, false, ◌||◌, List, ◌∷◌, ok, ◌≡◌, refl, ap, ◌⊎◌, inl, inr,
  Bool-cases, arith,
}
use k8s_native_fast_gpu_chec.Effect.{Handler, World, Event, perform}
use k8s_native_fast_gpu_chec.Text.Decimal.{print_ℕ}
use k8s_native_fast_gpu_chec.Agent.Interceptor.{is_ack}
use k8s_native_fast_gpu_chec.Shim.Calls.{Op, Reply, fopen, fprintf, fclose, usleep}
use k8s_native_fast_gpu_chec.Shim.Engine.{remap_resolved}
use k8s_native_fast_gpu_chec.Shim.Watcher.{
  Process, Paths, serve, serve_checkpoint, serve_restore, gated_remap, watcher_round, has_buffers,
  read_signal, write_signal, is_signal, gcr_ckpt, gcr_restore, gcr_idle, gcr_gate_set,
  gcr_gate_passes,
}
use k8s_native_fast_gpu_chec.Shim.Gate.{NoneFrozen, restore_remap-NoneFrozen}

-- The newest events: the control file was written with a text that the agent takes for an
-- acknowledgement, and closed.
abbrev pub Wrote : String → List (Event Op Reply) → Type 0
Wrote ctrl ((fclose p, _) ∷ (fprintf q text, _) ∷ es) =
    (p ≡ ctrl) × (q ≡ ctrl) × (is_ack (ok text) ≡ true)
Wrote ctrl es = ⊥

-- The same, before a pause.
abbrev pub Acked : String → List (Event Op Reply) → Type 0
Acked ctrl ((usleep n, _) ∷ es) = Wrote ctrl es
Acked ctrl es = ⊥

-- Files can be opened.
abbrev pub Opens : Handler Op Reply → Type 0
Opens H = (path mode : String) (s : H.State) → (H.handle (fopen path mode) s).0 ≡ true

signals_differ : (sig : ℤ) → is_signal gcr_restore sig ≡ true → is_signal gcr_ckpt sig ≡ false
signals_differ (pos v) h = ground arith
signals_differ (negsuc v) h = refl

module _ (H : Handler Op Reply) (has : String → Bool) (paths : Paths) where
  write_signal-Wrote :
      (path : String) (w : World H) → Opens H → Wrote path (write_signal H path gcr_idle w).1.trace
  unfolding write_signal perform is_ack print_ℕ
  write_signal-Wrote path w opens = rw (opens path "w" w.state) (refl, refl, refl)

  -- A signal that is served.
  abbrev pub is_served : ℤ → Bool
  is_served sig = is_signal gcr_ckpt sig || is_signal gcr_restore sig

  serve-Wrote :
      (sig : ℤ) (p : Process) (w : World H)
      → Opens H
      → is_served sig ≡ true
      → Wrote paths.ctrl (serve H has paths sig p w).1.trace
  unfolding serve serve_checkpoint serve_restore
  serve-Wrote sig p w opens h = elim (Bool-cases (is_signal gcr_ckpt sig)) [
    | inl ckpt ↦ rw ckpt (write_signal-Wrote paths.ctrl _ opens)
    | inr other ↦ rw (other, second sig other h) (write_signal-Wrote paths.ctrl _ opens)
  ]
    where
      second :
          (sig : ℤ)
          → is_signal gcr_ckpt sig ≡ false
          → is_served sig ≡ true
          → is_signal gcr_restore sig ≡ true
      second sig e h = rw e at h

  serve-idle :
      (sig : ℤ) (p : Process) (w : World H)
      → is_served sig ≡ false
      → serve H has paths sig p w ≡ (p, w)
  unfolding serve
  serve-idle sig p w h = elim (Bool-cases (is_signal gcr_ckpt sig)) [
    | inl ckpt ↦ absurd (ground arith)
    | inr other ↦ elim (Bool-cases (is_signal gcr_restore sig)) [
      | inl restore ↦ absurd (ground arith)
      | inr none_served ↦ rw (other, none_served) refl
    ]
  ]

  -- If files can be opened, then a round that reads the checkpoint or the restore signal ends with the
  -- idle signal written to the control file, closed, and a pause, whatever the freeze or the remap came
  -- to, and the agent takes the text for an acknowledgement; a round that reads anything else, or
  -- nothing, changes no state and only pauses.
  pub watcher_round_answers :
      (p : Process) (w : World H)
      → Opens H
      → let (sig, w₁) = read_signal H paths.ctrl w in
        let (p', w') = watcher_round H has paths p w in
        ((is_served sig ≡ true) × Acked paths.ctrl w'.trace)
        ⊎ ((is_served sig ≡ false) × (p' ≡ p) × (w' ≡ (perform H (usleep 50000) w₁).1))
  unfolding watcher_round perform
  watcher_round_answers p w opens =
      let (sig, w₁) = read_signal H paths.ctrl w in
      elim (Bool-cases (is_served sig)) [
        | inl served ↦ inl (served, serve-Wrote sig p w₁ opens served)
        | inr idle ↦
            let same = serve-idle sig p w₁ idle in
            inr (idle, ap (λ r. r.0) same, ap (λ r. (perform H (usleep 50000) r.1).1) same)
      ]

  -- If the functions that a remap needs are found, the allocator is on, the table has an entry and the
  -- control file holds the restore signal, then after the round no buffer is frozen and the gate is
  -- open, so that every launch passes, with any driver and whatever fails.
  pub watcher_round_opens_gate :
      (p : Process) (w : World H)
      → remap_resolved H has paths.data_dir ≡ true
      → is_signal gcr_restore (read_signal H paths.ctrl w).0 ≡ true
      → (has_buffers H p (read_signal H paths.ctrl w).1).0 ≡ true
      → let e' = (watcher_round H has paths p w).0.engine in
        NoneFrozen e'.owned × (gcr_gate_passes false e' ≡ true)
  unfolding watcher_round serve serve_restore gated_remap gcr_gate_set gcr_gate_passes
  watcher_round_opens_gate p w resolved restore buffers =
      rw (signals_differ (read_signal H paths.ctrl w).0 restore, restore, buffers)
        (restore_remap-NoneFrozen H has paths.data_dir _ _ resolved, refl)
