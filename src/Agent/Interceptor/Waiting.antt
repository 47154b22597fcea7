-- ===== src/Agent/Interceptor/Waiting.antt =====
-- `WaitForAck` of internal/agent/interceptor.go in a world with a clock.
use k8s_native_fast_gpu_chec.Prelude.{
  ℕ, zero, suc, ◌+◌, ◌*◌, ◌/◌, ◌≤◌, String, ◌<>◌, ◌≡◌, refl, ◌⊎◌, inl, inr, true, false, List, [],
  ◌∷◌, ok, err, ltb, arith, Bool-cases, ltb→lt,
}
use native.Mathlib.Numerals.{add-two}
use k8s_native_fast_gpu_chec.Effect.{Handler, World, perform, Event}
use k8s_native_fast_gpu_chec.Api.{Time}
use k8s_native_fast_gpu_chec.Agent.Calls.{Op, Reply, now, sleep, read_file}
use k8s_native_fast_gpu_chec.Agent.Interceptor.{
  InterceptorManager, control_path, is_ack, Ack, acked, timed_out, spent, poll_interval, ack_fuel,
  ack_loop, ack_result, wait_for_ack,
}

-- A world with a clock: `now` reads it, no call turns it back, and a sleep lasts its time.
pub record Clocked (H : Handler Op Reply) : Type 0 where
  pub clock : H.State → ℕ
  pub now_reads : (s : H.State) → (H.handle now s).0 ≡ clock s
  pub never_back : (o : Op) (s : H.State) → clock s ≤ clock (H.handle o s).1
  pub sleep_lasts : (d : ℕ) (s : H.State) → clock s + d ≤ clock (H.handle (sleep d) s).1

-- The newest event is a read of this file that found it empty or idle.
abbrev pub Acknowledged : String → List (Event Op Reply) → Type 0
Acknowledged ctrl [] = ⊥
Acknowledged ctrl ((read_file path, b) ∷ es) = (path ≡ ctrl) × (is_ack b ≡ true)
Acknowledged ctrl (_ ∷ es) = ⊥

module _ (H : Handler Op Reply) (C : Clocked H) where
  open C use {clock, now_reads, never_back, sleep_lasts}

  -- What the three calls of a round do to the clock.
  round_clock :
      (ctrl : String) (w : World H)
      → let w₁ = (perform H now w).1 in
        let w₂ = (perform H (read_file ctrl) w₁).1 in
        let w₃ = (perform H (sleep poll_interval) w₂).1 in
        ((perform H now w).0 ≡ clock w.state)
        × (clock w.state ≤ clock w₁.state)
        × (clock w.state + poll_interval ≤ clock w₃.state)
  unfolding perform
  round_clock ctrl w = grind (arith, now_reads, never_back, sleep_lasts)

  -- How the loop ends, with enough rounds left for the time that is left.
  abbrev Ends : String → Time → Ack × World H → Type 0
  Ends ctrl deadline (acked, w) = Acknowledged ctrl w.trace
  Ends ctrl deadline (timed_out, w) = deadline ≤ clock w.state
  Ends ctrl deadline (spent, w) = ⊥

  at_deadline : (t deadline : ℕ) {c : ℕ} → ltb t deadline ≡ false → t ≤ c → deadline ≤ c
  at_deadline t deadline late h = ground arith

  read-Acknowledged :
      (ctrl : String) (w : World H)
      → is_ack (perform H (read_file ctrl) w).0 ≡ true
      → Acknowledged ctrl (perform H (read_file ctrl) w).1.trace
  unfolding perform
  read-Acknowledged ctrl w h = (refl, h)

  ack_loop-Ends :
      (fuel : ℕ) (ctrl : String) (deadline : Time) (w : World H)
      → deadline ≤ clock w.state + fuel * poll_interval
      → Ends ctrl deadline (ack_loop H (suc fuel) ctrl deadline w)
  unfolding ack_loop
  ack_loop-Ends zero ctrl deadline w h =
      let (t, c₁, c₃) = round_clock ctrl w in
      elim (Bool-cases (ltb (perform H now w).0 deadline)) [
        | inl early ↦ absurd (omega (arith, ltb→lt _ _ early))
        | inr late ↦ rw late (at_deadline _ _ late (omega arith))
      ]
  ack_loop-Ends (suc fuel) ctrl deadline w h =
      let (t, c₁, c₃) = round_clock ctrl w in
      let w₁ = (perform H now w).1 in
      let w₂ = (perform H (read_file ctrl) w₁).1 in
      let w₃ = (perform H (sleep poll_interval) w₂).1 in
      elim (Bool-cases (ltb (perform H now w).0 deadline)) [
        | inl early ↦ rw early (elim (Bool-cases (is_ack (perform H (read_file ctrl) w₁).0)) [
          | inl ack ↦ rw ack (read-Acknowledged ctrl w₁ ack)
          | inr busy ↦ rw busy (ack_loop-Ends fuel ctrl deadline w₃ (omega arith))
        ])
        | inr late ↦ rw late (at_deadline _ _ late (omega arith))
      ]

  -- In a world whose clock is what `now` answers, never goes back and moves on by the length of every
  -- sleep, a wait ends before its rounds run out, and in one of two ways: it returns nil, and its last
  -- call read the control file and found it empty or idle; or it returns the timeout error, and the
  -- whole timeout has passed since it began.
  pub wait_for_ack_ends :
      (m : InterceptorManager) (key : String) (timeout : ℕ) (w : World H)
      → let ctrl = control_path m key in
        let (r, w') = wait_for_ack H m key timeout w in
        ((r ≡ ok tt) × Acknowledged ctrl w'.trace)
        ⊎ ((r ≡ err ("timeout waiting for GCR ack on " <> ctrl))
            × (clock w.state + timeout ≤ clock w'.state))
  unfolding wait_for_ack
  wait_for_ack_ends m key timeout w =
      let ctrl = control_path m key in
      let (start, c₁, _) = round_clock ctrl w in
      let w₁ = (perform H now w).1 in
      let deadline = (perform H now w).0 + timeout in
      by_ack ctrl (ack_loop H (ack_fuel timeout) ctrl deadline w₁)
        (rounds (timeout / poll_interval) ctrl deadline w₁ (omega arith)) (omega arith)
    where
      rounds :
          (n : ℕ) (ctrl : String) (deadline : Time) (w₁ : World H)
          → deadline ≤ clock w₁.state + suc n * poll_interval
          → Ends ctrl deadline (ack_loop H (n + 2) ctrl deadline w₁)
      rounds n ctrl deadline w₁ h = rw (add-two n) (ack_loop-Ends (suc n) ctrl deadline w₁ h)

      by_ack :
          (ctrl : String) (a : Ack × World H) {deadline : Time}
          → Ends ctrl deadline a
          → clock w.state + timeout ≤ deadline
          → ((ack_result H ctrl a.0 ≡ ok tt) × Acknowledged ctrl a.1.trace)
            ⊎ ((ack_result H ctrl a.0 ≡ err ("timeout waiting for GCR ack on " <> ctrl))
                × (clock w.state + timeout ≤ clock a.1.state))
      by_ack ctrl (acked, w') e d = inl (refl, e)
      by_ack ctrl (timed_out, w') e d = inr (refl, omega arith)
      by_ack ctrl (spent, w') e d = absurd e
