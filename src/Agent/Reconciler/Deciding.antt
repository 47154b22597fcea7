-- ===== src/Agent/Reconciler/Deciding.antt =====
-- When a checkpoint is due, by the schedule and the last checkpoint.
use k8s_native_fast_gpu_chec.Prelude.{
  ◌≤◌, String, ◌≡◌, refl, ◌↔◌, Bool, true, false, some, Result, ok, err, ltb, is_pos, arith,
}
use k8s_native_fast_gpu_chec.Effect.{Handler, World, perform}
use k8s_native_fast_gpu_chec.Api.{Time, GpuCheckpoint, Pod}
use k8s_native_fast_gpu_chec.Agent.Calls.{Op, Reply, now}
use k8s_native_fast_gpu_chec.Agent.Libs.{Libs}
use k8s_native_fast_gpu_chec.Agent.Schedule.{next_run, is_one_shot}
use k8s_native_fast_gpu_chec.Agent.Schedule.Times.{is_one_shot_stable}
use k8s_native_fast_gpu_chec.Agent.Reconciler.{
  Reconciler, due, later, due_after, when_due, decide, time_sub, follow,
}

-- The time that `NextRun` gave has come.
abbrev pub HasCome : Result (Time × Bool) → Time → Type 0
HasCome (err t) at = ⊥
HasCome (ok (next, recurring)) at = next ≤ at

due_after-HasCome :
    (r : Result (Time × Bool)) (at : Time) (b : Bool) → due_after r at ≡ due b → HasCome r at
unfolding due_after
due_after-HasCome (err t) at b h = cc
due_after-HasCome (ok (next, recurring)) at b h = ground arith

due_after-recurs :
    (r : Result (Time × Bool)) (at : Time) (b : Bool) → due_after r at ≡ due b → b ≡ true
unfolding due_after
due_after-recurs (err t) at b h = cc
due_after-recurs (ok (next, recurring)) at b h = ground arith

module _ (L : Libs) where
  HasCome-due_after :
      (r : Result (Time × Bool)) (at : Time) → HasCome r at → due_after r at ≡ due true
  unfolding due_after
  HasCome-due_after (err t) at h = absurd h
  HasCome-due_after (ok (next, recurring)) at h = ground arith

  recurs-valid :
      (schedule : String) (at : Time)
      → is_one_shot L schedule at ≡ false
      → (next : Time × Bool) × (next_run L schedule at ≡ ok next)
  unfolding is_one_shot
  recurs-valid schedule at h = is_ok (next_run L schedule at) refl
    where
      is_ok :
          (r : Result (Time × Bool))
          → next_run L schedule at ≡ r
          → (next : Time × Bool) × (next_run L schedule at ≡ ok next)
      is_ok (ok next) e = (next, e)
      is_ok (err t) e = absurd (cc)

  -- After a first checkpoint another is due exactly if the schedule recurs and the time that it gives
  -- after the last checkpoint has come, and it is due as a recurring one only. So a one-shot
  -- checkpoint is not taken again, and an interval is counted from the last checkpoint.
  pub decide_due_again_iff :
      (schedule : String) (last at at' : Time) (recurring : Bool)
      → (decide L schedule (some last) at at' ≡ due recurring) ↔ (
          (recurring ≡ true)
          × (is_one_shot L schedule at ≡ false)
          × HasCome (next_run L schedule last) at)
  unfolding decide when_due
  decide_due_again_iff schedule last at at' b =
      let same = is_one_shot_stable L schedule at at' in
      let come = due_after-HasCome (next_run L schedule last) at b in
      let recurs = due_after-recurs (next_run L schedule last) at b in
      let back = HasCome-due_after (next_run L schedule last) at in
      (
        (λ h. ground arith),
        (λ (is_recurring, recurring, h).
            let (_, valid) = recurs-valid schedule at recurring in ground arith),
      )

-- A difference of times is positive exactly if the first is the later one; saturation does not
-- change that.
time_sub-is_pos : (t u : Time) → is_pos (time_sub t u) ≡ ltb u t
unfolding time_sub
time_sub-is_pos t u = ground arith

module _ (L : Libs) (H : Handler Op Reply) (r : Reconciler) where
  -- A resource that is not yet due asks for a requeue after a positive time exactly if the clock, when
  -- it is read for the wait, has not reached the next time. If it has, `RequeueAfter` is 0 or negative.
  follow_later_is_pos :
      (cr : GpuCheckpoint) (pod : Pod) (next : Time) (w : World H)
      → is_pos (follow L H r cr pod (later next) w).0.requeue_after ≡ ltb (perform H now w).0 next
  unfolding follow
  follow_later_is_pos cr pod next w = time_sub-is_pos next (perform H now w).0
