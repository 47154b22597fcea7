-- ===== src/Agent/Reconciler/OneShot.antt =====
-- Many calls of `Reconcile` for one GPUCheckpoint (internal/agent/reconciler.go), by any agents and with
-- steps of other processes between them.
use k8s_native_fast_gpu_chec.Prelude.{
  ℕ, suc, String, ◌<>◌, ◌≡◌, refl, ◌∙◌, ◌⊎◌, inl, inr, Bool, true, false, some, List, [], ◌∷◌,
  arith, ◌==◌, Bool-cases,
}
use k8s_native_fast_gpu_chec.Effect.{Handler, World, perform, Event}
use k8s_native_fast_gpu_chec.Api.{
  Time, GpuCheckpoint, Pod, ApiError, ApiResult, found, failed, not_found, already_exists, other,
}
use k8s_native_fast_gpu_chec.Agent.Calls.{
  Op, Reply, now, http_do, get_checkpoint, get_pod, update_status,
}
use k8s_native_fast_gpu_chec.Agent.Libs.{Libs}
use k8s_native_fast_gpu_chec.Agent.Schedule.{next_run, is_one_shot}
use k8s_native_fast_gpu_chec.Agent.Conditions.{set_condition}
use k8s_native_fast_gpu_chec.Agent.Reconciler.{
  Reconciler, target_node, Due, decide, when_due, taken, invalid, mark_failed, fail, follow,
  read_if, is_valid, reconcile_pod, reconcile_answer, reconcile_found, reconcile, is_pod_kind,
}

-- A one-shot checkpoint that was taken.
abbrev pub IsTaken : Libs → GpuCheckpoint → Type 0
IsTaken L cr =
    ((at : Time) → is_one_shot L cr.spec.schedule at ≡ true)
    × ((t : Time) × (cr.status.last_checkpoint_time ≡ some t))

-- The calls of the kubelet's checkpoint API.
abbrev pub posts : List (Event Op Reply) → ℕ
posts [] = 0
posts ((http_do req, r) ∷ es) = suc (posts es)
posts (_ ∷ es) = posts es

-- What an update of the status must be for the API server to go on remembering.
abbrev pub IsHarmless : Libs → Op → Type 0
IsHarmless L (update_status cr) = IsTaken L cr
IsHarmless L _ = Unit

-- An API server that holds the resource as one that was taken: it reads as such, and it stays so unless
-- a status is written that says otherwise.
pub record Remembers (L : Libs) (H : Handler Op Reply) (ns name : String) : Type 1 where
  pub Holds : H.State → Type 0
  pub reads :
      (s : H.State) (cr : GpuCheckpoint)
      → Holds s
      → (H.handle (get_checkpoint ns name) s).0 ≡ found cr
      → IsTaken L cr
  pub keeps : (o : Op) (s : H.State) → Holds s → IsHarmless L o → Holds (H.handle o s).1

module _ (L : Libs) (H : Handler Op Reply) (ns name : String) (M : Remembers L H ns name) where
  -- One step of the cluster: an agent reconciles the resource, or other processes change the state and
  -- leave the resource as one that was taken.
  pub data Step : World H → World H → Type 0 where
    reconciles : (r : Reconciler) (w : World H) → Step w (reconcile L H r ns name w).1
    others : (w : World H) (s : H.State) → M.Holds s → Step w (record w { state = s })

  pub data Runs : World H → World H → Type 0 where
    rest : (w : World H) → Runs w w
    step : {w w' w'' : World H} → Runs w w' → Step w' w'' → Runs w w''

  -- From `w` on, nothing was asked of the kubelet and the server still remembers.
  abbrev Idle : World H → World H → Type 0
  Idle w w' = (posts w'.trace ≡ posts w.trace) × M.Holds w'.state

  decide_taken :
      (schedule : String) (last at at' : Time)
      → is_one_shot L schedule at' ≡ true
      → (decide L schedule (some last) at at' ≡ taken)
        ⊎ ((t : String) × (decide L schedule (some last) at at' ≡ invalid t))
  unfolding decide when_due
  decide_taken schedule last at at' h = ground arith

  fail-Idle :
      (r : Reconciler) (cr : GpuCheckpoint) (msg : String) (w : World H)
      → IsTaken L cr
      → M.Holds w.state
      → Idle w (fail L H r cr msg w).1
  unfolding fail mark_failed set_condition perform
  fail-Idle r cr msg w t h = (refl, M.keeps _ _ (M.keeps now w.state h tt) t)

  now-Idle : (w : World H) → M.Holds w.state → Idle w (perform H now w).1
  unfolding perform
  now-Idle w h = (refl, M.keeps now w.state h tt)

  read_if-Idle :
      (r : Reconciler) (valid : Bool) (at : Time) (w : World H)
      → M.Holds w.state
      → Idle w (read_if L H r valid at w).1
  unfolding read_if
  read_if-Idle r true at w h = now-Idle w h
  read_if-Idle r false at w h = (refl, h)

  follow-Idle :
      (r : Reconciler) (cr : GpuCheckpoint) (pod : Pod) (d : Due) (w : World H)
      → (d ≡ taken) ⊎ ((t : String) × (d ≡ invalid t))
      → IsTaken L cr
      → M.Holds w.state
      → Idle w (follow L H r cr pod d w).1
  unfolding follow
  follow-Idle r cr pod d w (inl e) t h = rw e (refl, h)
  follow-Idle r cr pod d w (inr (text, e)) t h =
      rw e (fail-Idle r cr ("invalid schedule: " <> text) w t h)

  own-Idle :
      (r : Reconciler) (cr : GpuCheckpoint) (pod : Pod) (w : World H)
      → IsTaken L cr
      → M.Holds w.state
      → let (at, w₁) = perform H now w in
        let (at', w₂) = read_if L H r (is_valid (next_run L cr.spec.schedule at)) at w₁ in
        Idle w
          (follow L H r cr pod
            (decide L cr.spec.schedule cr.status.last_checkpoint_time at at')
            w₂).1
  own-Idle r cr pod w t h =
      let (at, w₁) = perform H now w in
      let (at', w₂) = read_if L H r (is_valid (next_run L cr.spec.schedule at)) at w₁ in
      let (one_shot, (last, e)) = t in
      let first = now-Idle w h in
      let second = read_if-Idle r (is_valid (next_run L cr.spec.schedule at)) at w₁ first.1 in
      let decision = decide_taken cr.spec.schedule last at at' (one_shot at') in
      let third = follow-Idle r cr pod _ w₂ (rw e decision) t second.1 in
      (third.0 ∙ second.0 ∙ first.0, third.1)

  reconcile_pod-Idle :
      (r : Reconciler) (cr : GpuCheckpoint) (pod : Pod) (w : World H)
      → IsTaken L cr
      → M.Holds w.state
      → Idle w (reconcile_pod L H r cr pod w).1
  unfolding reconcile_pod
  reconcile_pod-Idle r cr pod w t h = elim (Bool-cases (target_node cr pod == r.node_name)) [
    | inl mine ↦ rw mine (own-Idle r cr pod w t h)
    | inr foreign ↦ rw foreign (refl, h)
  ]

  reconcile_answer-Idle :
      (r : Reconciler) (cr : GpuCheckpoint) (answer : ApiResult Pod) (w : World H)
      → IsTaken L cr
      → M.Holds w.state
      → Idle w (reconcile_answer L H r cr answer w).1
  unfolding reconcile_answer
  reconcile_answer-Idle r cr (failed (not_found text)) w t h =
      fail-Idle r cr "target Pod not found" w t h
  reconcile_answer-Idle r cr (failed (already_exists text)) w t h = (refl, h)
  reconcile_answer-Idle r cr (failed (other text)) w t h = (refl, h)
  reconcile_answer-Idle r cr (found pod) w t h = reconcile_pod-Idle r cr pod w t h

  reconcile_found-Idle :
      (r : Reconciler) (cr : GpuCheckpoint) (w : World H)
      → IsTaken L cr
      → M.Holds w.state
      → Idle w (reconcile_found L H r cr w).1
  unfolding reconcile_found perform
  reconcile_found-Idle r cr w t h =
      let ref = cr.spec.workload_ref in
      let asked = M.keeps (get_pod ref.namespace ref.name) w.state h tt in
      elim (Bool-cases (is_pod_kind L H r ref.kind)) [
        | inl pod_kind ↦ rw pod_kind (reconcile_answer-Idle r cr _ _ t asked)
        | inr not_pod ↦ rw not_pod (fail-Idle r cr _ w t h)
      ]

  read-Idle : (w : World H) → M.Holds w.state → Idle w (perform H (get_checkpoint ns name) w).1
  unfolding perform
  read-Idle w h = (refl, M.keeps (get_checkpoint ns name) w.state h tt)

  read-IsTaken :
      (w : World H) (cr : GpuCheckpoint)
      → M.Holds w.state
      → (perform H (get_checkpoint ns name) w).0 ≡ found cr
      → IsTaken L cr
  unfolding perform
  read-IsTaken w cr h e = M.reads w.state cr h e

  reconcile_unread :
      (r : Reconciler) (w : World H) (e : ApiError)
      → (perform H (get_checkpoint ns name) w).0 ≡ failed e
      → (reconcile L H r ns name w).1 ≡ (perform H (get_checkpoint ns name) w).1
  unfolding reconcile
  reconcile_unread r w e q = ground arith

  reconcile_read :
      (r : Reconciler) (w : World H) (cr : GpuCheckpoint)
      → (perform H (get_checkpoint ns name) w).0 ≡ found cr
      → reconcile L H r ns name w
        ≡ reconcile_found L H r cr (perform H (get_checkpoint ns name) w).1
  unfolding reconcile
  reconcile_read r w cr q = ground arith

  reconcile-Idle :
      (r : Reconciler) (w : World H) → M.Holds w.state → Idle w (reconcile L H r ns name w).1
  reconcile-Idle r w h = by_answer (perform H (get_checkpoint ns name) w).0 refl
    where
      by_answer :
          (answer : ApiResult GpuCheckpoint)
          → (perform H (get_checkpoint ns name) w).0 ≡ answer
          → Idle w (reconcile L H r ns name w).1
      by_answer (failed e) q = rw (reconcile_unread r w e q) (read-Idle w h)
      by_answer (found cr) q =
          let asked = read-Idle w h in
          let (quiet, holds) =
            reconcile_found-Idle r cr (perform H (get_checkpoint ns name) w).1
              (read-IsTaken w cr h q) asked.1 in
          rw (reconcile_read r w cr q) (quiet ∙ asked.0, holds)

  -- Once a one-shot checkpoint is recorded it is not taken again: as long as the API server remembers it,
  -- however often agents reconcile it, on whatever nodes and with whatever between, no checkpoint is asked
  -- of the kubelet, and the agents themselves never make the server forget it.
  pub one_shot_not_again :
      (w w' : World H)
      → Runs w w'
      → M.Holds w.state
      → (posts w'.trace ≡ posts w.trace) × M.Holds w'.state
  one_shot_not_again w w' (rest _) h = (refl, h)
  one_shot_not_again w w'' (step before (reconciles r w')) h =
      let (quiet, holds) = one_shot_not_again w w' before h in
      let (quiet', holds') = reconcile-Idle r w' holds in (quiet' ∙ quiet, holds')
  one_shot_not_again w w'' (step before (others w' s kept)) h =
      ((one_shot_not_again w w' before h).0, kept)
