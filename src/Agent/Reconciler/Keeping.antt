-- ===== src/Agent/Reconciler/Keeping.antt =====
-- The removals and the copies of a whole `Reconcile` of internal/agent/reconciler.go.
use k8s_native_fast_gpu_chec.Prelude.{
  String, ◌<>◌, ◌≡◌, refl, ◌∙◌, Bool, true, false, Result, ok, err, arith,
}
use k8s_native_fast_gpu_chec.Effect.{Handler, World, perform}
use k8s_native_fast_gpu_chec.Api.{
  Time, GpuCheckpoint, Pod, ApiResult, not_found, already_exists, other, found, failed,
}
use k8s_native_fast_gpu_chec.Agent.Calls.{Op, Reply, now, get_checkpoint, get_pod, update_status}
use k8s_native_fast_gpu_chec.Agent.Libs.{Libs}
use k8s_native_fast_gpu_chec.Agent.Schedule.{next_run}
use k8s_native_fast_gpu_chec.Agent.Checkpointer.{Artifact, checkpoint}
use k8s_native_fast_gpu_chec.Agent.Checkpointer.Quiet.{is_quiet, perform_quiet}
use k8s_native_fast_gpu_chec.Agent.Checkpointer.Keeping.{
  removes_copied, removes_copied-IsBlind, checkpoint-removes_copied,
}
use k8s_native_fast_gpu_chec.Agent.Reconciler.{
  is_valid, read_if, Reconciler, Due, due, taken, later, invalid, decide, make_target, mark_started,
  mark_done, updated, target_node, target_container, fail, schedule_next, record_success,
  take_checkpoint, follow, reconcile_pod, reconcile_answer, reconcile_found, reconcile,
}

module _ (L : Libs) (H : Handler Op Reply) (r : Reconciler) where
  abbrev Safe : World H → Type 0
  Safe w = removes_copied w.trace ≡ true

  call-Safe : (o : Op) (w : World H) → is_quiet o ≡ true → Safe w → Safe (perform H o w).1
  call-Safe o w q h = perform_quiet L H removes_copied removes_copied-IsBlind o w q ∙ h

  fail-Safe :
      (cr : GpuCheckpoint) (msg : String) (w : World H) → Safe w → Safe (fail L H r cr msg w).1
  unfolding fail
  fail-Safe cr msg w h = call-Safe (update_status _) _ refl (call-Safe now w refl h)

  schedule_next-Safe :
      (cr : GpuCheckpoint) (recurring : Bool) (w : World H)
      → Safe w
      → Safe (schedule_next L H r cr recurring w).1
  unfolding schedule_next
  schedule_next-Safe cr true w h = call-Safe now _ refl (call-Safe now w refl h)
  schedule_next-Safe cr false w h = h

  record_success-Safe :
      (cr : GpuCheckpoint) (recurring : Bool) (a : Artifact) (w : World H)
      → Safe w
      → Safe (record_success L H r cr recurring a w).1
  unfolding record_success
  record_success-Safe cr recurring a w h = by_answer (perform H (update_status done) w₁).0 refl
    where
      w₁ : World H
      w₁ = (perform H now w).1

      done : GpuCheckpoint
      done = mark_done cr a (perform H now w).0

      written : Safe (perform H (update_status done) w₁).1
      written = call-Safe (update_status done) w₁ refl (call-Safe now w refl h)

      by_answer :
          (answer : ApiResult GpuCheckpoint)
          → (perform H (update_status done) w₁).0 ≡ answer
          → Safe (record_success L H r cr recurring a w).1
      by_answer (failed e) q = ground (arith, written)
      by_answer (found cr') q =
          let k = schedule_next-Safe cr' recurring (perform H (update_status done) w₁).1 written in
          ground arith

  take_checkpoint-Safe :
      (cr₀ : GpuCheckpoint) (pod : Pod) (container : String) (recurring : Bool) (w : World H)
      → Safe w
      → Safe (take_checkpoint L H r cr₀ pod container recurring w).1
  unfolding take_checkpoint
  take_checkpoint-Safe cr₀ pod container recurring w h =
      by_result (checkpoint L H r.checkpointer (make_target cr pod container) w₁).0 refl
    where
      marked : GpuCheckpoint
      marked = mark_started cr₀ (target_node cr₀ pod)

      w₁ : World H
      w₁ = (perform H (update_status marked) w).1

      cr : GpuCheckpoint
      cr = updated marked (perform H (update_status marked) w).0

      w₂ : World H
      w₂ = (checkpoint L H r.checkpointer (make_target cr pod container) w₁).1

      stored : Safe w₂
      stored =
          checkpoint-removes_copied L H r.checkpointer (make_target cr pod container) w₁
            (call-Safe (update_status marked) w refl h)

      by_result :
          (res : Result Artifact)
          → (checkpoint L H r.checkpointer (make_target cr pod container) w₁).0 ≡ res
          → Safe (take_checkpoint L H r cr₀ pod container recurring w).1
      by_result (err t) q =
          let k = fail-Safe cr ("checkpoint failed: " <> t) w₂ stored in ground arith
      by_result (ok a) q = let k = record_success-Safe cr recurring a w₂ stored in ground arith

  follow-Safe :
      (cr : GpuCheckpoint) (pod : Pod) (d : Due) (w : World H)
      → Safe w
      → Safe (follow L H r cr pod d w).1
  unfolding follow
  follow-Safe cr pod (invalid t) w h = fail-Safe cr ("invalid schedule: " <> t) w h
  follow-Safe cr pod taken w h = h
  follow-Safe cr pod (later next) w h = call-Safe now w refl h
  follow-Safe cr pod (due recurring) w h =
      take_checkpoint-Safe cr pod (target_container cr pod) recurring w h

  read_if-Safe :
      (valid : Bool) (at : Time) (w : World H) → Safe w → Safe (read_if L H r valid at w).1
  unfolding read_if
  read_if-Safe true at w h = call-Safe now w refl h
  read_if-Safe false at w h = h

  reconcile_pod-Safe :
      (cr : GpuCheckpoint) (pod : Pod) (w : World H)
      → Safe w
      → Safe (reconcile_pod L H r cr pod w).1
  unfolding reconcile_pod
  reconcile_pod-Safe cr pod w h =
      let (at, w₁) = perform H now w in
      let valid = is_valid (next_run L cr.spec.schedule at) in
      let (at', w₂) = read_if L H r valid at w₁ in
      let d = decide L cr.spec.schedule cr.status.last_checkpoint_time at at' in
      let k = follow-Safe cr pod d w₂ (read_if-Safe valid at w₁ (call-Safe now w refl h)) in
      ground arith

  reconcile_answer-Safe :
      (cr : GpuCheckpoint) (answer : ApiResult Pod) (w : World H)
      → Safe w
      → Safe (reconcile_answer L H r cr answer w).1
  unfolding reconcile_answer
  reconcile_answer-Safe cr (failed (not_found t)) w h = fail-Safe cr "target Pod not found" w h
  reconcile_answer-Safe cr (failed (already_exists t)) w h = h
  reconcile_answer-Safe cr (failed (other t)) w h = h
  reconcile_answer-Safe cr (found pod) w h = reconcile_pod-Safe cr pod w h

  reconcile_found-Safe :
      (cr : GpuCheckpoint) (w : World H) → Safe w → Safe (reconcile_found L H r cr w).1
  unfolding reconcile_found
  reconcile_found-Safe cr w h =
      let ref = cr.spec.workload_ref in
      let call = get_pod ref.namespace ref.name in
      let k =
        reconcile_answer-Safe cr (perform H call w).0 (perform H call w).1
          (call-Safe call w refl h) in
      ground
        (arith, fail-Safe cr ("workloadRef.kind " <> ref.kind <> " not supported yet (only Pod)") w)

  -- A `Reconcile` of the agent removes a file only after a copy of that file has succeeded: where this
  -- is so of every removal before the call, it is so after it, whatever the resource, the Pod, the
  -- schedule and the answers are.
  pub reconcile-removes_copied :
      (namespace name : String) (w : World H)
      → removes_copied w.trace ≡ true
      → removes_copied (reconcile L H r namespace name w).1.trace ≡ true
  unfolding reconcile
  reconcile-removes_copied namespace name w h =
      by_answer (perform H (get_checkpoint namespace name) w).0 refl
    where
      read : Safe (perform H (get_checkpoint namespace name) w).1
      read = call-Safe (get_checkpoint namespace name) w refl h

      by_answer :
          (answer : ApiResult GpuCheckpoint)
          → (perform H (get_checkpoint namespace name) w).0 ≡ answer
          → Safe (reconcile L H r namespace name w).1
      by_answer (failed e) q = ground (arith, read)
      by_answer (found cr) q =
          let k = reconcile_found-Safe cr (perform H (get_checkpoint namespace name) w).1 read in
          ground arith
