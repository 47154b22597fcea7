-- ===== src/System.antt =====
-- The two programs together: a child that the orchestrator builds, and the agents that reconcile it.
use k8s_native_fast_gpu_chec.Prelude.{
  String, ◌≡◌, ◌≢◌, refl, sym, ap, ◌⊎◌, inl, inr, Bool, true, false, not, none, ok, ◌==◌, true_eq,
  eq_true, Bool-cases, arith,
}
use k8s_native_fast_gpu_chec.Effect.{Handler, World, perform}
use k8s_native_fast_gpu_chec.Api.{Time, Pod, GpuCheckpoint}
use k8s_native_fast_gpu_chec.Text.Trim.{is_empty}
use k8s_native_fast_gpu_chec.Agent.Calls.{Op, Reply, now}
use k8s_native_fast_gpu_chec.Agent.Libs.{Libs}
use k8s_native_fast_gpu_chec.Agent.Schedule.{next_run, is_one_shot}
use k8s_native_fast_gpu_chec.Agent.Reconciler.{
  Reconciler, stop, target_node, target_container, decide, when_due, due, read_if, follow,
  take_checkpoint, reconcile_pod,
}
use k8s_native_fast_gpu_chec.Orchestrator.Calls.{Kube}
use k8s_native_fast_gpu_chec.Orchestrator.Pods.{Workload}
use k8s_native_fast_gpu_chec.Orchestrator.Children.{build_child}

-- Setting the owner changes the metadata only.
abbrev pub KeepsSpec : Kube → Type 0
KeepsSpec K =
    (wc : Workload K) (c c' : GpuCheckpoint)
    → K.set_owner wc c ≡ ok c'
    → (c'.spec ≡ c.spec) × (c'.status ≡ c.status)

first_due :
    (L : Libs) (schedule : String) (at at' : Time) (next : Time × Bool)
    → next_run L schedule at ≡ ok next
    → decide L schedule none at at' ≡ due (not (is_one_shot L schedule at'))
unfolding decide when_due
first_due L schedule at at' next valid = ground arith

unequal : {a : Bool} → a ≡ false → a ≡ true → ⊥
unequal h e = cc

module _ (K : Kube) (keeps : KeepsSpec K) (L : Libs) (H : Handler Op Reply) (wc : Workload K)
    (pod : Pod) (name : String) (child : GpuCheckpoint)
    (owned : K.set_owner wc (build_child K wc pod name) ≡ ok child) where
  child_node :
      (pod' : Pod) → is_empty pod.node_name ≡ false → target_node child pod' ≡ pod.node_name
  unfolding target_node build_child
  child_node pod' placed =
      let (spec, status) = keeps wc (build_child K wc pod name) child owned in
      rw (spec, placed) refl

  child_schedule : child.spec.schedule ≡ wc.spec.schedule
  unfolding build_child
  child_schedule = ap (λ s. s.schedule) (keeps wc (build_child K wc pod name) child owned).0

  child_fresh : child.status.last_checkpoint_time ≡ none
  unfolding build_child
  child_fresh =
      ap (λ s. s.last_checkpoint_time) (keeps wc (build_child K wc pod name) child owned).1

  first_decision :
      (at at' : Time) (next : Time × Bool)
      → next_run L wc.spec.schedule at ≡ ok next
      → decide L wc.spec.schedule child.status.last_checkpoint_time at at'
        ≡ due (not (is_one_shot L wc.spec.schedule at'))
  first_decision at at' next valid = rw child_fresh (first_due L wc.spec.schedule at at' next valid)

  -- Of the agents, the one on the node that the Pod had when the orchestrator built the child takes a
  -- checkpoint when it first sees the child, if the Pod had a node and the schedule is valid; every other
  -- agent leaves the child alone, also where the Pod is now on its node.
  pub reconcile_pod-build_child :
      (r : Reconciler) (pod' : Pod) (next : Time × Bool) (w : World H)
      → is_empty pod.node_name ≡ false
      → next_run L wc.spec.schedule (perform H now w).0 ≡ ok next
      → let (at', w₂) = perform H now (perform H now w).1 in
        ((r.node_name ≡ pod.node_name)
          × (reconcile_pod L H r child pod' w
              ≡ take_checkpoint L H r child pod'
                  (target_container child pod')
                  (not (is_one_shot L wc.spec.schedule at'))
                  w₂))
        ⊎ ((r.node_name ≢ pod.node_name) × (reconcile_pod L H r child pod' w ≡ (stop, w)))
  unfolding reconcile_pod follow read_if
  reconcile_pod-build_child r pod' next w placed valid =
      elim (Bool-cases (pod.node_name == r.node_name)) [
        | inl here ↦ inl (
          sym (true_eq _ _ here),
          (let (at, w₁) = perform H now w in
              rw
                (
                  child_node pod' placed,
                  here,
                  child_schedule,
                  valid,
                  first_decision at (perform H now w₁).0 next valid,
                )
                refl),
        )
        | inr elsewhere ↦ inr (
          λ q. unequal elsewhere (eq_true pod.node_name r.node_name (sym q)),
          rw (child_node pod' placed, elsewhere) refl,
        )
      ]
