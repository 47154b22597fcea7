-- ===== src/Agent/Reconciler/Owning.antt =====
-- The node test of `Reconcile` in internal/agent/reconciler.go.
use k8s_native_fast_gpu_chec.Prelude.{
  ◌≡◌, refl, ◌≢◌, ◌⊎◌, inl, inr, ◌==◌, true_eq, sym, ◌∙◌, Bool-cases,
}
use k8s_native_fast_gpu_chec.Effect.{Handler, World}
use k8s_native_fast_gpu_chec.Api.{GpuCheckpoint, Pod}
use k8s_native_fast_gpu_chec.Agent.Calls.{Op, Reply}
use k8s_native_fast_gpu_chec.Agent.Libs.{Libs}
use k8s_native_fast_gpu_chec.Agent.Reconciler.{Reconciler, target_node, stop, reconcile_pod}

module _ (L : Libs) (H : Handler Op Reply) where
  -- Of two agents on differently named nodes at least one leaves a resource and its Pod alone: in the
  -- world that it sees it calls nothing, changes nothing and asks for no requeue.
  reconcile_pod_alone :
      (r r' : Reconciler) (cr : GpuCheckpoint) (pod : Pod) (w w' : World H)
      → r.node_name ≢ r'.node_name
      → (reconcile_pod L H r cr pod w ≡ (stop, w)) ⊎ (reconcile_pod L H r' cr pod w' ≡ (stop, w'))
  unfolding reconcile_pod
  reconcile_pod_alone r r' cr pod w w' apart =
      elim (Bool-cases (target_node cr pod == r.node_name)) [
        | inl mine ↦ elim (Bool-cases (target_node cr pod == r'.node_name)) [
          | inl yours ↦ absurd (apart (sym (true_eq _ _ mine) ∙ true_eq _ _ yours))
          | inr foreign ↦ inr (rw foreign refl)
        ]
        | inr foreign ↦ inl (rw foreign refl)
      ]
