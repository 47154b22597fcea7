-- ===== src/Orchestrator/Controller/Capping.antt =====
-- How many children a whole `Reconcile` of the orchestrator creates.
use k8s_native_fast_gpu_chec.Prelude.{
  ℕ, ◌+◌, ◌≤◌, ◌<◌, pos, String, ◌<>◌, ◌≡◌, refl, Bool, true, false, ◌&&◌, Option, List, [], ◌∷◌,
  length, arith, eq_true,
}
use k8s_native_fast_gpu_chec.Effect.{Handler, World, perform}
use k8s_native_fast_gpu_chec.Api.{Pod, GpuCheckpoint, api_text, ApiResult, found, failed}
use k8s_native_fast_gpu_chec.Api.Workload.{action_restore, wc_failed}
use k8s_native_fast_gpu_chec.Orchestrator.Calls.{
  Kube, Op, Reply, now, get_pod, get_deployment, get_replica_set, get_stateful_set, get_job,
  list_pods, list_children, update_status,
}
use k8s_native_fast_gpu_chec.Orchestrator.Pods.{
  Workload, workload_kind, job_selector, list_selected, by_selector, by_pod, resolve_pods,
}
use k8s_native_fast_gpu_chec.Orchestrator.Children.{fan_out}
use k8s_native_fast_gpu_chec.Orchestrator.Children.Limits.{is_create, creates, fan_out-create-le}
use k8s_native_fast_gpu_chec.Orchestrator.Aggregate.{
  now_if, aggregate, aggregate_status, tally_pods, no_tally, verdict, reads_clock,
}
use k8s_native_fast_gpu_chec.Orchestrator.Controller.{
  finished, finish_reads, finish, is_new, is_unset, resolving, apply_barrier, conclude,
  fan_out_and_conclude, checkpoint_pods, reconcile_resolved, reconcile_found,
}

module _ (K : Kube) (H : Handler (Op K) (Reply K)) where
  abbrev made : World H → ℕ
  made w = creates w.trace

  made-call : (o : Op K) (w : World H) → is_create o ≡ 0 → made (perform H o w).1 ≡ made w
  unfolding perform
  made-call o w q = omega arith

  made-now_if : (b : Bool) (w : World H) → made (now_if K H b w).1 ≡ made w
  unfolding now_if
  made-now_if true w = made-call now w refl
  made-now_if false w = refl

  made-finish :
      (wc : Workload K) (phase msg : String) (w : World H)
      → made (finish K H wc phase msg w).1 ≡ made w
  unfolding finish
  made-finish wc phase msg w =
      let (at, w₁) = now_if K H (finish_reads wc.status phase) w in
      let o : Op K = update_status (record wc { status = finished wc.status phase msg at }) in
      ground (arith, made-call o w₁ refl, made-now_if (finish_reads wc.status phase) w)

  made-list_selected :
      (wc : Workload K) (sel : Option K.Selector) (w : World H)
      → made (list_selected K H wc sel w).1 ≡ made w
  unfolding list_selected
  made-list_selected wc sel w =
      ground (arith, made-call (list_pods wc.spec.workload_ref.namespace sel) w refl)

  made-by_selector :
      (wc : Workload K) (select : Option K.LabelSelector → Option K.Selector)
      (answer : ApiResult (Option K.LabelSelector)) (w : World H)
      → made (by_selector K H wc select answer w).1 ≡ made w
  unfolding by_selector
  made-by_selector wc select (failed e) w = refl
  made-by_selector wc select (found s) w = made-list_selected wc (select s) w

  made-by_pod :
      (wc : Workload K) (answer : ApiResult Pod) (w : World H)
      → made (by_pod K H wc answer w).1 ≡ made w
  unfolding by_pod
  made-by_pod wc (failed e) w = refl
  made-by_pod wc (found p) w = refl

  made-resolve_pods : (wc : Workload K) (w : World H) → made (resolve_pods K H wc w).1 ≡ made w
  unfolding resolve_pods
  made-resolve_pods wc w =
      let ns = wc.spec.workload_ref.namespace in
      let name = wc.spec.workload_ref.name in
      ground (
        arith,
        made-by_pod wc (perform H (get_pod ns name) w).0 (perform H (get_pod ns name) w).1,
        made-by_selector wc K.as_selector (perform H (get_deployment ns name) w).0
            (perform H (get_deployment ns name) w).1,
        made-by_selector wc K.as_selector (perform H (get_replica_set ns name) w).0
            (perform H (get_replica_set ns name) w).1,
        made-by_selector wc K.as_selector (perform H (get_stateful_set ns name) w).0
            (perform H (get_stateful_set ns name) w).1,
        made-by_selector wc (job_selector K name) (perform H (get_job ns name) w).0
            (perform H (get_job ns name) w).1,
        made-call (get_pod ns name) w refl,
        made-call (get_deployment ns name) w refl,
        made-call (get_replica_set ns name) w refl,
        made-call (get_stateful_set ns name) w refl,
        made-call (get_job ns name) w refl,
      )

  made-aggregate :
      (wc : Workload K) (pods : List Pod) (w : World H) → made (aggregate K H wc pods w).1 ≡ made w
  unfolding aggregate
  made-aggregate wc pods w = by_answer (perform H listing w).0 refl
    where
      listing : Op K
      listing =
          list_children wc.meta.namespace (("gpu-cr.io/workload-checkpoint", wc.meta.name) ∷ [])

      by_answer :
          (answer : ApiResult (List GpuCheckpoint))
          → (perform H listing w).0 ≡ answer
          → made (aggregate K H wc pods w).1 ≡ made w
      by_answer (failed e) q = ground (arith, made-call listing w refl)
      by_answer (found children) q =
          let w₁ = (perform H listing w).1 in
          let b =
            reads_clock wc.status.completion_time
              (verdict (tally_pods K.sha1_hex wc.meta.name children no_tally pods)) in
          let (at, w₂) = now_if K H b w₁ in
          let o : Op K = update_status (record wc {
            status = aggregate_status K.sha1_hex wc.meta.name wc.status children pods at;
          }) in
          ground (arith, made-call listing w refl, made-now_if b w₁, made-call o w₂ refl)

  made-conclude :
      (wc : Workload K) (pods : List Pod) (w : World H) → made (conclude K H wc pods w).1 ≡ made w
  unfolding conclude
  made-conclude wc pods w = ground (arith, made-aggregate wc pods w)

  -- The cap, over the specification that the passes share.
  module _ (m : ℕ) (some_cap : 0 < m) where
    fan_out_and_conclude-le :
        (wc : Workload K) (pods : List Pod) (w : World H)
        → wc.spec.max_concurrent ≡ pos m
        → length pods < 2147483648
        → made (fan_out_and_conclude K H wc pods w).1 ≤ made w + m
    unfolding fan_out_and_conclude
    fan_out_and_conclude-le wc pods w e b =
        let w₁ = (fan_out K H wc pods 0 0 w).1 in
        ground (arith, fan_out-create-le K H wc m pods w e some_cap b, made-conclude wc pods w₁)

    checkpoint_pods-le :
        (wc : Workload K) (pods : List Pod) (w : World H)
        → wc.spec.max_concurrent ≡ pos m
        → length pods < 2147483648
        → made (checkpoint_pods K H wc pods w).1 ≤ made w + m
    unfolding checkpoint_pods apply_barrier
    checkpoint_pods-le wc [] w e b =
        omega (arith, made-finish wc wc_failed "no matching (GPU) Pods resolved from workloadRef" w)
    checkpoint_pods-le wc (pod ∷ pods) w e b =
        let needed = is_new wc.status && is_unset wc.status.start_time in
        let (at, w₁) = now_if K H needed w in
        let started = record wc { status = resolving wc.status at } in
        ground (arith, made-now_if needed w, fan_out_and_conclude-le started (pod ∷ pods) w₁ e b)

    reconcile_resolved-le :
        (wc : Workload K) (answer : ApiResult (List Pod)) (w : World H)
        → wc.spec.max_concurrent ≡ pos m
        → ((pods : List Pod) → answer ≡ found pods → length pods < 2147483648)
        → made (reconcile_resolved K H wc answer w).1 ≤ made w + m
    unfolding reconcile_resolved
    reconcile_resolved-le wc (failed t) w e b =
        omega (arith, made-finish wc wc_failed ("resolve workload: " <> api_text t) w)
    reconcile_resolved-le wc (found pods) w e b =
        checkpoint_pods-le
          (record wc {
            status = record (wc.status) { observed_workload_kind = workload_kind K wc };
          })
          pods w e (b pods refl)

    -- With maxConcurrent at m > 0, and if fewer than 2^31 Pods are resolved, one `Reconcile` of a
    -- WorkloadCheckpoint that was read calls Create at most m times, on every path and whatever the
    -- API server answers.
    pub reconcile_found-create-le :
        (wc : Workload K) (w : World H)
        → wc.spec.max_concurrent ≡ pos m
        → ((pods : List Pod) → (resolve_pods K H wc w).0 ≡ found pods → length pods < 2147483648)
        → creates (reconcile_found K H wc w).1.trace ≤ creates w.trace + m
    unfolding reconcile_found
    reconcile_found-create-le wc w e b =
        let (answer, w₁) = resolve_pods K H wc w in
        ground (
          arith,
          made-resolve_pods wc w,
          reconcile_resolved-le wc answer w₁ e b,
          made-finish wc wc_failed
              "Action=Restore is defined but the Node Agent restore path is not implemented yet" w,
        )

  -- A WorkloadCheckpoint with action Restore creates no child: no call of its `Reconcile` is a Create.
  pub reconcile_found-restore :
      (wc : Workload K) (w : World H)
      → wc.spec.action ≡ action_restore
      → creates (reconcile_found K H wc w).1.trace ≡ creates w.trace
  unfolding reconcile_found
  reconcile_found-restore wc w e = ground (
    arith,
    eq_true wc.spec.action action_restore e,
    made-finish wc wc_failed
        "Action=Restore is defined but the Node Agent restore path is not implemented yet" w,
  )
