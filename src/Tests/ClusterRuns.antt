-- ===== src/Tests/ClusterRuns.antt =====
-- The orchestrator's theorems, applied.
use k8s_native_fast_gpu_chec.Prelude.{
  sym, List, ◌+◌, ◌≤◌, ◌<◌, pos, String, len, ◌<>◌, ◌≡◌, refl, ◌≢◌, ◌↔◌, ◌⊎◌, true, false, none, [],
  ◌∷◌, map, arith, All, In, length, eq_true,
}
use k8s_native_fast_gpu_chec.Effect.{perform}
use k8s_native_fast_gpu_chec.Api.{Pod, found, phase_completed, phase_failed}
use k8s_native_fast_gpu_chec.Api.Workload.{
  WorkloadCheckpointStatus, wc_completed, wc_failed, wc_in_progress, wc_partially_failed,
}
use k8s_native_fast_gpu_chec.Orchestrator.Naming.{base_name, child_name, max_name}
use k8s_native_fast_gpu_chec.Orchestrator.Naming.Distinct.{
  child_name_distinct, child_name_ambiguous,
}
use k8s_native_fast_gpu_chec.Orchestrator.Naming.Lengths.{child_name_fits_iff}
use k8s_native_fast_gpu_chec.Orchestrator.Controller.{reconcile_found}
use k8s_native_fast_gpu_chec.Orchestrator.Controller.Capping.{reconcile_found-create-le}
use k8s_native_fast_gpu_chec.Orchestrator.Pods.{
  keep_pods, resolve_pods, workload_kind, by_selector, list_selected, filter_pods, pod_requests_gpu,
  extra_selector,
}
use k8s_native_fast_gpu_chec.Orchestrator.Pods.Filter.{Eligible, keep_pods_iff}
use k8s_native_fast_gpu_chec.Orchestrator.Children.{fan_out, is_limited, create_for, build_child}
use k8s_native_fast_gpu_chec.Orchestrator.Children.Limits.{
  creates, fan_out-create-le, fan_out-create_first,
}
use k8s_native_fast_gpu_chec.Orchestrator.Children.Coverage.{HasChild, fan_out-HasChild}
use k8s_native_fast_gpu_chec.Orchestrator.Aggregate.Counts.{count_if, is_in, is_open, target_of}
use k8s_native_fast_gpu_chec.Orchestrator.Aggregate.Verdicts.{HasPhase, child, HasEnded}
use k8s_native_fast_gpu_chec.Orchestrator.Aggregate.Status.{
  after, aggregate_counts, aggregate_phase_iff,
}
use k8s_native_fast_gpu_chec.Tests.ClusterWorld.{
  kube, kube-KeepsName, cluster, cluster-Keeps, start, replica, replicas, fresh_status, workload,
  mixed_children,
}

abbrev digest : String → String
digest s = "da39a3ee5e6b4b0d3255bfef95601890afd80709"

abbrev summed : WorkloadCheckpointStatus
summed = after digest "nightly" mixed_children fresh_status replicas 7

two_fit : 2 < 2147483648
two_fit = omega arith

aggregate_counts_example :
    (summed.total ≡ length replicas)
    × (summed.active + summed.completed + summed.failed ≡ summed.total)
    × (summed.active ≡ count_if digest "nightly" mixed_children is_open replicas)
    × (summed.completed ≡ count_if digest "nightly" mixed_children (is_in "Completed") replicas)
    × (summed.failed ≡ count_if digest "nightly" mixed_children (is_in "Failed") replicas)
    × (summed.targets ≡ map (target_of digest "nightly" mixed_children) replicas)
aggregate_counts_example =
    aggregate_counts digest "nightly" mixed_children fresh_status replicas 7 two_fit

aggregate_phase_iff_example :
    ((summed.phase ≡ wc_completed)
      ↔ All (λ pod. HasPhase phase_completed (child digest "nightly" mixed_children pod)) replicas)
    × ((summed.phase ≡ wc_failed) ↔ (
        (0 < length replicas)
        × All (λ pod. HasPhase phase_failed (child digest "nightly" mixed_children pod)) replicas))
    × ((summed.phase ≡ wc_in_progress)
        ↔ (¬ All (HasEnded digest "nightly" mixed_children) replicas))
    × ((summed.phase ≡ wc_partially_failed) ↔ (
        All (HasEnded digest "nightly" mixed_children) replicas
        × ¬ All
            (λ pod. HasPhase phase_completed (child digest "nightly" mixed_children pod))
            replicas
        × ¬ All
            (λ pod. HasPhase phase_failed (child digest "nightly" mixed_children pod))
            replicas))
aggregate_phase_iff_example =
    aggregate_phase_iff digest "nightly" mixed_children fresh_status replicas 7 two_fit

fan_out-HasChild_example :
    All
      (HasChild kube cluster cluster-Keeps
        (workload (pos 0))
        (fan_out kube cluster (workload (pos 0)) replicas 0 0 start).1.state)
      replicas
unfolding fan_out perform is_limited create_for build_child child_name
fan_out-HasChild_example =
    fan_out-HasChild kube cluster cluster-Keeps (workload (pos 0)) kube-KeepsName refl replicas
      start refl

fan_out-create-le_example :
    creates (fan_out kube cluster (workload (pos 1)) replicas 0 0 start).1.trace
    ≤ creates start.trace + 1
fan_out-create-le_example =
    fan_out-create-le kube cluster (workload (pos 1)) 1 replicas start refl (omega arith) two_fit

fan_out-create_first_example :
    creates start.trace + 1
    ≤ creates (fan_out kube cluster (workload (pos 1)) replicas 0 0 start).1.trace
fan_out-create_first_example =
    fan_out-create_first kube cluster (workload (pos 1)) (replica "train-0")
      (replica "train-1" ∷ []) start refl refl

names_apart : ◌≢◌ {A = String} "train-0" "train-1"
names_apart e = let h : false ≡ true = eq_true "train-0" "train-1" e in cc

child_name_distinct_example :
    child_name digest "nightly" "train-0" ≢ child_name digest "nightly" "train-1"
child_name_distinct_example =
    child_name_distinct digest "nightly" "train-0" "train-1" (omega arith) (omega arith) names_apart

child_name_ambiguous_example :
    child_name digest ("a" <> "-" <> "b") "c" ≡ child_name digest "a" ("b" <> "-" <> "c")
child_name_ambiguous_example = child_name_ambiguous digest "a" "b" "c" (omega arith)

keep_pods_iff_example :
    In (replica "train-0") (keep_pods kube true none replicas)
    ↔ (In (replica "train-0") replicas × Eligible kube true none (replica "train-0"))
keep_pods_iff_example = keep_pods_iff kube true none (replica "train-0") replicas

abbrev long_parent : String
long_parent =
    "train-train-train-train-train-train-train-train-train-train-train-train-train-train-train-train-train-train-train-train-train-train-train-train-train-train-train-train-train-train-train-train-train-train-train-train-train-train-train-train-train-x"

child_name_fits_iff_example :
    (len (child_name digest long_parent "replica-0") ≤ max_name)
    ↔ ((len (base_name long_parent "replica-0") ≤ max_name) ⊎ (len long_parent ≤ 240))
child_name_fits_iff_example = child_name_fits_iff digest long_parent "replica-0" refl

few_resolved :
    (pods : List Pod)
    → (resolve_pods kube cluster (workload (pos 1)) start).0 ≡ found pods
    → length pods < 2147483648
unfolding resolve_pods workload_kind by_selector list_selected filter_pods keep_pods
    pod_requests_gpu extra_selector perform
few_resolved pods e = let same : replicas ≡ pods = cc e in rw (sym same) two_fit

reconcile_found-create-le_example :
    creates (reconcile_found kube cluster (workload (pos 1)) start).1.trace
    ≤ creates start.trace + 1
reconcile_found-create-le_example =
    reconcile_found-create-le kube cluster 1 (omega arith) (workload (pos 1)) start refl
      few_resolved
