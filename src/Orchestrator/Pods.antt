-- ===== src/Orchestrator/Pods.antt =====
-- `resolvePods`, `filterPods` and `podRequestsGPU`.
pub mod Filter
use k8s_native_fast_gpu_chec.Prelude.{
  ℕ, zero, suc, String, ◌<>◌, Bool, true, false, not, ◌&&◌, ◌||◌, Option, none, some, List, [], ◌∷◌,
  any, ◌==◌, if◌then◌else◌,
}
use k8s_native_fast_gpu_chec.Effect.{Handler, World, perform, M, pure, ◌>>=◌}
use k8s_native_fast_gpu_chec.Api.{Pod, Container, other, ApiResult, found, failed}
use k8s_native_fast_gpu_chec.Api.Workload.{WorkloadCheckpoint}
use k8s_native_fast_gpu_chec.Text.Trim.{is_empty}
use k8s_native_fast_gpu_chec.Orchestrator.Calls.{
  Kube, Op, Reply, get_pod, get_deployment, get_replica_set, get_stateful_set, get_job, list_pods,
}

-- `corev1.PodRunning`
abbrev pub pod_running : String
pod_running = "Running"

-- `v, ok := m[gpuResource]; ok && !v.IsZero()`
abbrev pub is_set : Option ℕ → Bool
is_set none = false
is_set (some zero) = false
is_set (some (suc n)) = true

-- `podRequestsGPU`
unfoldable pub pod_requests_gpu : Pod → Bool
pod_requests_gpu p =
    any (λ (c : Container). is_set c.gpu_limit || is_set c.gpu_request) p.containers

abbrev pub is_running : Pod → Bool
is_running p = p.phase == pod_running && elim p.deletion_timestamp [ none ↦ true | some t ↦ false ]

module _ (K : Kube) where
  abbrev pub Workload : Type 0
  Workload = WorkloadCheckpoint K.LabelSelector

  -- `requireGPU`
  abbrev pub requires_gpu : Option Bool → Bool
  requires_gpu none = true
  requires_gpu (some b) = b

  -- `extra`, nil if there is no podSelector.
  unfoldable pub extra_selector : Option K.LabelSelector → Option K.Selector
  extra_selector none = none
  extra_selector (some s) = K.as_selector (some s)

  abbrev pub selected : Option K.Selector → Pod → Bool
  selected none p = true
  selected (some s) p = K.matches s p.meta.labels

  -- The loop of `filterPods`.
  unfoldable pub keep_pods : Bool → Option K.Selector → List Pod → List Pod
  unfolding pod_requests_gpu
  keep_pods gpu extra [] = []
  keep_pods gpu extra (p ∷ ps) =
      let rest = keep_pods gpu extra ps in
      if not (is_running p)
      then rest
      else if not (selected extra p)
      then rest
      else if gpu && not (pod_requests_gpu p)
      then rest
      else p ∷ rest

  -- `filterPods`
  unfoldable pub filter_pods : List Pod → Workload → List Pod
  unfolding keep_pods extra_selector
  filter_pods pods wc =
      keep_pods (requires_gpu wc.spec.require_gpu) (extra_selector wc.spec.pod_selector) pods

  -- `kind`, with its default.
  unfoldable pub workload_kind : Workload → String
  workload_kind wc = let kind = wc.spec.workload_ref.kind in if is_empty kind then "Pod" else kind

  -- The selector of a Job; a Job without one is found by its label.
  unfoldable pub job_selector : String → Option K.LabelSelector → Option K.Selector
  job_selector name none = some (K.from_set (("job-name", name) ∷ []))
  job_selector name (some s) = K.as_selector (some s)

  module _ (H : Handler (Op K) (Reply K)) where
    -- The end of `resolvePods`: the Pods that the selector finds.
    unfoldable pub list_selected : Workload → Option K.Selector → M (World H) (ApiResult (List Pod))
    list_selected wc sel w =
        let (answer, w') = perform H (list_pods wc.spec.workload_ref.namespace sel) w in
        elim answer [ failed e ↦ (failed e, w') | found pods ↦ (found (filter_pods pods wc), w') ]

    -- A workload whose `spec.selector` was read.
    unfoldable pub by_selector :
        Workload
        → (Option K.LabelSelector → Option K.Selector)
        → ApiResult (Option K.LabelSelector)
        → M (World H) (ApiResult (List Pod))
    by_selector wc select (failed e) = pure (failed e)
    by_selector wc select (found s) = list_selected wc (select s)

    unfoldable pub by_pod : Workload → ApiResult Pod → M (World H) (ApiResult (List Pod))
    by_pod wc (failed e) = pure (failed e)
    by_pod wc (found p) = pure (found (filter_pods (p ∷ []) wc))

    -- `resolvePods`; the kind that it also returns is `workload_kind`.
    unfoldable pub resolve_pods : Workload → M (World H) (ApiResult (List Pod))
    resolve_pods wc =
        let ns = wc.spec.workload_ref.namespace in
        let name = wc.spec.workload_ref.name in
        let kind = workload_kind wc in
        if kind == "Pod"
        then (do answer ← perform H (get_pod ns name); by_pod wc answer)
        else if kind == "Deployment"
        then (do answer ← perform H (get_deployment ns name); by_selector wc K.as_selector answer)
        else if kind == "ReplicaSet"
        then (do answer ← perform H (get_replica_set ns name); by_selector wc K.as_selector answer)
        else if kind == "StatefulSet"
        then (do answer ← perform H (get_stateful_set ns name); by_selector wc K.as_selector answer)
        else if kind == "Job"
        then (do answer ← perform H (get_job ns name); by_selector wc (job_selector name) answer)
        else pure (failed (other ("unsupported workload kind " <> K.quote kind)))
