-- ===== src/Orchestrator/Calls.antt =====
-- What the orchestrator uses of the Kubernetes libraries, and its calls of the API server.
use k8s_native_fast_gpu_chec.Prelude.{String, Bool, Option, List, Result}
use k8s_native_fast_gpu_chec.Api.{Time, GpuCheckpoint, Pod, ApiError, ApiResult}
use k8s_native_fast_gpu_chec.Api.Workload.{WorkloadCheckpoint}

-- Code that is not modelled: a parameter of the definitions.
pub record Kube : Type 1 where
  -- `metav1.LabelSelector` and `labels.Selector`.
  pub LabelSelector : Type 0
  pub Selector : Type 0
  -- `metav1.LabelSelectorAsSelector`, nil for a nil selector's error.
  pub as_selector : Option LabelSelector → Option Selector
  -- `labels.SelectorFromSet` and `Selector.Matches`.
  pub from_set : List (String × String) → Selector
  pub matches : Selector → List (String × String) → Bool
  -- `hex.EncodeToString` of `sha1.Sum`.
  pub sha1_hex : String → String
  -- `ctrl.SetControllerReference`: the child with its owner set.
  pub set_owner : WorkloadCheckpoint LabelSelector → GpuCheckpoint → Result GpuCheckpoint
  -- `%q`
  pub quote : String → String

module _ (K : Kube) where
  pub data Op : Type 0 where
    now : Op
    get_workload : String → String → Op
    get_pod : String → String → Op
    get_deployment : String → String → Op
    get_replica_set : String → String → Op
    get_stateful_set : String → String → Op
    get_job : String → String → Op
    list_pods : String → Option K.Selector → Op
    get_child : String → String → Op
    create_child : GpuCheckpoint → Op
    list_children : String → List (String × String) → Op
    update_status : WorkloadCheckpoint K.LabelSelector → Op

  -- Of the four workload kinds only `spec.selector` is read. A status update answers with the object
  -- as the API server has it.
  abbrev pub Reply : Op → Type 0
  Reply now = Time
  Reply (get_workload ns name) = ApiResult (WorkloadCheckpoint K.LabelSelector)
  Reply (get_pod ns name) = ApiResult Pod
  Reply (get_deployment ns name) = ApiResult (Option K.LabelSelector)
  Reply (get_replica_set ns name) = ApiResult (Option K.LabelSelector)
  Reply (get_stateful_set ns name) = ApiResult (Option K.LabelSelector)
  Reply (get_job ns name) = ApiResult (Option K.LabelSelector)
  Reply (list_pods ns sel) = ApiResult (List Pod)
  Reply (get_child ns name) = ApiResult GpuCheckpoint
  Reply (create_child child) = Option ApiError
  Reply (list_children ns labels) = ApiResult (List GpuCheckpoint)
  Reply (update_status wc) = ApiResult (WorkloadCheckpoint K.LabelSelector)
