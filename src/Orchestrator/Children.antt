-- ===== src/Orchestrator/Children.antt =====
-- `buildChild` and step (3) of `Reconcile`: one child for each Pod, as `maxConcurrent` allows.
pub mod Limits
pub mod Coverage
use k8s_native_fast_gpu_chec.Prelude.{
  ℕ, ◌+◌, ℤ, pos, negsuc, String, Bool, true, false, ◌&&◌, ◌||◌, Option, none, some, List, [], ◌∷◌,
  ok, err, leb, ltb, inc32, ◌==◌, if◌then◌else◌,
}
use k8s_native_fast_gpu_chec.Effect.{Handler, World, perform}
use k8s_native_fast_gpu_chec.Api.{
  GpuCheckpoint, Pod, ApiError, not_found, already_exists, other, found, failed, phase_completed,
  phase_failed,
}
use k8s_native_fast_gpu_chec.Orchestrator.Calls.{Kube, Op, Reply, get_child, create_child}
use k8s_native_fast_gpu_chec.Orchestrator.Naming.{child_name, per_pod_storage}
use k8s_native_fast_gpu_chec.Orchestrator.Pods.{Workload}

abbrev pub owned_by_label : String
owned_by_label = "gpu-cr.io/workload-checkpoint"

-- `isTerminal`
unfoldable pub is_terminal : String → Bool
is_terminal phase = phase == phase_completed || phase == phase_failed

-- `wc.Spec.MaxConcurrent > 0 && inFlight >= wc.Spec.MaxConcurrent`, with `inFlight` an int32 bit
-- pattern.
unfoldable pub is_limited : ℤ → ℕ → Bool
is_limited (pos m) in_flight = ltb 0 m && (ltb in_flight 2147483648 && leb m in_flight)
is_limited (negsuc m) in_flight = false

abbrev pub is_not_found : ApiError → Bool
is_not_found (not_found t) = true
is_not_found e = false

-- `err != nil && !apierrors.IsAlreadyExists(err)`
abbrev pub hard_error : Option ApiError → Option ApiError
hard_error none = none
hard_error (some (already_exists t)) = none
hard_error (some e) = some e

-- How the loop of step (3) ends: the counters, and the error that `Reconcile` returns, if any.
pub record FanOut : Type 0 where
  pub created : ℕ
  pub in_flight : ℕ
  pub error : Option ApiError

abbrev pub fan_out_result : ℕ → ℕ → Option ApiError → FanOut
fan_out_result created in_flight error = record {
  created = created;
  in_flight = in_flight;
  error = error;
}

module _ (K : Kube) where
  -- `buildChild`
  unfoldable pub build_child : Workload K → Pod → String → GpuCheckpoint
  build_child wc pod name = record {
    meta = record {
      namespace = wc.meta.namespace;
      name = name;
      labels = (owned_by_label, wc.meta.name) ∷ [];
    };
    spec = record {
      workload_ref = record {
        kind = "Pod";
        namespace = pod.meta.namespace;
        name = pod.meta.name;
        container = wc.spec.workload_ref.container;
        node_info = pod.node_name;
      };
      storage = per_pod_storage wc.spec.storage pod.meta.name;
      schedule = wc.spec.schedule;
      incremental = wc.spec.incremental;
    };
    status = record {
      phase = "";
      observed_node = "";
      last_checkpoint_time = none;
      checkpoint_count = 0;
      last_checkpoint_path = "";
      message = "";
      conditions = [];
    };
  }

  module _ (H : Handler (Op K) (Reply K)) where
    -- The creation of one child: the error that ends `Reconcile`, if any.
    unfoldable pub create_for : Workload K → Pod → String → World H → Option ApiError × World H
    create_for wc pod name w = elim (K.set_owner wc (build_child wc pod name)) [
      | err t ↦ (some (other t), w)
      | ok child ↦ let (answer, w') = perform H (create_child child) w in (hard_error answer, w')
    ]

    -- The loop over the Pods.
    unfoldable pub fan_out : Workload K → List Pod → ℕ → ℕ → World H → FanOut × World H
    fan_out wc [] created in_flight w = (fan_out_result created in_flight none, w)
    fan_out wc (pod ∷ pods) created in_flight w =
        let name = child_name K.sha1_hex wc.meta.name pod.meta.name in
        let (answer, w₁) = perform H (get_child wc.meta.namespace name) w in
        let (e, w₂) = create_for wc pod name w₁ in
        elim answer [
          | found child ↦
              fan_out wc pods created
                (if is_terminal child.status.phase then in_flight else inc32 in_flight) w₁
          | failed t ↦ elim (is_not_found t) [
            | false ↦ (fan_out_result created in_flight (some t), w₁)
            | true ↦ elim (is_limited wc.spec.max_concurrent in_flight) [
              | true ↦ (fan_out_result created in_flight none, w₁)
              | false ↦ elim e [
                | some t' ↦ (fan_out_result created in_flight (some t'), w₂)
                | none ↦ fan_out wc pods (created + 1) (inc32 in_flight) w₂
              ]
            ]
          ]
        ]
