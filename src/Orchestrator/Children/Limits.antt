-- ===== src/Orchestrator/Children/Limits.antt =====
-- How many children one pass of step (3) creates.
use k8s_native_fast_gpu_chec.Prelude.{
  ℕ, ◌+◌, ◌-◌, ◌≤◌, ◌<◌, ℤ, pos, String, ◌≡◌, true, false, List, [], ◌∷◌, arith, length, ◌⊎◌, inc32,
  ok,
}
use k8s_native_fast_gpu_chec.Effect.{Handler, World, perform, Event}
use k8s_native_fast_gpu_chec.Api.{Pod, GpuCheckpoint, not_found, failed}
use k8s_native_fast_gpu_chec.Orchestrator.Calls.{Kube, Op, Reply, get_child, create_child}
use k8s_native_fast_gpu_chec.Orchestrator.Naming.{child_name}
use k8s_native_fast_gpu_chec.Orchestrator.Pods.{Workload}
use k8s_native_fast_gpu_chec.Orchestrator.Children.{is_limited, build_child, create_for, fan_out}

-- The number of calls that create a child.
module _ {K : Kube} where
  abbrev pub is_create : Op K → ℕ
  is_create (create_child c) = 1
  is_create _ = 0

  abbrev pub creates : List (Event (Op K) (Reply K)) → ℕ
  creates [] = 0
  creates ((o, r) ∷ es) = is_create o + creates es

is_limited_pos :
    (max : ℤ) (m n : ℕ)
    → max ≡ pos m
    → 0 < m
    → n < 2147483648
    → ((is_limited max n ≡ true) × (m ≤ n)) ⊎ ((is_limited max n ≡ false) × (n < m))
unfolding is_limited
is_limited_pos max m n e h b = ground arith

module _ (K : Kube) (H : Handler (Op K) (Reply K)) (wc : Workload K) where
  pub creates-get :
      (ns name : String) (w : World H)
      → creates (perform H (get_child ns name) w).1.trace ≡ creates w.trace
  unfolding perform
  creates-get ns name w = omega arith

  creates-create_for :
      (pod : Pod) (name : String) (w : World H)
      → let w' = (create_for K H wc pod name w).1 in
        (creates w.trace ≤ creates w'.trace) × (creates w'.trace ≤ creates w.trace + 1)
  unfolding create_for perform
  creates-create_for pod name w = ground arith

  -- The loop from any value of its counter.
  fan_out_bound :
      (m : ℕ) (pods : List Pod) (created n : ℕ) (w : World H)
      → wc.spec.max_concurrent ≡ pos m
      → 0 < m
      → n + length pods < 2147483648
      → creates (fan_out K H wc pods created n w).1.trace ≤ creates w.trace + (m - n)
  unfolding fan_out
  fan_out_bound m [] created n w e h b = omega arith
  fan_out_bound m (pod ∷ pods) created n w e h b =
      let name = child_name K.sha1_hex wc.meta.name pod.meta.name in
      let w₁ = (perform H (get_child wc.meta.namespace name) w).1 in
      let w₂ = (create_for K H wc pod name w₁).1 in
      let limit = is_limited_pos wc.spec.max_concurrent m n e h (omega arith) in
      let same = creates-get wc.meta.namespace name w in
      let (_, more) = creates-create_for pod name w₁ in
      ground (
        arith,
        fan_out_bound m pods created n w₁ e h,
        fan_out_bound m pods created (inc32 n) w₁ e h,
        fan_out_bound m pods (created + 1) (inc32 n) w₂ e h,
      )

  -- With maxConcurrent at m > 0, and fewer than 2^31 Pods, one pass calls Create at most m times,
  -- whatever the API server answers.
  pub fan_out-create-le :
      (m : ℕ) (pods : List Pod) (w : World H)
      → wc.spec.max_concurrent ≡ pos m
      → 0 < m
      → length pods < 2147483648
      → creates (fan_out K H wc pods 0 0 w).1.trace ≤ creates w.trace + m
  fan_out-create-le m pods w e h b = omega (arith, fan_out_bound m pods 0 0 w e h (omega arith))

  -- A pass takes no call back.
  fan_out_mono :
      (pods : List Pod) (created n : ℕ) (w : World H)
      → creates w.trace ≤ creates (fan_out K H wc pods created n w).1.trace
  unfolding fan_out
  fan_out_mono [] created n w = omega arith
  fan_out_mono (pod ∷ pods) created n w =
      let name = child_name K.sha1_hex wc.meta.name pod.meta.name in
      let w₁ = (perform H (get_child wc.meta.namespace name) w).1 in
      let w₂ = (create_for K H wc pod name w₁).1 in
      let same = creates-get wc.meta.namespace name w in
      let (more, _) = creates-create_for pod name w₁ in
      ground (
        arith,
        fan_out_mono pods created n w₁,
        fan_out_mono pods created (inc32 n) w₁,
        fan_out_mono pods (created + 1) (inc32 n) w₂,
      )

  creates-create_for_owned :
      (pod : Pod) (name : String) (w : World H) {child : GpuCheckpoint}
      → K.set_owner wc (build_child K wc pod name) ≡ ok child
      → creates (create_for K H wc pod name w).1.trace ≡ creates w.trace + 1
  unfolding create_for perform
  creates-create_for_owned pod name w e = ground arith

  -- The cap counts only the children of the Pods that stand earlier in the list. If the first Pod has
  -- no child yet and its owner can be set, a pass creates one for any maxConcurrent, also where the
  -- children of the later Pods that are still running already use up the cap.
  pub fan_out-create_first :
      (pod : Pod) (pods : List Pod) (w : World H) {t : String} {child : GpuCheckpoint}
      → let name = child_name K.sha1_hex wc.meta.name pod.meta.name in
        (H.handle (get_child wc.meta.namespace name) w.state).0 ≡ failed (not_found t)
        → K.set_owner wc (build_child K wc pod name) ≡ ok child
        → creates w.trace + 1 ≤ creates (fan_out K H wc (pod ∷ pods) 0 0 w).1.trace
  unfolding fan_out perform is_limited
  fan_out-create_first pod pods w e o =
      let name = child_name K.sha1_hex wc.meta.name pod.meta.name in
      let w₁ = (perform H (get_child wc.meta.namespace name) w).1 in
      let w₂ = (create_for K H wc pod name w₁).1 in
      ground (
        arith,
        creates-get wc.meta.namespace name w,
        creates-create_for_owned pod name w₁ o,
        fan_out_mono pods 1 (inc32 0) w₂,
      )
