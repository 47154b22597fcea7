-- ===== src/Orchestrator/Aggregate/Counts.antt =====
-- The counters of `aggregate` against a plain count of the Pods by their child's phase.
use k8s_native_fast_gpu_chec.Prelude.{
  ℕ, ◌+◌, ◌<◌, String, Bool, true, false, not, ◌&&◌, ◌==◌, Option, none, some, eq_iff,
  if◌then◌else◌, ◌≡◌, refl, ◌∙◌, List, [], ◌∷◌, ◌++◌, map, arith, length,
}
use mathlib.Core.List.{append_assoc, append-nil}
use k8s_native_fast_gpu_chec.Api.{Pod, GpuCheckpoint}
use k8s_native_fast_gpu_chec.Api.Workload.{TargetStatus}
use k8s_native_fast_gpu_chec.Orchestrator.Naming.{child_name}
use k8s_native_fast_gpu_chec.Orchestrator.Aggregate.{
  Tally, Bin, in_active, in_done, in_failed, bin_of, tally_pod, tally_pods, child_of, target_status,
}

abbrev pub weigh : Bin → Bin → ℕ
weigh in_active in_active = 1
weigh in_done in_done = 1
weigh in_failed in_failed = 1
weigh _ _ = 0

-- The child is there and has the phase.
abbrev pub is_in : String → Option GpuCheckpoint → Bool
is_in phase none = false
is_in phase (some c) = c.status.phase == phase

-- The child is missing or has neither phase of an end.
abbrev pub is_open : Option GpuCheckpoint → Bool
is_open o = not (is_in "Completed" o) && not (is_in "Failed" o)

apart : (s : String) → s == "Completed" ≡ true → s == "Failed" ≡ false
apart s e = let q : s ≡ "Completed" = (eq_iff s "Completed").0 e in rw q refl

pub weigh_done :
    (o : Option GpuCheckpoint) → weigh in_done (bin_of o) ≡ (if is_in "Completed" o then 1 else 0)
unfolding bin_of
weigh_done none = refl
weigh_done (some c) = ground arith

pub weigh_failed :
    (o : Option GpuCheckpoint) → weigh in_failed (bin_of o) ≡ (if is_in "Failed" o then 1 else 0)
unfolding bin_of
weigh_failed none = refl
weigh_failed (some c) = ground (arith, apart c.status.phase)

pub weigh_active :
    (o : Option GpuCheckpoint) → weigh in_active (bin_of o) ≡ (if is_open o then 1 else 0)
unfolding bin_of
weigh_active none = refl
weigh_active (some c) = ground (arith, apart c.status.phase)

-- What a child says, or `missing` without a child.
abbrev pub of_child : String → (GpuCheckpoint → String) → Option GpuCheckpoint → String
of_child missing says none = missing
of_child missing says (some c) = says c

module _ (sha1_hex : String → String) (parent : String) (children : List GpuCheckpoint) where
  -- How many Pods are counted in a bin.
  abbrev pub count : Bin → List Pod → ℕ
  count b [] = 0
  count b (pod ∷ pods) = weigh b (bin_of (child_of sha1_hex parent children pod)) + count b pods

  pub count_total :
      (pods : List Pod)
      → count in_active pods + count in_done pods + count in_failed pods ≡ length pods
  count_total [] = refl
  count_total (pod ∷ pods) = ground (arith, count_total pods)

  -- The counters after the loop, from those before it.
  pub record Counted (t u : Tally) (pods : List Pod) : Type 0 where
    pub total_is : u.total ≡ t.total + length pods
    pub active_is : u.active ≡ t.active + count in_active pods
    pub done_is : u.done ≡ t.done + count in_done pods
    pub failed_is : u.failed ≡ t.failed + count in_failed pods

  abbrev pub Balanced : Tally → Type 0
  Balanced t = t.active + t.done + t.failed ≡ t.total

  -- One round, as long as no counter wraps.
  tally_pod_step :
      (t : Tally) (pod : Pod) (name : String)
      → t.total < 2147483648
      → Balanced t
      → let c = child_of sha1_hex parent children pod in
        let u = tally_pod t pod name c in
        (u.total ≡ t.total + 1)
        × Balanced u
        × (u.active ≡ t.active + weigh in_active (bin_of c))
        × (u.done ≡ t.done + weigh in_done (bin_of c))
        × (u.failed ≡ t.failed + weigh in_failed (bin_of c))
  unfolding tally_pod
  tally_pod_step t pod name bound b = ground arith

  pub tally_pods-Counted :
      (t : Tally) (pods : List Pod)
      → t.total + length pods < 2147483648
      → Balanced t
      → Counted t (tally_pods sha1_hex parent children t pods) pods
  unfolding tally_pods
  tally_pods-Counted t [] bound b = omega arith
  tally_pods-Counted t (pod ∷ pods) bound b =
      let name = child_name sha1_hex parent pod.meta.name in
      let (total, balanced, active, done, failed) = tally_pod_step t pod name (omega arith) b in
      let u = tally_pod t pod name (child_of sha1_hex parent children pod) in
      let ih : Counted u (tally_pods sha1_hex parent children u pods) pods =
        tally_pods-Counted u pods (omega arith) balanced in
      omega arith

  -- How many Pods have such a child, or such a missing child.
  abbrev pub count_if : (Option GpuCheckpoint → Bool) → List Pod → ℕ
  count_if test [] = 0
  count_if test (pod ∷ pods) =
      (if test (child_of sha1_hex parent children pod) then 1 else 0) + count_if test pods

  pub count-count_if :
      (b : Bin) (test : Option GpuCheckpoint → Bool) (pods : List Pod)
      → ((o : Option GpuCheckpoint) → weigh b (bin_of o) ≡ (if test o then 1 else 0))
      → count b pods ≡ count_if test pods
  count-count_if b test [] h = refl
  count-count_if b test (pod ∷ pods) h =
      rw (h (child_of sha1_hex parent children pod), count-count_if b test pods h) refl

  -- The target of one Pod.
  abbrev pub target_of : Pod → TargetStatus
  target_of pod =
      let child = child_of sha1_hex parent children pod in
      record {
        pod_name = pod.meta.name;
        node = pod.node_name;
        child_name = child_name sha1_hex parent pod.meta.name;
        phase = of_child "Pending" (λ c. c.status.phase) child;
        path = of_child "" (λ c. c.status.last_checkpoint_path) child;
        message = of_child "" (λ c. c.status.message) child;
      }

  target_status-target_of :
      (pod : Pod) (o : Option GpuCheckpoint)
      → child_of sha1_hex parent children pod ≡ o
      → target_status pod (child_name sha1_hex parent pod.meta.name) o ≡ target_of pod
  unfolding target_status
  target_status-target_of pod none e = rw e refl
  target_status-target_of pod (some c) e = rw e refl

  pub targets-tally_pods :
      (t : Tally) (pods : List Pod)
      → (tally_pods sha1_hex parent children t pods).targets ≡ t.targets ++ map target_of pods
  unfolding tally_pods tally_pod
  targets-tally_pods t [] = rw append-nil
  targets-tally_pods t (pod ∷ pods) =
      targets-tally_pods
        (tally_pod t pod (child_name sha1_hex parent pod.meta.name)
          (child_of sha1_hex parent children pod))
        pods
      ∙ rw (append_assoc, target_status-target_of pod _ refl) refl
