-- ===== src/Orchestrator/Aggregate/Status.antt =====
-- `aggregate` of the orchestrator as a whole, against the phases of the Pods' children.
use k8s_native_fast_gpu_chec.Prelude.{
  ℕ, ◌+◌, ◌<◌, String, ◌≡◌, refl, ◌↔◌, List, map, arith, length, All, ◌==◌, if◌then◌else◌,
}
use k8s_native_fast_gpu_chec.Api.{Time, Pod, GpuCheckpoint, phase_completed, phase_failed}
use k8s_native_fast_gpu_chec.Api.Workload.{
  WorkloadCheckpointStatus, wc_completed, wc_failed, wc_in_progress, wc_partially_failed,
}
use k8s_native_fast_gpu_chec.Orchestrator.Aggregate.{
  Tally, no_tally, in_active, in_done, in_failed, tally_pods, Verdict, all_done, some_failed,
  all_failed, in_progress, verdict, with_verdict, with_tally, aggregate_status, set_once,
}
use k8s_native_fast_gpu_chec.Orchestrator.Aggregate.Counts.{
  count_total, count_if, is_in, is_open, weigh_active, weigh_done, weigh_failed, count-count_if,
  Counted, tally_pods-Counted, target_of, targets-tally_pods,
}
use k8s_native_fast_gpu_chec.Orchestrator.Aggregate.Verdicts.{
  HasPhase, HasEnded, child, phase_of, phase_of_inj, phase-with_verdict, Partition,
  verdict-Partition, bin_of_done_iff, bin_of_failed_iff, count-All_iff, count_ended_iff,
}

-- The counters of the status are those of the loop, on every branch of the `switch`.
record Carries (s : WorkloadCheckpointStatus) (t : Tally) : Type 0 where
  total_is : s.total ≡ t.total
  active_is : s.active ≡ t.active
  completed_is : s.completed ≡ t.done
  failed_is : s.failed ≡ t.failed
  targets_are : s.targets ≡ t.targets

with_verdict-Carries :
    (s : WorkloadCheckpointStatus) (t : Tally) (v : Verdict) (at : Time)
    → Carries (with_verdict (with_tally s t) t v at) t
unfolding with_verdict with_tally
with_verdict-Carries s t v at = ground arith

positive : {n : ℕ} → ¬ (n ≡ 0) → 0 < n
positive h = omega arith

module _ (sha1_hex : String → String) (parent : String) (children : List GpuCheckpoint)
    (s : WorkloadCheckpointStatus) (pods : List Pod) (at : Time) where
  abbrev tally : Tally
  tally = tally_pods sha1_hex parent children no_tally pods

  abbrev pub after : WorkloadCheckpointStatus
  after = aggregate_status sha1_hex parent s children pods at

  counted : length pods < 2147483648 → Counted sha1_hex parent children no_tally tally pods
  counted bound = tally_pods-Counted sha1_hex parent children no_tally pods (omega arith) refl

  partition : length pods < 2147483648 → Partition tally
  partition bound =
      let c = counted bound in
      verdict-Partition tally (omega (arith, count_total sha1_hex parent children pods))
        (omega arith)

  carries : Carries after tally
  unfolding aggregate_status
  carries = with_verdict-Carries s tally (verdict tally) at

  -- For fewer than 2^31 Pods: the total is the number of Pods, the
  -- completed and the failed ones are the Pods whose child has the phase `Completed` or `Failed`, the
  -- active ones are those whose child is missing or has another phase, the three add up to the total,
  -- and the targets are one for each Pod in the order of the Pods, with the name of its child and the
  -- phase, path and message of that child, or `Pending` if it is missing.
  pub aggregate_counts :
      length pods < 2147483648
      → (after.total ≡ length pods)
        × (after.active + after.completed + after.failed ≡ after.total)
        × (after.active ≡ count_if sha1_hex parent children is_open pods)
        × (after.completed ≡ count_if sha1_hex parent children (is_in "Completed") pods)
        × (after.failed ≡ count_if sha1_hex parent children (is_in "Failed") pods)
        × (after.targets ≡ map (target_of sha1_hex parent children) pods)
  aggregate_counts bound =
      let c = counted bound in
      let k = carries in
      let n = count_total sha1_hex parent children pods in
      let a = count-count_if sha1_hex parent children in_active is_open pods weigh_active in
      let d = count-count_if sha1_hex parent children in_done (is_in "Completed") pods weigh_done in
      let f =
        count-count_if sha1_hex parent children in_failed (is_in "Failed") pods weigh_failed in
      (
        omega arith,
        omega arith,
        omega arith,
        omega arith,
        omega arith,
        rw (k.targets_are) (targets-tally_pods sha1_hex parent children no_tally pods),
      )

  phase-after_iff : (v : Verdict) → (after.phase ≡ phase_of v) ↔ (verdict tally ≡ v)
  unfolding aggregate_status
  phase-after_iff v = (
    λ e. phase_of_inj (verdict tally) v (rw phase-with_verdict at e),
    λ e. rw (phase-with_verdict, e),
  )

  completed_iff :
      length pods < 2147483648
      → (after.phase ≡ wc_completed)
        ↔ All (λ pod. HasPhase phase_completed (child sha1_hex parent children pod)) pods
  completed_iff bound =
      let c = counted bound in
      let p = partition bound in
      let q = phase-after_iff all_done in
      let a =
        count-All_iff sha1_hex parent children in_done
          (λ pod. HasPhase phase_completed (child sha1_hex parent children pod)) pods
          (λ pod. bin_of_done_iff _) in
      (
        λ e. let d = p.all_done_iff.0 (q.0 e) in a.0 (omega arith),
        λ h. let n = a.1 h in q.1 (p.all_done_iff.1 (omega arith)),
      )

  failed_iff :
      length pods < 2147483648
      → (after.phase ≡ wc_failed) ↔ (
          (0 < length pods)
          × All (λ pod. HasPhase phase_failed (child sha1_hex parent children pod)) pods)
  failed_iff bound =
      let c = counted bound in
      let p = partition bound in
      let q = phase-after_iff all_failed in
      let a =
        count-All_iff sha1_hex parent children in_failed
          (λ pod. HasPhase phase_failed (child sha1_hex parent children pod)) pods
          (λ pod. bin_of_failed_iff _) in
      (
        λ e. let (d, r) = p.all_failed_iff.0 (q.0 e) in (omega arith, a.0 (omega arith)),
        λ (r, h). let n = a.1 h in q.1 (p.all_failed_iff.1 (omega arith)),
      )

  in_progress_iff :
      length pods < 2147483648
      → (after.phase ≡ wc_in_progress) ↔ (¬ All (HasEnded sha1_hex parent children) pods)
  in_progress_iff bound =
      let c = counted bound in
      let p = partition bound in
      let q = phase-after_iff in_progress in
      let a = count_ended_iff sha1_hex parent children pods in
      (
        λ e h. let d = p.in_progress_iff.0 (q.0 e) in let n = a.1 h in omega arith,
        λ h. q.1 (p.in_progress_iff.1 (positive (λ z. h (a.0 (omega arith))))),
      )

  partially_failed_iff :
      length pods < 2147483648
      → (after.phase ≡ wc_partially_failed) ↔ (
          All (HasEnded sha1_hex parent children) pods
          × ¬ All (λ pod. HasPhase phase_completed (child sha1_hex parent children pod)) pods
          × ¬ All (λ pod. HasPhase phase_failed (child sha1_hex parent children pod)) pods)
  partially_failed_iff bound =
      let c = counted bound in
      let p = partition bound in
      let q = phase-after_iff some_failed in
      let n = count_total sha1_hex parent children pods in
      let a = count_ended_iff sha1_hex parent children pods in
      let d =
        count-All_iff sha1_hex parent children in_done
          (λ pod. HasPhase phase_completed (child sha1_hex parent children pod)) pods
          (λ pod. bin_of_done_iff _) in
      let f =
        count-All_iff sha1_hex parent children in_failed
          (λ pod. HasPhase phase_failed (child sha1_hex parent children pod)) pods
          (λ pod. bin_of_failed_iff _) in
      (
        λ e.
            let (none_active, failures, successes) = p.some_failed_iff.0 (q.0 e) in
            (
              a.0 (omega arith),
              λ all. let k = d.1 all in omega arith,
              λ all. let k = f.1 all in omega arith,
            ),
        λ (ended, not_done, not_failed).
            let k = a.1 ended in
            q.1 (
              p.some_failed_iff.1 (
                omega arith,
                positive (λ z. not_done (d.0 (omega arith))),
                positive (λ z. not_failed (f.0 (omega arith))),
              )),
      )

  -- For fewer than 2^31 Pods, the phase of the parent: Completed exactly when the child of every Pod
  -- exists and has completed; Failed exactly when there is a Pod and the child of every Pod has failed;
  -- InProgress exactly when the child of some Pod is missing or has not ended; and PartiallyFailed exactly
  -- when all have ended, not all completed and not all failed.
  pub aggregate_phase_iff :
      length pods < 2147483648
      → ((after.phase ≡ wc_completed)
          ↔ All (λ pod. HasPhase phase_completed (child sha1_hex parent children pod)) pods)
        × ((after.phase ≡ wc_failed) ↔ (
            (0 < length pods)
            × All (λ pod. HasPhase phase_failed (child sha1_hex parent children pod)) pods))
        × ((after.phase ≡ wc_in_progress) ↔ (¬ All (HasEnded sha1_hex parent children) pods))
        × ((after.phase ≡ wc_partially_failed) ↔ (
            All (HasEnded sha1_hex parent children) pods
            × ¬ All (λ pod. HasPhase phase_completed (child sha1_hex parent children pod)) pods
            × ¬ All (λ pod. HasPhase phase_failed (child sha1_hex parent children pod)) pods))
  aggregate_phase_iff bound =
      (completed_iff bound, failed_iff bound, in_progress_iff bound, partially_failed_iff bound)

  -- The completion time is set only by a pass that completes the workload, and then only once: on
  -- every other pass, also one that ends Failed or PartiallyFailed, it stays what it was.
  pub aggregate_completion :
      after.completion_time
      ≡ (if after.phase == wc_completed then set_once s.completion_time at else s.completion_time)
  unfolding aggregate_status with_verdict with_tally
  aggregate_completion = completion_cases (verdict tally)
    where
      completion_cases :
          (v : Verdict)
          → let r = with_verdict (with_tally s tally) tally v at in
            r.completion_time
            ≡ (if r.phase == wc_completed then set_once s.completion_time at else s.completion_time)
      completion_cases all_done = refl
      completion_cases some_failed = refl
      completion_cases all_failed = refl
      completion_cases in_progress = refl
