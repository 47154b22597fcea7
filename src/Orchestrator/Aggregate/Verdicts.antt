-- ===== src/Orchestrator/Aggregate/Verdicts.antt =====
-- What the parent's phase says of the Pods.
use k8s_native_fast_gpu_chec.Prelude.{
  ◌+◌, ◌≤◌, ◌<◌, String, ◌≡◌, refl, ◌≢◌, ◌↔◌, ◌⊎◌, inl, inr, Option, none, some, List, [], ◌∷◌,
  arith, length, eq_iff, All,
}
use k8s_native_fast_gpu_chec.Api.{Time, Pod, GpuCheckpoint, phase_completed, phase_failed}
use k8s_native_fast_gpu_chec.Api.Workload.{
  WorkloadCheckpointStatus, wc_completed, wc_partially_failed, wc_failed, wc_in_progress,
}
use k8s_native_fast_gpu_chec.Orchestrator.Aggregate.{
  Tally, Bin, in_active, in_done, in_failed, bin_of, child_of, Verdict, all_done, some_failed,
  all_failed, in_progress, verdict, with_verdict,
}
use k8s_native_fast_gpu_chec.Orchestrator.Aggregate.Counts.{weigh, count}

-- The phase that each case of the `switch` sets.
abbrev pub phase_of : Verdict → String
phase_of all_done = wc_completed
phase_of some_failed = wc_partially_failed
phase_of all_failed = wc_failed
phase_of in_progress = wc_in_progress

pub phase-with_verdict :
    (s : WorkloadCheckpointStatus) (t : Tally) (v : Verdict) (at : Time)
    → (with_verdict s t v at).phase ≡ phase_of v
unfolding with_verdict
phase-with_verdict s t all_done at = refl
phase-with_verdict s t some_failed at = refl
phase-with_verdict s t all_failed at = refl
phase-with_verdict s t in_progress at = refl

pub phase_of_inj : (v v' : Verdict) → phase_of v ≡ phase_of v' → v ≡ v'
phase_of_inj v v' h = ground (
  arith,
  eq_iff wc_completed wc_partially_failed,
  eq_iff wc_completed wc_failed,
  eq_iff wc_completed wc_in_progress,
  eq_iff wc_partially_failed wc_failed,
  eq_iff wc_partially_failed wc_in_progress,
  eq_iff wc_failed wc_in_progress,
)

-- The `switch` as a partition, for counters that add up and do not wrap.
pub record Partition (t : Tally) : Type 0 where
  pub all_done_iff : (verdict t ≡ all_done) ↔ (t.done ≡ t.total)
  pub all_failed_iff : (verdict t ≡ all_failed) ↔ ((t.failed ≡ t.total) × (0 < t.total))
  pub some_failed_iff : (verdict t ≡ some_failed) ↔ ((t.active ≡ 0) × (0 < t.failed) × (0 < t.done))
  pub in_progress_iff : (verdict t ≡ in_progress) ↔ (0 < t.active)

pub verdict-Partition :
    (t : Tally) → t.active + t.done + t.failed ≡ t.total → t.total < 2147483648 → Partition t
unfolding verdict
verdict-Partition t b bound = ground arith

-- The child exists and has this phase.
abbrev pub HasPhase : String → Option GpuCheckpoint → Type 0
HasPhase phase child = (c : GpuCheckpoint) × (child ≡ some c) × (c.status.phase ≡ phase)

pub bin_of_done_iff : (o : Option GpuCheckpoint) → (bin_of o ≡ in_done) ↔ HasPhase phase_completed o
unfolding bin_of
bin_of_done_iff none = (λ h. cc, λ (c, e, p). cc)
bin_of_done_iff (some c) = (
  λ h. (c, refl, ground (arith, eq_iff c.status.phase phase_completed)),
  λ (c', e, p). ground (arith, eq_iff c.status.phase phase_completed),
)

pub bin_of_failed_iff :
    (o : Option GpuCheckpoint) → (bin_of o ≡ in_failed) ↔ HasPhase phase_failed o
unfolding bin_of
bin_of_failed_iff none = (λ h. cc, λ (c, e, p). cc)
bin_of_failed_iff (some c) = (
  λ h. (c, refl, ground (arith, eq_iff c.status.phase phase_failed)),
  λ (c', e, p). ground (
    arith,
    eq_iff c.status.phase phase_completed,
    eq_iff c.status.phase phase_failed,
    eq_iff phase_failed phase_completed,
  ),
)

weigh_cases : (b c : Bin) → ((c ≡ b) × (weigh b c ≡ 1)) ⊎ ((c ≢ b) × (weigh b c ≡ 0))
weigh_cases b c = ground arith

bin_cases : (c : Bin) → (c ≡ in_done) ⊎ ((c ≡ in_failed) ⊎ (c ≡ in_active))
bin_cases in_active = inr (inr refl)
bin_cases in_done = inl refl
bin_cases in_failed = inr (inl refl)

weigh_at : {c : Bin} → c ≡ in_active → weigh in_active c ≡ 0 → ⊥
weigh_at a e = ground arith

module _ (sha1_hex : String → String) (parent : String) (children : List GpuCheckpoint) where
  abbrev pub child : Pod → Option GpuCheckpoint
  child pod = child_of sha1_hex parent children pod

  count-le-length :
      (b : Bin) (pods : List Pod) → count sha1_hex parent children b pods ≤ length pods
  count-le-length b [] = omega arith
  count-le-length b (pod ∷ pods) =
      ground (arith, count-le-length b pods, weigh_cases b (bin_of (child pod)))

  pub count-All_iff :
      (b : Bin) (P : Pod → Type 0) (pods : List Pod)
      → ((pod : Pod) → (bin_of (child pod) ≡ b) ↔ P pod)
      → (count sha1_hex parent children b pods ≡ length pods) ↔ All P pods
  count-All_iff b P [] h = (λ e. tt, λ a. refl)
  count-All_iff b P (pod ∷ pods) h = (
    λ e. (
      (h pod).0 (ground (arith, weigh_cases b (bin_of (child pod)), count-le-length b pods)),
      (count-All_iff b P pods h).0
          (ground (arith, weigh_cases b (bin_of (child pod)), count-le-length b pods)),
    ),
    λ (p, ps).
        ground
          (arith, weigh_cases b (bin_of (child pod)), (h pod).1 p, (count-All_iff b P pods h).1 ps),
  )

  -- The child of a Pod has ended.
  abbrev pub HasEnded : Pod → Type 0
  HasEnded pod = HasPhase phase_completed (child pod) ⊎ HasPhase phase_failed (child pod)

  active_cases :
      (o : Option GpuCheckpoint)
      → (weigh in_active (bin_of o) ≡ 0) ↔ (HasPhase phase_completed o ⊎ HasPhase phase_failed o)
  active_cases o = (
    λ e. elim (bin_cases (bin_of o)) [
      | inl d ↦ inl ((bin_of_done_iff o).0 d)
      | inr (inl f) ↦ inr ((bin_of_failed_iff o).0 f)
      | inr (inr a) ↦ absurd (omega (arith, weigh_at a e))
    ],
    elim [
      | inl d ↦ ground (arith, (bin_of_done_iff o).1 d)
      | inr f ↦ ground (arith, (bin_of_failed_iff o).1 f)
    ],
  )

  pub count_ended_iff :
      (pods : List Pod) → (count sha1_hex parent children in_active pods ≡ 0) ↔ All HasEnded pods
  count_ended_iff [] = (λ e. tt, λ a. refl)
  count_ended_iff (pod ∷ pods) = (
    λ e. ((active_cases (child pod)).0 (omega arith), (count_ended_iff pods).0 (omega arith)),
    λ (p, ps). omega (arith, (active_cases (child pod)).1 p, (count_ended_iff pods).1 ps),
  )
