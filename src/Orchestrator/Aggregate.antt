-- ===== src/Orchestrator/Aggregate.antt =====
-- `aggregate`: the children's status is summed up in the parent.
pub mod Counts
pub mod Verdicts
pub mod Status
use k8s_native_fast_gpu_chec.Prelude.{
  ℕ, String, ◌<>◌, Bool, true, false, ◌&&◌, Option, none, some, List, [], ◌∷◌, ◌++◌, nat_eq, inc32,
  add32, is_pos32, ◌==◌, if◌then◌else◌,
}
use k8s_native_fast_gpu_chec.Effect.{Handler, World, perform}
use k8s_native_fast_gpu_chec.Api.{
  Time, GpuCheckpoint, Pod, ApiResult, found, failed, phase_completed, phase_failed,
}
use k8s_native_fast_gpu_chec.Api.Workload.{
  TargetStatus, WorkloadCheckpointStatus, wc_completed, wc_partially_failed, wc_failed,
  wc_in_progress,
}
use k8s_native_fast_gpu_chec.Text.Decimal.{print_i32}
use k8s_native_fast_gpu_chec.Orchestrator.Calls.{Kube, Op, Reply, now, list_children, update_status}
use k8s_native_fast_gpu_chec.Orchestrator.Naming.{child_name}
use k8s_native_fast_gpu_chec.Orchestrator.Pods.{Workload}
use k8s_native_fast_gpu_chec.Orchestrator.Children.{owned_by_label}

-- `byName[name]`: of two children with one name the later one stays in the map.
unfoldable pub by_name : String → List GpuCheckpoint → Option GpuCheckpoint
by_name name [] = none
by_name name (c ∷ cs) = elim (by_name name cs) [
  | some later ↦ some later
  | none ↦ if c.meta.name == name then some c else none
]

-- The counters and the targets of the loop; the counters are int32 bit patterns.
pub record Tally : Type 0 where
  pub total : ℕ
  pub active : ℕ
  pub done : ℕ
  pub failed : ℕ
  pub targets : List TargetStatus

abbrev pub no_tally : Tally
no_tally = record { total = 0; active = 0; done = 0; failed = 0; targets = [] }

-- `ts`, for a Pod and its child if there is one.
unfoldable pub target_status : Pod → String → Option GpuCheckpoint → TargetStatus
target_status pod child none = record {
  pod_name = pod.meta.name;
  node = pod.node_name;
  child_name = child;
  phase = "Pending";
  path = "";
  message = "";
}
target_status pod child (some c) = record {
  pod_name = pod.meta.name;
  node = pod.node_name;
  child_name = child;
  phase = c.status.phase;
  path = c.status.last_checkpoint_path;
  message = c.status.message;
}

-- Where a Pod is counted.
pub data Bin : Type 0 where
  in_active in_done in_failed : Bin

unfoldable pub bin_of : Option GpuCheckpoint → Bin
bin_of none = in_active
bin_of (some c) =
    if c.status.phase == phase_completed
    then in_done
    else if c.status.phase == phase_failed
    then in_failed
    else in_active

unfoldable pub count_bin : Bin → Tally → Tally
count_bin in_active t = record t { active = inc32 t.active }
count_bin in_done t = record t { done = inc32 t.done }
count_bin in_failed t = record t { failed = inc32 t.failed }

-- One round of the loop.
unfoldable pub tally_pod : Tally → Pod → String → Option GpuCheckpoint → Tally
unfolding count_bin
tally_pod t pod name child =
    let counted = count_bin (bin_of child) (record t { total = inc32 t.total }) in
    record counted { targets = t.targets ++ (target_status pod name child ∷ []) }

module _ (sha1_hex : String → String) (parent : String) (children : List GpuCheckpoint) where
  -- The child of a Pod in the map.
  unfoldable pub child_of : Pod → Option GpuCheckpoint
  child_of pod = by_name (child_name sha1_hex parent pod.meta.name) children

  -- The loop over the Pods.
  unfoldable pub tally_pods : Tally → List Pod → Tally
  tally_pods t [] = t
  tally_pods t (pod ∷ pods) =
      tally_pods (tally_pod t pod (child_name sha1_hex parent pod.meta.name) (child_of pod)) pods

-- The cases of the last `switch`.
pub data Verdict : Type 0 where
  all_done some_failed all_failed in_progress : Verdict

unfoldable pub verdict : Tally → Verdict
verdict t =
    if nat_eq t.done t.total
    then all_done
    else if nat_eq (add32 t.done t.failed) t.total && (is_pos32 t.failed && is_pos32 t.done)
    then some_failed
    else if nat_eq (add32 t.done t.failed) t.total && nat_eq t.done 0
    then all_failed
    else in_progress

-- The counters and targets in the parent's status.
unfoldable pub with_tally : WorkloadCheckpointStatus → Tally → WorkloadCheckpointStatus
with_tally s t = record s {
  total = t.total;
  active = t.active;
  completed = t.done;
  failed = t.failed;
  targets = t.targets;
}

-- `if CompletionTime == nil { CompletionTime = now }`
abbrev pub set_once : Option Time → Time → Option Time
set_once none at = some at
set_once (some t) at = some t

-- The phase, message and completion time of the last `switch`, at the time that it reads.
unfoldable pub with_verdict :
    WorkloadCheckpointStatus → Tally → Verdict → Time → WorkloadCheckpointStatus
with_verdict s t all_done at = record s {
  phase = wc_completed;
  message = "all replicas checkpointed";
  completion_time = set_once s.completion_time at;
}
with_verdict s t some_failed at = record s {
  phase = wc_partially_failed;
  message = print_i32 t.failed <> "/" <> print_i32 t.total <> " replicas failed";
}
with_verdict s t all_failed at = record s { phase = wc_failed; message = "all replicas failed" }
with_verdict s t in_progress at = record s { phase = wc_in_progress }

-- Whether the last `switch` reads the clock.
unfoldable pub reads_clock : Option Time → Verdict → Bool
reads_clock none all_done = true
reads_clock completion v = false

-- The status that `aggregate` writes, at the time that it reads if it needs one.
unfoldable pub aggregate_status :
    (String → String)
    → String
    → WorkloadCheckpointStatus
    → List GpuCheckpoint
    → List Pod
    → Time
    → WorkloadCheckpointStatus
unfolding with_verdict with_tally
aggregate_status sha1_hex parent s children pods at =
    let t = tally_pods sha1_hex parent children no_tally pods in
    with_verdict (with_tally s t) t (verdict t) at

module _ (K : Kube) (H : Handler (Op K) (Reply K)) where
  -- A time that is read only where it is needed, and then not looked at elsewhere.
  unfoldable pub now_if : Bool → World H → Time × World H
  now_if needed w = if needed then perform H now w else (0, w)

  -- `aggregate`
  unfoldable pub aggregate : Workload K → List Pod → World H → ApiResult (Workload K) × World H
  aggregate wc pods w =
      let labels = (owned_by_label, wc.meta.name) ∷ [] in
      let (answer, w₁) = perform H (list_children wc.meta.namespace labels) w in
      elim answer [
        | failed e ↦ (failed e, w₁)
        | found children ↦
            let t = tally_pods K.sha1_hex wc.meta.name children no_tally pods in
            let (at, w₂) = now_if (reads_clock wc.status.completion_time (verdict t)) w₁ in
            perform H
              (update_status (record wc {
                status = aggregate_status K.sha1_hex wc.meta.name wc.status children pods at;
              }))
              w₂
      ]
