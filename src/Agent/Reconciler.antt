-- ===== src/Agent/Reconciler.antt =====
-- internal/agent/reconciler.go: one call of `Reconcile` as a program over the agent's calls.
pub mod Deciding
pub mod Owning
pub mod Keeping
pub mod OneShot
use k8s_native_fast_gpu_chec.Prelude.{
  ℕ, ℤ, pos, negsuc, String, ◌<>◌, Bool, true, false, not, ◌||◌, Option, none, some, List, [], ◌∷◌,
  Result, ok, err, ltb, leb, sub_ℕ, inc64, ◌==◌, if◌then◌else◌,
}
use k8s_native_fast_gpu_chec.Effect.{Handler, World, perform, M, pure, ◌>>=◌, ◌>>◌}
use k8s_native_fast_gpu_chec.Api.{
  Time, GpuCheckpoint, Pod, Container, ApiError, not_found, ApiResult, found, failed,
  phase_checkpointing, phase_completed, phase_failed,
}
use k8s_native_fast_gpu_chec.Text.Trim.{is_empty}
use k8s_native_fast_gpu_chec.Agent.Calls.{Op, Reply, now, get_checkpoint, get_pod, update_status}
use k8s_native_fast_gpu_chec.Agent.Libs.{Libs}
use k8s_native_fast_gpu_chec.Agent.Schedule.{next_run, is_one_shot, zero_time}
use k8s_native_fast_gpu_chec.Agent.Checkpointer.{Artifact, checkpoint}
use k8s_native_fast_gpu_chec.Agent.Storage.{Checkpointer, Target}
use k8s_native_fast_gpu_chec.Agent.Conditions.{cond_true, cond_false, set_condition}

pub record Reconciler : Type 0 where
  pub node_name : String
  pub checkpointer : Checkpointer

-- `(ctrl.Result, error)`, by `RequeueAfter` and the error.
pub record Outcome : Type 0 where
  pub requeue_after : ℤ
  pub error : Option ApiError

abbrev pub stop : Outcome
stop = record { requeue_after = pos 0; error = none }

abbrev pub requeue : ℤ → Outcome
requeue d = record { requeue_after = d; error = none }

abbrev pub give_up : ApiError → Outcome
give_up e = record { requeue_after = pos 0; error = some e }

-- `client.IgnoreNotFound`
unfoldable pub ignore_not_found : ApiError → Option ApiError
ignore_not_found (not_found t) = none
ignore_not_found e = some e

-- `30 * time.Second`
abbrev pub retry_delay : ℕ
retry_delay = 30000000000

-- The largest `time.Duration`.
abbrev pub max_duration : ℕ
max_duration = 9223372036854775807

-- `t.Sub(u)` saturates.
unfoldable pub time_sub : Time → Time → ℤ
time_sub t u = elim (sub_ℕ t u) [
  | pos n ↦ pos (if leb n max_duration then n else max_duration)
  | negsuc n ↦ negsuc (if leb n max_duration then n else max_duration)
]

abbrev pub first_container : List Container → String
first_container [] = ""
first_container (c ∷ cs) = c.name

-- `targetNode`
unfoldable pub target_node : GpuCheckpoint → Pod → String
target_node cr pod =
    let node = cr.spec.workload_ref.node_info in if is_empty node then pod.node_name else node

-- `container`
unfoldable pub target_container : GpuCheckpoint → Pod → String
target_container cr pod =
    let name = cr.spec.workload_ref.container in
    if is_empty name then first_container pod.containers else name

-- The `Target` of a checkpoint.
unfoldable pub make_target : GpuCheckpoint → Pod → String → Target
make_target cr pod container = record {
  namespace = cr.spec.workload_ref.namespace;
  pod = cr.spec.workload_ref.name;
  pod_uid = pod.uid;
  container = container;
  storage = cr.spec.storage;
}

-- What the schedule says at the time `at`; `at'` is the time that `IsOneShot` read.
pub data Due : Type 0 where
  due : Bool → Due
  taken : Due
  later : Time → Due
  invalid : String → Due

-- After the first checkpoint, by the next time that follows from it.
unfoldable pub due_after : Result (Time × Bool) → Time → Due
due_after (err t) at = invalid t
due_after (ok (next, _)) at = if ltb at next then later next else due true

unfoldable pub when_due : Libs → String → Option Time → Time → Bool → Due
unfolding due_after
when_due L schedule none at recurring = due recurring
when_due L schedule (some last) at false = taken
when_due L schedule (some last) at true = due_after (next_run L schedule last) at

-- The schedule part of `Reconcile`: validation, `recurring` and the decision.
unfoldable pub decide : Libs → String → Option Time → Time → Time → Due
unfolding when_due
decide L schedule last at at' = elim (next_run L schedule at) [
  | err t ↦ invalid t
  | ok _ ↦ when_due L schedule last at (not (is_one_shot L schedule at'))
]

abbrev pub is_valid : Result (Time × Bool) → Bool
is_valid (err t) = false
is_valid (ok next) = true

-- `_ = r.Status().Update(ctx, &cr)`: on success the object is what the server answered.
abbrev pub updated : GpuCheckpoint → ApiResult GpuCheckpoint → GpuCheckpoint
updated cr (found cr') = cr'
updated cr (failed e) = cr

-- The status before a checkpoint.
unfoldable pub mark_started : GpuCheckpoint → String → GpuCheckpoint
mark_started cr node = record cr {
  status = record (cr.status) { phase = phase_checkpointing; observed_node = node };
}

-- The status after a checkpoint.
unfoldable pub mark_done : GpuCheckpoint → Artifact → Time → GpuCheckpoint
mark_done cr res at = record cr {
  status =
      set_condition at
        (record (cr.status) {
          phase = phase_completed;
          last_checkpoint_time = some res.taken_at;
          last_checkpoint_path = res.archive_path;
          checkpoint_count = inc64 cr.status.checkpoint_count;
          message = "checkpoint stored successfully";
        })
        "Ready" cond_true "CheckpointStored" res.archive_path;
}

-- The status that `fail` writes.
unfoldable pub mark_failed : GpuCheckpoint → String → Time → GpuCheckpoint
mark_failed cr msg at = record cr {
  status =
      set_condition at (record (cr.status) { phase = phase_failed; message = msg }) "Ready"
        cond_false "CheckpointFailed" msg;
}

module _ (L : Libs) (H : Handler Op Reply) (r : Reconciler) where
  -- `fail`
  unfoldable pub fail : GpuCheckpoint → String → M (World H) Outcome
  fail cr msg = do
    at ← perform H now
    perform H (update_status (mark_failed cr msg at))
    pure (requeue (pos retry_delay))

  -- The end of `Reconcile` after a recorded success.
  unfoldable pub schedule_next : GpuCheckpoint → Bool → M (World H) Outcome
  schedule_next cr recurring w =
      let (at, w₁) = perform H now w in
      let (at', w₂) = perform H now w₁ in
      let next : Time = elim (next_run L cr.spec.schedule at) [
        | err t ↦ zero_time
        | ok (t, _) ↦ t
      ] in
      if recurring then (requeue (time_sub next at'), w₂) else (stop, w)

  -- The success path of `Reconcile`.
  unfoldable pub record_success : GpuCheckpoint → Bool → Artifact → M (World H) Outcome
  record_success cr recurring res = do
    at ← perform H now
    answer ← perform H (update_status (mark_done cr res at))
    elim answer [ failed e ↦ pure (give_up e) | found cr' ↦ schedule_next cr' recurring ]

  -- From the mark in the status to the end of `Reconcile`.
  unfoldable pub take_checkpoint : GpuCheckpoint → Pod → String → Bool → M (World H) Outcome
  take_checkpoint cr₀ pod container recurring = do
    let marked = mark_started cr₀ (target_node cr₀ pod)
    answer ← perform H (update_status marked)
    let cr = updated marked answer
    res ← checkpoint L H r.checkpointer (make_target cr pod container)
    elim res [
      | err t ↦ fail cr ("checkpoint failed: " <> t)
      | ok artifact ↦ record_success cr recurring artifact
    ]

  -- What `Reconcile` does with the decision.
  unfoldable pub follow : GpuCheckpoint → Pod → Due → M (World H) Outcome
  follow cr pod (invalid t) = fail cr ("invalid schedule: " <> t)
  follow cr pod taken = pure stop
  follow cr pod (later next) = do at ← perform H now; pure (requeue (time_sub next at))
  follow cr pod (due recurring) = take_checkpoint cr pod (target_container cr pod) recurring

  -- `IsOneShot` reads the clock, and is only called for a schedule that is valid.
  unfoldable pub read_if : Bool → Time → M (World H) Time
  read_if valid at w = if valid then perform H now w else (at, w)

  -- `Reconcile` once the Pod is known.
  unfoldable pub reconcile_pod : GpuCheckpoint → Pod → M (World H) Outcome
  reconcile_pod cr pod =
      if target_node cr pod == r.node_name
      then (do
        at ← perform H now
        at' ← read_if (is_valid (next_run L cr.spec.schedule at)) at
        follow cr pod (decide L cr.spec.schedule cr.status.last_checkpoint_time at at'))
      else pure stop

  unfoldable pub reconcile_answer : GpuCheckpoint → ApiResult Pod → M (World H) Outcome
  reconcile_answer cr (failed (not_found t)) = fail cr "target Pod not found"
  reconcile_answer cr (failed e) = pure (give_up e)
  reconcile_answer cr (found pod) = reconcile_pod cr pod

  abbrev pub is_pod_kind : String → Bool
  is_pod_kind kind = is_empty kind || kind == "Pod"

  -- `Reconcile` once the resource is read.
  unfoldable pub reconcile_found : GpuCheckpoint → M (World H) Outcome
  reconcile_found cr =
      let ref = cr.spec.workload_ref in
      if is_pod_kind ref.kind
      then (do answer ← perform H (get_pod ref.namespace ref.name); reconcile_answer cr answer)
      else fail cr ("workloadRef.kind " <> ref.kind <> " not supported yet (only Pod)")

  -- `Reconcile`
  unfoldable pub reconcile : String → String → M (World H) Outcome
  reconcile namespace name = do
    answer ← perform H (get_checkpoint namespace name)
    elim answer [
      | failed e ↦ pure (record { requeue_after = pos 0; error = ignore_not_found e })
      | found cr ↦ reconcile_found cr
    ]
