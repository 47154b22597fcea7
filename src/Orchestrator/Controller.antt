-- ===== src/Orchestrator/Controller.antt =====
-- `Reconcile`, `applyBarrier` and `finish` of the orchestrator.
pub mod Capping
use k8s_native_fast_gpu_chec.Prelude.{
  ℕ, String, ◌<>◌, Bool, true, false, ◌&&◌, ◌||◌, Option, none, some, List, [], ◌∷◌, is_pos32, ◌==◌,
  if◌then◌else◌,
}
use k8s_native_fast_gpu_chec.Effect.{Handler, World, perform, M, pure, ◌>>=◌}
use k8s_native_fast_gpu_chec.Api.{
  Time, Pod, ApiError, not_found, api_text, ApiResult, found, failed,
}
use k8s_native_fast_gpu_chec.Api.Workload.{
  WorkloadCheckpointStatus, action_restore, coordination_barrier, wc_pending, wc_resolving,
  wc_failed, wc_completed,
}
use k8s_native_fast_gpu_chec.Text.Trim.{is_empty}
use k8s_native_fast_gpu_chec.Orchestrator.Calls.{Kube, Op, Reply, get_workload, update_status}
use k8s_native_fast_gpu_chec.Orchestrator.Pods.{Workload, workload_kind, resolve_pods}
use k8s_native_fast_gpu_chec.Orchestrator.Children.{fan_out}
use k8s_native_fast_gpu_chec.Orchestrator.Aggregate.{aggregate, set_once, now_if}

-- `(ctrl.Result, error)`, by `RequeueAfter` in nanoseconds and the error.
pub record Outcome : Type 0 where
  pub requeue_after : ℕ
  pub error : Option ApiError

abbrev pub stop : Outcome
stop = record { requeue_after = 0; error = none }

abbrev pub requeue : ℕ → Outcome
requeue d = record { requeue_after = d; error = none }

abbrev pub give_up : ApiError → Outcome
give_up e = record { requeue_after = 0; error = some e }

-- `30 * time.Second` and `15 * time.Second`.
abbrev pub resolve_interval : ℕ
resolve_interval = 30000000000

abbrev pub active_poll_interval : ℕ
active_poll_interval = 15000000000

abbrev pub get_error : ApiError → Outcome
get_error (not_found t) = stop
get_error e = give_up e

abbrev pub is_unset : Option Time → Bool
is_unset none = true
is_unset (some t) = false

-- Whether `finish` reads the clock.
abbrev pub finish_reads : WorkloadCheckpointStatus → String → Bool
finish_reads s phase = (phase == wc_failed || phase == wc_completed) && is_unset s.completion_time

-- `wc.Status.Phase == "" || wc.Status.Phase == WCPhasePending`
abbrev pub is_new : WorkloadCheckpointStatus → Bool
is_new s = is_empty s.phase || s.phase == wc_pending

-- The status that `finish` writes, at the time that it reads if it needs one.
unfoldable pub finished :
    WorkloadCheckpointStatus → String → String → Time → WorkloadCheckpointStatus
finished s phase msg at = record s {
  phase = phase;
  message = msg;
  completion_time =
      if phase == wc_failed || phase == wc_completed
      then set_once s.completion_time at
      else s.completion_time;
}

-- The status once Pods are resolved, at the time that is read if it is needed.
unfoldable pub resolving : WorkloadCheckpointStatus → Time → WorkloadCheckpointStatus
resolving s at =
    if is_new s then record s { phase = wc_resolving; start_time = set_once s.start_time at } else s

module _ (K : Kube) (H : Handler (Op K) (Reply K)) where
  -- `finish`
  unfoldable pub finish : Workload K → String → String → M (World H) Outcome
  finish wc phase msg = do
    at ← now_if K H (finish_reads wc.status phase)
    answer ← perform H (update_status (record wc { status = finished wc.status phase msg at }))
    elim answer [ failed e ↦ pure (give_up e) | found wc' ↦ pure stop ]

  -- `applyBarrier`, a placeholder that does nothing.
  unfoldable pub apply_barrier : Workload K → List Pod → M (World H) (Option ApiError)
  apply_barrier wc pods = pure none

  -- Step (5): when to come back.
  unfoldable pub next_poll : Workload K → Outcome
  next_poll wc =
      if is_empty wc.spec.schedule
      then (if is_pos32 wc.status.active then requeue active_poll_interval else stop)
      else requeue resolve_interval

  -- Steps (4) and (5).
  unfoldable pub conclude : Workload K → List Pod → M (World H) Outcome
  conclude wc pods = do
    answer ← aggregate K H wc pods
    elim answer [ failed e ↦ pure (give_up e) | found wc' ↦ pure (next_poll wc') ]

  -- Steps (3) to (5).
  unfoldable pub fan_out_and_conclude : Workload K → List Pod → M (World H) Outcome
  fan_out_and_conclude wc pods = do
    out ← fan_out K H wc pods 0 0
    elim out.error [ some e ↦ pure (give_up e) | none ↦ conclude wc pods ]

  -- Steps (2) to (5), for Pods that were resolved.
  unfoldable pub checkpoint_pods : Workload K → List Pod → M (World H) Outcome
  checkpoint_pods wc [] = finish wc wc_failed "no matching (GPU) Pods resolved from workloadRef"
  checkpoint_pods wc (pod ∷ pods) = do
    at ← now_if K H (is_new wc.status && is_unset wc.status.start_time)
    let started = record wc { status = resolving wc.status at }
    barrier ←
        if wc.spec.coordination == coordination_barrier
        then apply_barrier started (pod ∷ pods)
        else pure none
    elim barrier [ some e ↦ pure (give_up e) | none ↦ fan_out_and_conclude started (pod ∷ pods) ]

  unfoldable pub reconcile_resolved : Workload K → ApiResult (List Pod) → M (World H) Outcome
  reconcile_resolved wc (failed e) = finish wc wc_failed ("resolve workload: " <> api_text e)
  reconcile_resolved wc (found pods) =
      checkpoint_pods
        (record wc { status = record (wc.status) { observed_workload_kind = workload_kind K wc } })
        pods

  -- `Reconcile`, for a resource that was read.
  unfoldable pub reconcile_found : Workload K → M (World H) Outcome
  reconcile_found wc =
      if wc.spec.action == action_restore
      then finish wc wc_failed
          "Action=Restore is defined but the Node Agent restore path is not implemented yet"
      else (do answer ← resolve_pods K H wc; reconcile_resolved wc answer)

  -- `Reconcile`
  unfoldable pub reconcile : String → String → M (World H) Outcome
  reconcile namespace name = do
    answer ← perform H (get_workload namespace name)
    elim answer [ failed e ↦ pure (get_error e) | found wc ↦ reconcile_found wc ]
