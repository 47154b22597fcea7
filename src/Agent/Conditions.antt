-- ===== src/Agent/Conditions.antt =====
-- `setCondition` of internal/agent/reconciler.go.
pub mod Keeping
use k8s_native_fast_gpu_chec.Prelude.{String, List, [], ◌∷◌, ◌==◌, if◌then◌else◌}
use k8s_native_fast_gpu_chec.Api.{Time, Condition, GpuCheckpointStatus}

abbrev pub cond_true : String
cond_true = "True"

abbrev pub cond_false : String
cond_false = "False"

-- The update of a condition that is there: the transition time moves if the status does.
unfoldable pub update_condition : Time → Condition → String → String → String → Condition
update_condition now old s reason msg = record {
  type = old.type;
  status = s;
  reason = reason;
  message = msg;
  last_transition_time = if old.status == s then old.last_transition_time else now;
}

-- The loop of `setCondition` over the conditions, and the append after it.
unfoldable pub put_condition :
    Time → List Condition → String → String → String → String → List Condition
unfolding update_condition
put_condition now [] type s reason msg =
    record { type = type; status = s; reason = reason; message = msg; last_transition_time = now }
    ∷ []
put_condition now (c ∷ cs) type s reason msg =
    if c.type == type
    then update_condition now c s reason msg ∷ cs
    else c ∷ put_condition now cs type s reason msg

-- `setCondition`, at the time that it reads from the clock.
unfoldable pub set_condition :
    Time → GpuCheckpointStatus → String → String → String → String → GpuCheckpointStatus
unfolding put_condition
set_condition now status type s reason msg = record status {
  conditions = put_condition now status.conditions type s reason msg;
}
