-- ===== src/Tests/ReconcilerRuns.antt =====
-- The theorems on the agent's reconciler, schedule and conditions, applied.
use k8s_native_fast_gpu_chec.Prelude.{◌+◌, ◌<◌, ◌≡◌, refl, ◌↔◌, ◌⊎◌, inl, true, false, some, arith}
use k8s_native_fast_gpu_chec.Api.{Condition}
use k8s_native_fast_gpu_chec.Text.Trim.{trim_space, fields}
use k8s_native_fast_gpu_chec.Agent.Schedule.{looks_like_cron, zero_time, next_run, is_one_shot}
use k8s_native_fast_gpu_chec.Agent.Schedule.Times.{next_run-lt}
use k8s_native_fast_gpu_chec.Agent.Checkpointer.{Artifact}
use k8s_native_fast_gpu_chec.Agent.Reconciler.Keeping.{reconcile-removes_copied}
use k8s_native_fast_gpu_chec.Agent.Checkpointer.Keeping.{removes_copied}
use k8s_native_fast_gpu_chec.Agent.Reconciler.{reconcile, due, decide}
use k8s_native_fast_gpu_chec.Agent.Reconciler.Deciding.{HasCome, decide_due_again_iff}
use k8s_native_fast_gpu_chec.Tests.AgentWorld.{hour, libs, node, agent_on, quick}

decide_due_again_iff_example :
    (decide libs "1h" (some 100) 4000000000000 4000000000000 ≡ due true) ↔ (
      (true ≡ true)
      × (is_one_shot libs "1h" 4000000000000 ≡ false)
      × HasCome (next_run libs "1h" 100) 4000000000000)
decide_due_again_iff_example = decide_due_again_iff libs "1h" 100 4000000000000 4000000000000 true

next_run-lt_example :
    (100 < 100 + hour) ⊎ ((looks_like_cron (trim_space "1h") ≡ true) × (100 + hour ≡ zero_time))
unfolding next_run trim_space looks_like_cron fields
next_run-lt_example = next_run-lt libs (λ c from. inl (omega arith)) "1h" 100 (100 + hour) refl

abbrev old_condition : Condition
old_condition = record {
  type = "Ready";
  status = "False";
  reason = "CheckpointFailed";
  message = "no kubelet";
  last_transition_time = 3;
}

abbrev stored : Artifact
stored = record {
  archive_path = "/mnt/ckpt/train/checkpoint-train-0_ml-main-864403200.tar";
  taken_at = 63000000000000000000;
}

reconcile-removes_copied_example :
    removes_copied (reconcile libs (node "0" 0 200) (agent_on "node-a") "ml" "ck" quick).1.trace
    ≡ true
reconcile-removes_copied_example =
    reconcile-removes_copied libs (node "0" 0 200) (agent_on "node-a") "ml" "ck" quick refl
