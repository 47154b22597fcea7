-- ===== src/Tests/OneShotRuns.antt =====
-- A server that stores the status of a one-shot checkpoint, and two agents that reconcile it.
use k8s_native_fast_gpu_chec.Prelude.{◌≡◌, refl, sym, some, []}
use k8s_native_fast_gpu_chec.Effect.{Handler, World}
use k8s_native_fast_gpu_chec.Api.{GpuCheckpoint, found}
use k8s_native_fast_gpu_chec.Text.Trim.{trim_space}
use k8s_native_fast_gpu_chec.Agent.Calls.{Op, Reply, get_checkpoint, update_status}
use k8s_native_fast_gpu_chec.Agent.Schedule.{is_one_shot, next_run}
use k8s_native_fast_gpu_chec.Agent.Reconciler.{reconcile}
use k8s_native_fast_gpu_chec.Agent.Reconciler.OneShot.{
  IsTaken, IsHarmless, posts, Remembers, reconciles, others, Runs, rest, step, one_shot_not_again,
}
use k8s_native_fast_gpu_chec.Tests.AgentWorld.{libs, resource, answer, agent_on}

abbrev taken_once : GpuCheckpoint
taken_once = record resource {
  spec = record (resource.spec) { schedule = "" };
  status = record (resource.status) { last_checkpoint_time = some 5 };
}

abbrev server_answer : (o : Op) → GpuCheckpoint → Reply o
server_answer (get_checkpoint ns name) stored = found stored
server_answer (update_status cr) stored = found cr
server_answer o stored = answer "0" 0 200 o 7

abbrev server_step : Op → GpuCheckpoint → GpuCheckpoint
server_step (update_status cr) stored = cr
server_step o stored = stored

abbrev server : Handler Op Reply
server = record { State = GpuCheckpoint; handle = λ o s. (server_answer o s, server_step o s) }

found-inj : {A : Type 0} {a b : A} → found a ≡ found b → a ≡ b
found-inj e = cc

server_keeps :
    (o : Op) (s : GpuCheckpoint)
    → IsTaken libs s
    → IsHarmless libs o
    → IsTaken libs (server_step o s)
server_keeps (update_status cr) s h harmless = harmless
server_keeps o s h harmless = h

abbrev remembers : Remembers libs server "ml" "ck"
remembers = record {
  Holds = IsTaken libs;
  reads = λ s cr h e. rw (sym (found-inj e)) h;
  keeps = server_keeps;
}

taken_once-IsTaken : IsTaken libs taken_once
unfolding is_one_shot next_run trim_space
taken_once-IsTaken = (λ at. refl, (5, refl))

abbrev before : World server
before = record { state = taken_once; trace = [] }

-- The agent of the Pod's node reconciles, another process writes, and the agent of another node reconciles.
abbrev middle : World server
middle = record (reconcile libs server (agent_on "node-a") "ml" "ck" before).1 {
  state = taken_once;
}

abbrev after : World server
after = (reconcile libs server (agent_on "node-b") "ml" "ck" middle).1

history : Runs libs server "ml" "ck" remembers before after
history =
    step
      (step (step (rest before) (reconciles (agent_on "node-a") before))
        (others _ taken_once taken_once-IsTaken))
      (reconciles (agent_on "node-b") middle)

one_shot_not_again_example : (posts after.trace ≡ posts before.trace) × IsTaken libs after.state
one_shot_not_again_example =
    one_shot_not_again libs server "ml" "ck" remembers before after history taken_once-IsTaken
