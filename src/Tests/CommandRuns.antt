-- ===== src/Tests/CommandRuns.antt =====
-- The two commands, run in small worlds.
use k8s_native_fast_gpu_chec.Prelude.{
  ℕ, pos, String, true, ◌≡◌, refl, ◌⊎◌, none, [], ok, err, Error,
}
use k8s_native_fast_gpu_chec.Effect.{Handler, World, perform}
use k8s_native_fast_gpu_chec.Effect.Fallible.{as_result, same}
use k8s_native_fast_gpu_chec.Text.Trim.{trim_right, is_slash}
use k8s_native_fast_gpu_chec.Agent.Calls.{Op, Reply, getenv}
use k8s_native_fast_gpu_chec.Agent.Reconciler.{Reconciler}
use k8s_native_fast_gpu_chec.Agent.Interceptor.{install, install_listed, install_entries}
use k8s_native_fast_gpu_chec.Agent.Kubelet.{load_cas, new_kubelet_client}
use k8s_native_fast_gpu_chec.Agent.Checkpointer.{new_checkpointer}
use k8s_native_fast_gpu_chec.Commands.NodeAgent.{
  new_interceptor_manager, node_agent, run_as, prepare, serve, setup_with_manager,
}
use k8s_native_fast_gpu_chec.Commands.NodeAgent.Environment.{
  env_or, dur_or, default_flags, configure,
}
use k8s_native_fast_gpu_chec.Commands.NodeAgent.Settings.{flags_of}
use k8s_native_fast_gpu_chec.Commands.NodeAgent.Wiring.{IsWiredBy, node_agent-IsWiredBy}
use k8s_native_fast_gpu_chec.Commands.Orchestrator.{
  Flags, CommandCall, CommandReply, parse_flags, manager, orchestrator,
}
use k8s_native_fast_gpu_chec.Commands.Orchestrator.Starting.{
  starts, start_events, orchestrator-starts,
}
use k8s_native_fast_gpu_chec.Tests.AgentWorld.{libs, node, start, variable, answer}

-- What runs on a node with a name and with `DRY_RUN`.
abbrev wired : Reconciler
wired = record {
  node_name = "node-a";
  checkpointer = record {
    interceptor = record {
      dist_dir = "/opt/gpu-cr-dist";
      host_lib_dir = "/host/gpu-cr/lib";
      host_run_dir = "/host/gpu-cr/run";
    };
    kubelet = record {
      base_url = "https://127.0.0.1:10250";
      token = "0";
      insecure_skip_verify = true;
      root_cas = none;
      timeout = pos 1800000000000;
    };
    gcr_interception = true;
    data_dir = "/var/lib/gcr-data";
    persist_blob = true;
    dry_run = true;
  };
}

runs : (node_agent libs (node "0" 0 200) (start "0" 0 200)).0 ≡ ok wired
unfolding node_agent run_as prepare serve setup_with_manager env_or dur_or default_flags configure
    perform install install_listed install_entries load_cas new_kubelet_client new_checkpointer
    new_interceptor_manager trim_right is_slash
runs = refl

node_agent-IsWiredBy_example :
    IsWiredBy libs variable (flags_of libs variable) (ok "0") (ok "0") wired
node_agent-IsWiredBy_example =
    node_agent-IsWiredBy libs (node "0" 0 200) variable (λ key s. refl) (λ d. d) (λ d s. refl)
      (ok "0") (ok "0") (λ s. refl) (start "0" 0 200) wired (λ s. refl) runs

-- A node whose environment is empty.
abbrev bare_answer : (o : Op) → ℕ → Reply o
bare_answer (getenv key) clock = ""
bare_answer o clock = answer "0" 0 200 o clock

abbrev bare : Handler Op Reply
bare = record { State = ℕ; handle = λ o clock. (bare_answer o clock, clock) }

abbrev bare_start : World bare
bare_start = record { state = 7; trace = [] }

-- A cluster in which every call of the orchestrator's command succeeds.
abbrev cluster_answer : (o : CommandCall) → CommandReply o
cluster_answer (parse_flags defaults) = ok defaults
cluster_answer (manager c) = none

abbrev cluster : Handler CommandCall CommandReply
cluster = record { State = ℕ; handle = λ o s. (cluster_answer o, s) }

abbrev cluster_start : World cluster
cluster_start = record { state = 0; trace = [] }

orchestrator-starts_example :
    ((t : String) × ((orchestrator cluster cluster_start).0 ≡ err t)
      × (starts (orchestrator cluster cluster_start).1.trace ≡ starts cluster_start.trace))
    ⊎ ((flags : Flags) × (health : Error) × (ready : Error) × (ended : Error) × ((orchestrator
            cluster cluster_start).0
          ≡ as_result same ended)
        × ((orchestrator cluster cluster_start).1.trace
            ≡ start_events flags health ready ended cluster_start.trace))
orchestrator-starts_example = orchestrator-starts cluster cluster_start
