-- ===== src/Commands/NodeAgent.antt =====
-- `main` of cmd/node-agent/main.go. A fatal log line ends the program: it is an error with its text. The
-- value of a run that ends with nil is the reconciler that it ran. Loggers, the scheme and log lines are
-- left out.
pub mod Environment
pub mod Settings
pub mod Client
pub mod Wiring
pub mod Unnamed
use k8s_native_fast_gpu_chec.Prelude.{
  String, ◌<>◌, Bool, true, false, [], Result, ok, err, if◌then◌else◌,
}
use k8s_native_fast_gpu_chec.Effect.{Handler, World, perform}
use k8s_native_fast_gpu_chec.Effect.Fallible.{
  E, ◌>>=◌, ◌>>◌, check, attempt, lift, done, fail, same,
}
use k8s_native_fast_gpu_chec.Text.Trim.{is_empty}
use k8s_native_fast_gpu_chec.Manager.{
  ManagerOptions, ControllerSetup, get_config, new_manager, complete, add_healthz_check,
  add_readyz_check, start,
}
use k8s_native_fast_gpu_chec.Agent.Calls.{
  Op, Reply, NodeFlags, read_file, getenv, parse_flags, manager,
}
use k8s_native_fast_gpu_chec.Agent.Libs.{Libs}
use k8s_native_fast_gpu_chec.Agent.Interceptor.{InterceptorManager, install}
use k8s_native_fast_gpu_chec.Agent.Kubelet.{new_kubelet_client}
use k8s_native_fast_gpu_chec.Agent.Checkpointer.{new_checkpointer}
use k8s_native_fast_gpu_chec.Agent.Reconciler.{Reconciler}
use k8s_native_fast_gpu_chec.Commands.NodeAgent.Environment.{default_flags, configure}

abbrev pub token_path : String
token_path = "/var/run/secrets/kubernetes.io/serviceaccount/token"

-- `string(token)`, where a file that cannot be read gives no bytes.
abbrev pub token_of : Result String → String
token_of (ok t) = t
token_of (err e) = ""

abbrev pub manager_options : NodeFlags → ManagerOptions
manager_options flags = record {
  metrics_address = flags.metrics_addr;
  probe_address = flags.probe_addr;
  leader_election = false;
  leader_election_id = "";
}

-- `NewInterceptorManager`
unfoldable pub new_interceptor_manager : String → String → String → InterceptorManager
new_interceptor_manager dist_dir host_lib_dir host_run_dir = record {
  dist_dir = dist_dir;
  host_lib_dir = host_lib_dir;
  host_run_dir = host_run_dir;
}

-- What `SetupWithManager` tells the builder.
abbrev pub agent_controller : ControllerSetup
agent_controller = record { watches = "GPUCheckpoint"; owns = []; generation_changed = true }

abbrev pub no_node_name : String
no_node_name = "NODE_NAME env var is required (set via Downward API spec.nodeName)"

module _ (L : Libs) (H : Handler Op Reply) where
  -- `SetupWithManager` of internal/agent/reconciler.go.
  unfoldable pub setup_with_manager : E (World H) (Unit {0})
  setup_with_manager = check same (perform H (manager (complete agent_controller)))

  -- From the installation of the library to the registration of the reconciler.
  unfoldable pub prepare : NodeFlags → String → E (World H) Reconciler
  prepare flags node_name = do
    let im = new_interceptor_manager flags.dist_dir flags.host_lib_dir flags.host_run_dir
    attempt (λ t. "install interceptor library: " <> t) (install H im)
    token ← lift (perform H (read_file token_path))
    kc ←
        attempt (λ t. "kubelet client: " <> t)
          (new_kubelet_client L H flags.kubelet_url (token_of token) flags.kubelet_ca
            flags.kubelet_insec flags.kubelet_timeout)
    check same (perform H (manager get_config))
    check (λ t. "create manager: " <> t) (perform H (manager (new_manager (manager_options flags))))
    cp ← lift (configure H (new_checkpointer im kc flags.dry_run))
    attempt (λ t. "setup reconciler: " <> t) setup_with_manager
    done (record { node_name = node_name; checkpointer = cp })

  -- The health checks and `mgr.Start`.
  unfoldable pub serve : Reconciler → E (World H) Reconciler
  serve r = do
    _ ← lift (perform H (manager (add_healthz_check "healthz")))
    _ ← lift (perform H (manager (add_readyz_check "readyz")))
    check (λ t. "manager exited: " <> t) (perform H (manager start))
    done r

  -- What follows the test of `NODE_NAME`.
  unfoldable pub run_as : NodeFlags → String → E (World H) Reconciler
  run_as flags node_name =
      if is_empty node_name then fail no_node_name else (do r ← prepare flags node_name; serve r)

  -- `main`
  unfoldable pub node_agent : E (World H) Reconciler
  node_agent = do
    defaults ← lift (default_flags L H)
    flags ← attempt same (perform H (parse_flags defaults))
    node_name ← lift (perform H (getenv "NODE_NAME"))
    run_as flags node_name
