-- ===== src/Commands/NodeAgent/Environment.antt =====
-- The environment variables of cmd/node-agent/main.go: `envOr`, `durOr`, the defaults of the flags and
-- the switches of the checkpointer.
use k8s_native_fast_gpu_chec.Prelude.{ℤ, pos, String, false, Result, ok, err, ◌==◌, if◌then◌else◌}
use k8s_native_fast_gpu_chec.Effect.{Handler, World, perform, M, pure, ◌>>=◌}
use k8s_native_fast_gpu_chec.Text.Trim.{is_empty}
use k8s_native_fast_gpu_chec.Agent.Calls.{Op, Reply, NodeFlags, getenv}
use k8s_native_fast_gpu_chec.Agent.Libs.{Libs}
use k8s_native_fast_gpu_chec.Agent.Storage.{Checkpointer}

-- `30 * time.Minute`
abbrev pub default_timeout : ℤ
default_timeout = pos 1800000000000

abbrev pub parsed_or : ℤ → Result ℤ → ℤ
parsed_or def (ok d) = d
parsed_or def (err e) = def

module _ (H : Handler Op Reply) where
  -- `envOr`
  unfoldable pub env_or : String → String → M (World H) String
  env_or key def = do v ← perform H (getenv key); pure (if is_empty v then def else v)

  -- The three assignments to the fields of the checkpointer.
  unfoldable pub configure : Checkpointer → M (World H) Checkpointer
  configure cp = do
    interception ← perform H (getenv "GCR_INTERCEPTION")
    let cp₁ = if interception == "false" then record cp { gcr_interception = false } else cp
    data_dir ← env_or "GCR_HOST_DATA_DIR" ""
    let cp₂ = if is_empty data_dir then cp₁ else record cp₁ { data_dir = data_dir }
    persist_blob ← perform H (getenv "GCR_PERSIST_BLOB")
    pure (if persist_blob == "false" then record cp₂ { persist_blob = false } else cp₂)

module _ (L : Libs) (H : Handler Op Reply) where
  -- `durOr`
  unfoldable pub dur_or : String → ℤ → M (World H) ℤ
  dur_or key def = do
    v ← perform H (getenv key)
    pure (if is_empty v then def else parsed_or def (L.parse_duration v))

  -- The flags as `main` declares them.
  unfoldable pub default_flags : M (World H) NodeFlags
  default_flags = do
    kubelet_url ← env_or H "KUBELET_URL" "https://127.0.0.1:10250"
    kubelet_ca ← env_or H "KUBELET_CA" ""
    kubelet_insec ← env_or H "KUBELET_INSECURE" "true"
    dist_dir ← env_or H "INTERCEPTOR_DIST_DIR" "/opt/gpu-cr-dist"
    host_lib_dir ← env_or H "HOST_LIB_DIR" "/host/gpu-cr/lib"
    host_run_dir ← env_or H "HOST_RUN_DIR" "/host/gpu-cr/run"
    dry_run ← env_or H "DRY_RUN" "false"
    kubelet_timeout ← dur_or "KUBELET_TIMEOUT" default_timeout
    pure (record {
      metrics_addr = ":8080";
      probe_addr = ":8081";
      kubelet_url = kubelet_url;
      kubelet_ca = kubelet_ca;
      kubelet_insec = kubelet_insec == "true";
      dist_dir = dist_dir;
      host_lib_dir = host_lib_dir;
      host_run_dir = host_run_dir;
      dry_run = dry_run == "true";
      kubelet_timeout = kubelet_timeout;
    })
