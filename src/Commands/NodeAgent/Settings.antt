-- ===== src/Commands/NodeAgent/Settings.antt =====
-- The settings of the node agent as functions of the environment, for an environment that does not
-- change while the program starts.
use k8s_native_fast_gpu_chec.Prelude.{
  ℤ, String, Bool, false, ◌≡◌, refl, not, ◌&&◌, ◌==◌, if◌then◌else◌, arith,
}
use k8s_native_fast_gpu_chec.Effect.{Handler, World, perform}
use k8s_native_fast_gpu_chec.Text.Trim.{is_empty}
use k8s_native_fast_gpu_chec.Agent.Calls.{Op, Reply, NodeFlags, getenv}
use k8s_native_fast_gpu_chec.Agent.Libs.{Libs}
use k8s_native_fast_gpu_chec.Agent.Storage.{Checkpointer}
use k8s_native_fast_gpu_chec.Commands.NodeAgent.Environment.{
  env_or, dur_or, default_flags, default_timeout, parsed_or, configure,
}

-- The variables have the values `env`.
abbrev pub HasEnv : Handler Op Reply → (String → String) → Type 0
HasEnv H env = (key : String) (s : H.State) → (H.handle (getenv key) s).0 ≡ env key

abbrev pub or_default : String → String → String
or_default v def = if is_empty v then def else v

abbrev pub flags_of : Libs → (String → String) → NodeFlags
flags_of L env = record {
  metrics_addr = ":8080";
  probe_addr = ":8081";
  kubelet_url = or_default (env "KUBELET_URL") "https://127.0.0.1:10250";
  kubelet_ca = or_default (env "KUBELET_CA") "";
  kubelet_insec = or_default (env "KUBELET_INSECURE") "true" == "true";
  dist_dir = or_default (env "INTERCEPTOR_DIST_DIR") "/opt/gpu-cr-dist";
  host_lib_dir = or_default (env "HOST_LIB_DIR") "/host/gpu-cr/lib";
  host_run_dir = or_default (env "HOST_RUN_DIR") "/host/gpu-cr/run";
  dry_run = or_default (env "DRY_RUN") "false" == "true";
  kubelet_timeout =
      if is_empty (env "KUBELET_TIMEOUT")
      then default_timeout
      else parsed_or default_timeout (L.parse_duration (env "KUBELET_TIMEOUT"));
}

-- The assignments, for what the three variables say.
assigned :
    (cp : Checkpointer) (no_interception : Bool) (data_dir : String) (no_blob : Bool)
    → let cp₁ = if no_interception then record cp { gcr_interception = false } else cp in
      let dir = or_default data_dir "" in
      let cp₂ = if is_empty dir then cp₁ else record cp₁ { data_dir = dir } in
      (if no_blob then record cp₂ { persist_blob = false } else cp₂) ≡ record cp {
        gcr_interception = not no_interception && cp.gcr_interception;
        data_dir = or_default data_dir cp.data_dir;
        persist_blob = not no_blob && cp.persist_blob;
      }
assigned cp i d b = ground arith

module _ (L : Libs) (H : Handler Op Reply) (env : String → String) (has_env : HasEnv H env) where
  getenv-HasEnv : (key : String) (w : World H) → (perform H (getenv key) w).0 ≡ env key
  unfolding perform
  getenv-HasEnv key w = has_env key w.state

  env_or-HasEnv :
      (key def : String) (w : World H) → (env_or H key def w).0 ≡ or_default (env key) def
  unfolding env_or
  env_or-HasEnv key def w = rw (getenv-HasEnv key w) refl

  dur_or-HasEnv :
      (key : String) (def : ℤ) (w : World H)
      → (dur_or L H key def w).0
        ≡ (if is_empty (env key) then def else parsed_or def (L.parse_duration (env key)))
  unfolding dur_or
  dur_or-HasEnv key def w = rw (getenv-HasEnv key w) refl

  pub default_flags-HasEnv : (w : World H) → (default_flags L H w).0 ≡ flags_of L env
  unfolding default_flags
  default_flags-HasEnv w =
      rw
        (
          env_or-HasEnv "KUBELET_URL" "https://127.0.0.1:10250" _,
          env_or-HasEnv "KUBELET_CA" "" _,
          env_or-HasEnv "KUBELET_INSECURE" "true" _,
          env_or-HasEnv "INTERCEPTOR_DIST_DIR" "/opt/gpu-cr-dist" _,
          env_or-HasEnv "HOST_LIB_DIR" "/host/gpu-cr/lib" _,
          env_or-HasEnv "HOST_RUN_DIR" "/host/gpu-cr/run" _,
          env_or-HasEnv "DRY_RUN" "false" _,
          dur_or-HasEnv "KUBELET_TIMEOUT" default_timeout _,
        )
        refl

  pub configure-HasEnv :
      (cp : Checkpointer) (w : World H)
      → (configure H cp w).0 ≡ record cp {
        gcr_interception = not (env "GCR_INTERCEPTION" == "false") && cp.gcr_interception;
        data_dir = or_default (env "GCR_HOST_DATA_DIR") cp.data_dir;
        persist_blob = not (env "GCR_PERSIST_BLOB" == "false") && cp.persist_blob;
      }
  unfolding configure
  configure-HasEnv cp w =
      rw
        (
          getenv-HasEnv "GCR_INTERCEPTION" _,
          env_or-HasEnv "GCR_HOST_DATA_DIR" "" _,
          getenv-HasEnv "GCR_PERSIST_BLOB" _,
        )
        (assigned cp (env "GCR_INTERCEPTION" == "false") (env "GCR_HOST_DATA_DIR")
          (env "GCR_PERSIST_BLOB" == "false"))
