-- ===== src/Commands/NodeAgent/Wiring.antt =====
-- What the node agent runs, by its environment and flags.
use k8s_native_fast_gpu_chec.Prelude.{
  String, Bool, true, false, ◌≡◌, refl, sym, ◌∙◌, ap, inl, inr, not, ◌&&◌, ◌==◌, Result, ok, err,
  Bool-cases,
}
use mathlib.Core.Path.{subst}
use k8s_native_fast_gpu_chec.Effect.{Handler, World, perform}
use k8s_native_fast_gpu_chec.Effect.Fallible.{rewrap, as_result}
use k8s_native_fast_gpu_chec.Text.Trim.{is_empty}
use k8s_native_fast_gpu_chec.Manager.{
  get_config, new_manager, add_healthz_check, add_readyz_check, start,
}
use k8s_native_fast_gpu_chec.Agent.Calls.{
  Op, Reply, NodeFlags, parse_flags, getenv, read_file, manager,
}
use k8s_native_fast_gpu_chec.Agent.Libs.{Libs}
use k8s_native_fast_gpu_chec.Agent.Interceptor.{install}
use k8s_native_fast_gpu_chec.Agent.Kubelet.{KubeletClient, new_kubelet_client}
use k8s_native_fast_gpu_chec.Agent.Checkpointer.{new_checkpointer}
use k8s_native_fast_gpu_chec.Agent.Reconciler.{Reconciler}
use k8s_native_fast_gpu_chec.Commands.NodeAgent.{
  token_path, manager_options, setup_with_manager, new_interceptor_manager, token_of, prepare,
  serve, run_as, node_agent,
}
use k8s_native_fast_gpu_chec.Commands.NodeAgent.Environment.{configure, default_flags}
use k8s_native_fast_gpu_chec.Commands.NodeAgent.Settings.{
  HasEnv, or_default, flags_of, default_flags-HasEnv, configure-HasEnv,
}
use k8s_native_fast_gpu_chec.Effect.Blocks.{continue-ok, ok-inj, err-ok, rewrap-ok}
use k8s_native_fast_gpu_chec.Commands.NodeAgent.Client.{
  IsClientOf, or_nothing, new_kubelet_client-IsClientOf,
}

-- The reconciler that the environment, the flags and the two files ask for.
pub record IsWiredBy (L : Libs) (env : String → String) (flags : NodeFlags)
    (token_file ca_file : Result String) (r : Reconciler) : Type 0 where
  pub node_name_is : r.node_name ≡ env "NODE_NAME"
  pub named : is_empty (env "NODE_NAME") ≡ false
  pub kubelet_is : IsClientOf L flags token_file ca_file r.checkpointer.kubelet
  pub checkpointer_is : r.checkpointer ≡ record {
    interceptor = record {
      dist_dir = flags.dist_dir;
      host_lib_dir = flags.host_lib_dir;
      host_run_dir = flags.host_run_dir;
    };
    kubelet = r.checkpointer.kubelet;
    gcr_interception = not (env "GCR_INTERCEPTION" == "false");
    data_dir = or_default (env "GCR_HOST_DATA_DIR") "/var/lib/gcr-data";
    persist_blob = not (env "GCR_PERSIST_BLOB" == "false");
    dry_run = flags.dry_run;
  }

token_of-or_nothing : (r : Result String) → token_of r ≡ or_nothing r
token_of-or_nothing (ok t) = refl
token_of-or_nothing (err e) = refl

and_true : (b : Bool) → (b && true) ≡ b
and_true true = refl
and_true false = refl

module _ (L : Libs) (H : Handler Op Reply) (env : String → String) (has_env : HasEnv H env)
    (given : NodeFlags → NodeFlags)
    (parses : (d : NodeFlags) (s : H.State) → (H.handle (parse_flags d) s).0 ≡ ok (given d))
    (token_file ca_file : Result String)
    (reads_token : (s : H.State)
      → (H.handle (read_file "/var/run/secrets/kubernetes.io/serviceaccount/token") s).0
        ≡ token_file) where
  prepare-ok :
      (flags : NodeFlags) (name : String) (w : World H) (r : Reconciler)
      → ((s : H.State) → (H.handle (read_file flags.kubelet_ca) s).0 ≡ ca_file)
      → (prepare L H flags name w).0 ≡ ok r
      → (k : KubeletClient) × IsClientOf L flags token_file ca_file k
        × (r ≡ record {
          node_name = name;
          checkpointer = record {
            interceptor = record {
              dist_dir = flags.dist_dir;
              host_lib_dir = flags.host_lib_dir;
              host_run_dir = flags.host_run_dir;
            };
            kubelet = k;
            gcr_interception = not (env "GCR_INTERCEPTION" == "false") && true;
            data_dir = or_default (env "GCR_HOST_DATA_DIR") "/var/lib/gcr-data";
            persist_blob = not (env "GCR_PERSIST_BLOB" == "false") && true;
            dry_run = flags.dry_run;
          };
        })
  unfolding prepare new_checkpointer new_interceptor_manager perform
  prepare-ok flags name w r reads h =
      let im = new_interceptor_manager flags.dist_dir flags.host_lib_dir flags.host_run_dir in
      let w₁ = (install H im w).1 in
      let (_, _, h₁) = continue-ok (rewrap _ (install H im w).0) _ w₁ h in
      let (token, w₂) = perform H (read_file token_path) w₁ in
      let (kr, w₃) =
        new_kubelet_client L H flags.kubelet_url (token_of token) flags.kubelet_ca
          flags.kubelet_insec flags.kubelet_timeout w₂ in
      let (k, made, h₃) = continue-ok (rewrap _ kr) _ w₃ h₁ in
      let (e₄, w₄) = perform H (manager get_config) w₃ in
      let (_, _, h₄) = continue-ok (as_result _ e₄) _ w₄ h₃ in
      let (e₅, w₅) = perform H (manager (new_manager (manager_options flags))) w₄ in
      let (_, _, h₅) = continue-ok (as_result _ e₅) _ w₅ h₄ in
      let (cp, w₆) = configure H (new_checkpointer im k flags.dry_run) w₅ in
      let (e₇, w₇) = setup_with_manager L H w₆ in
      let (_, _, h₇) = continue-ok (rewrap _ e₇) _ w₇ h₅ in
      (
        k,
        new_kubelet_client-IsClientOf L H flags token_file ca_file (token_of token) w₂ k
            (token_of-or_nothing token ∙ ap or_nothing (reads_token w₁.state)) reads
            (rewrap-ok _ kr made),
        sym (ok-inj h₇)
            ∙ ap (λ c. record { node_name = name; checkpointer = c })
                (configure-HasEnv L H env has_env (new_checkpointer im k flags.dry_run) w₅),
      )

  ready-IsWiredBy :
      (flags : NodeFlags) (name : String) (w : World H) (r : Reconciler)
      → ((s : H.State) → (H.handle (read_file flags.kubelet_ca) s).0 ≡ ca_file)
      → name ≡ env "NODE_NAME"
      → is_empty name ≡ false
      → (prepare L H flags name w).0 ≡ ok r
      → IsWiredBy L env flags token_file ca_file r
  ready-IsWiredBy flags name w r reads n named ready =
      let (k, client, e) = prepare-ok flags name w r reads ready in
      rw e (record {
        node_name_is = n;
        named = rw (sym n) named;
        kubelet_is = client;
        checkpointer_is =
            rw
              (
                and_true (not (env "GCR_INTERCEPTION" == "false")),
                and_true (not (env "GCR_PERSIST_BLOB" == "false")),
              )
              refl;
      })

  serve-ok : (r r' : Reconciler) (w : World H) → (serve L H r w).0 ≡ ok r' → r ≡ r'
  unfolding serve
  serve-ok r r' w h =
      let w₁ = (perform H (manager (add_healthz_check "healthz")) w).1 in
      let w₂ = (perform H (manager (add_readyz_check "readyz")) w₁).1 in
      let (e, w₃) = perform H (manager start) w₂ in
      let (_, _, ended) = continue-ok (as_result _ e) _ w₃ h in ok-inj ended

  run_as-ok :
      (flags : NodeFlags) (name : String) (w : World H) (r : Reconciler)
      → (run_as L H flags name w).0 ≡ ok r
      → (is_empty name ≡ false) × ((prepare L H flags name w).0 ≡ ok r)
  unfolding run_as
  run_as-ok flags name w r h = elim (Bool-cases (is_empty name)) [
    | inl unnamed ↦ absurd (err-ok (rw unnamed at h))
    | inr named ↦
        let (prepared, w₁) = prepare L H flags name w in
        let (r', ready, served) = continue-ok prepared _ w₁ (rw named at h) in
        (named, ready ∙ ap ok (serve-ok r' r w₁ served))
  ]

  parse_flags-given : (d : NodeFlags) (w : World H) → (perform H (parse_flags d) w).0 ≡ ok (given d)
  unfolding perform
  parse_flags-given d w = parses d w.state

  -- For an environment, a token file and a CA file that do not change, and where `given` is what the
  -- command line makes of the defaults of the flags: a node agent that ends with nil had a node name and
  -- ran the reconciler of that node whose paths, switches and kubelet client are those that the flags and
  -- the environment ask for. The client has the token of the service account, if it could be read, and
  -- checks the kubelet's certificate, by the certificates of the CA file if the flags name one, unless
  -- the flags tell it not to.
  pub node_agent-IsWiredBy :
      (w : World H) (r : Reconciler)
      → ((s : H.State) → (H.handle (read_file (given (flags_of L env)).kubelet_ca) s).0 ≡ ca_file)
      → (node_agent L H w).0 ≡ ok r
      → IsWiredBy L env (given (flags_of L env)) token_file ca_file r
  unfolding node_agent perform
  node_agent-IsWiredBy w r reads h =
      let (d, w₁) = default_flags L H w in
      let (parsed, w₂) = perform H (parse_flags d) w₁ in
      let (flags, got, h₂) = continue-ok (rewrap _ parsed) _ w₂ h in
      let (name, w₃) = perform H (getenv "NODE_NAME") w₂ in
      let (named, ready) = run_as-ok flags name w₃ r h₂ in
      let same_flags =
        ok-inj (sym (rewrap-ok _ parsed got) ∙ parse_flags-given d w₁)
        ∙ ap given (default_flags-HasEnv L H env has_env w) in
      rw (sym same_flags) (
        ready-IsWiredBy flags name w₃ r
          (subst (λ f. (s : H.State) → (H.handle (read_file f.kubelet_ca) s).0 ≡ ca_file)
            (sym same_flags) reads)
          (has_env "NODE_NAME" w₂.state) named ready)
