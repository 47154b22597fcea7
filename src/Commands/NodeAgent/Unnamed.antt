-- ===== src/Commands/NodeAgent/Unnamed.antt =====
-- The node agent without `NODE_NAME`.
use k8s_native_fast_gpu_chec.Prelude.{ℕ, suc, String, true, ◌≡◌, refl, List, [], ◌∷◌, ok, err}
use k8s_native_fast_gpu_chec.Effect.{Handler, World, perform, Event}
use k8s_native_fast_gpu_chec.Text.Trim.{is_empty}
use k8s_native_fast_gpu_chec.Agent.Calls.{Op, Reply, NodeFlags, getenv, parse_flags}
use k8s_native_fast_gpu_chec.Agent.Libs.{Libs}
use k8s_native_fast_gpu_chec.Commands.NodeAgent.{no_node_name, node_agent, run_as}
use k8s_native_fast_gpu_chec.Commands.NodeAgent.Environment.{env_or, dur_or, default_flags}
use k8s_native_fast_gpu_chec.Commands.NodeAgent.Settings.{HasEnv}

-- How many calls there were but those that read the environment and the flags.
abbrev pub effects : List (Event Op Reply) → ℕ
effects [] = 0
effects ((getenv key, r) ∷ es) = effects es
effects ((parse_flags d, r) ∷ es) = effects es
effects (_ ∷ es) = suc (effects es)

module _ (L : Libs) (H : Handler Op Reply) (env : String → String) (has_env : HasEnv H env)
    (given : NodeFlags → NodeFlags)
    (parses : (d : NodeFlags) (s : H.State) → (H.handle (parse_flags d) s).0 ≡ ok (given d)) where
  default_flags-effects : (w : World H) → effects (default_flags L H w).1.trace ≡ effects w.trace
  unfolding default_flags env_or dur_or perform
  default_flags-effects w = refl

  -- Without `NODE_NAME` the node agent ends with a fatal error, and has done nothing on the node or in the
  -- cluster: it has only read its environment and its flags.
  pub node_agent-unnamed :
      is_empty (env "NODE_NAME") ≡ true
      → (w : World H)
      → ((node_agent L H w).0 ≡ err no_node_name)
        × (effects (node_agent L H w).1.trace ≡ effects w.trace)
  unfolding node_agent perform run_as
  node_agent-unnamed unnamed w =
      let w₁ = (default_flags L H w).1 in
      let p = parses (default_flags L H w).0 w₁.state in
      let n = has_env "NODE_NAME" (H.handle (parse_flags (default_flags L H w).0) w₁.state).1 in
      rw (p, n, unnamed) (refl, default_flags-effects w)
