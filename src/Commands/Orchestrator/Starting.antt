-- ===== src/Commands/Orchestrator/Starting.antt =====
-- When the orchestrator's command starts its manager.
use k8s_native_fast_gpu_chec.Prelude.{
  ℕ, suc, String, true, false, ◌≡◌, refl, ◌⊎◌, inl, inr, none, List, [], ◌∷◌, Result, ok, err,
  Error, Option-cases,
}
use k8s_native_fast_gpu_chec.Effect.{Handler, World, perform, Event}
use k8s_native_fast_gpu_chec.Effect.Fallible.{as_result, same}
use k8s_native_fast_gpu_chec.Manager.{
  get_config, new_manager, complete, add_healthz_check, add_readyz_check, start,
}
use k8s_native_fast_gpu_chec.Commands.Orchestrator.{
  Flags, CommandCall, CommandReply, parse_flags, manager, default_flags, manager_options,
  workload_controller, setup_with_manager, orchestrator,
}

-- How often the manager was started.
abbrev pub starts : List (Event CommandCall CommandReply) → ℕ
starts [] = 0
starts ((manager start, e) ∷ es) = suc (starts es)
starts (_ ∷ es) = starts es

-- The events of a command that starts the manager, the last one first.
abbrev pub start_events :
    Flags
    → Error
    → Error
    → Error
    → List (Event CommandCall CommandReply)
    → List (Event CommandCall CommandReply)
start_events flags health ready ended es =
    (manager start, ended)
    ∷ (manager (add_readyz_check "readyz"), ready)
    ∷ (manager (add_healthz_check "healthz"), health)
    ∷ (
      manager (
          complete (record {
            watches = "WorkloadCheckpoint";
            owns = "GPUCheckpoint" ∷ [];
            generation_changed = false;
          })),
      none,
    )
    ∷ (
      manager (
          new_manager (record {
            metrics_address = flags.metrics_addr;
            probe_address = flags.probe_addr;
            leader_election = flags.leader_elect;
            leader_election_id = "workload-checkpoint.gpu-cr.io";
          })),
      none,
    )
    ∷ (manager get_config, none)
    ∷ (
      parse_flags (record { metrics_addr = ":8080"; probe_addr = ":8081"; leader_elect = true }),
      ok flags,
    )
    ∷ es

Result-cases : {A : Type 0} (r : Result A) → ((a : A) × (r ≡ ok a)) ⊎ ((t : String) × (r ≡ err t))
Result-cases (ok a) = inl (a, refl)
Result-cases (err t) = inr (t, refl)

module _ (H : Handler CommandCall CommandReply) where
  -- The orchestrator's command either ends with an error and never starts the manager, or it starts it
  -- once, as its last call: after the flags were read, the manager was made with the leader election that
  -- the flags ask for, and the WorkloadCheckpoint controller was registered, each of them without an
  -- error. Then its answer is that of the manager, and the answers of the health checks are ignored.
  pub orchestrator-starts :
      (w : World H)
      → ((t : String) × ((orchestrator H w).0 ≡ err t)
          × (starts (orchestrator H w).1.trace ≡ starts w.trace))
        ⊎ ((flags : Flags) × (health : Error) × (ready : Error) × (ended : Error) × ((orchestrator H
                w).0
              ≡ as_result same ended)
            × ((orchestrator H w).1.trace ≡ start_events flags health ready ended w.trace))
  unfolding orchestrator perform setup_with_manager
  orchestrator-starts w =
      let (parsed, s₁) = H.handle (parse_flags default_flags) w.state in
      let (config, s₂) = H.handle (manager get_config) s₁ in
      elim (Result-cases parsed) [
        | inr (t, e₁) ↦ rw e₁ (inl (t, refl, refl))
        | inl (flags, e₁) ↦ elim (Option-cases config) [
          | inr (t, e₂) ↦ rw (e₁, e₂) (inl (t, refl, refl))
          | inl e₂ ↦
              let (made, s₃) = H.handle (manager (new_manager (manager_options flags))) s₂ in
              let (wired, s₄) = H.handle (manager (complete workload_controller)) s₃ in
              elim (Option-cases made) [
                | inr (t, e₃) ↦ rw (e₁, e₂, e₃) (inl (t, refl, refl))
                | inl e₃ ↦ elim (Option-cases wired) [
                  | inr (t, e₄) ↦ rw (e₁, e₂, e₃, e₄) (inl (t, refl, refl))
                  | inl e₄ ↦ rw (e₁, e₂, e₃, e₄) (inr (flags, _, _, _, refl, refl))
                ]
              ]
        ]
      ]
