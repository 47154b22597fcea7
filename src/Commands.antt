-- ===== src/Commands.antt =====
-- The two programs: cmd/node-agent and orchestrator/cmd.
pub mod NodeAgent
pub mod Orchestrator
