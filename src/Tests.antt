-- ===== src/Tests.antt =====
-- Concrete worlds for the agent, the orchestrator and the commands, and a concrete memory, and the theorems applied in
-- them.
pub mod ShimWorld
pub mod ShimRuns
pub mod ShimCopies
pub mod AgentWorld
pub mod AgentRuns
pub mod ReconcilerRuns
pub mod ClusterWorld
pub mod ClusterRuns
pub mod OneShotRuns
pub mod DiskRuns
pub mod SystemRuns
pub mod CommandRuns
pub mod MemoryWorld
pub mod MemoryWorkloads
pub mod MemoryRuns
