-- ===== src/Orchestrator.antt =====
-- The workload orchestrator (orchestrator/controllers/workloadcheckpoint_controller.go): it resolves
-- a workload to its Pods, gives each Pod a child GPUCheckpoint and sums up the children.
pub mod Calls
pub mod Naming
pub mod Pods
pub mod Children
pub mod Aggregate
pub mod Controller
