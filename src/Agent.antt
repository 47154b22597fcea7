-- ===== src/Agent.antt =====
-- The node agent (internal/agent): one per node, it checkpoints the Pods of its own node.
pub mod Calls
pub mod Libs
pub mod Schedule
pub mod Interceptor
pub mod Kubelet
pub mod Files
pub mod Mounts
pub mod Storage
pub mod Checkpointer
pub mod Conditions
pub mod Reconciler
