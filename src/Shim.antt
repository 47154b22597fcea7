-- ===== src/Shim.antt =====
-- interceptor/preload.c: the library that is preloaded into the workload's process.
pub mod Calls
pub mod Registry
pub mod Owned
pub mod Copying
pub mod Engine
pub mod Watcher
pub mod Hooks
pub mod Unchanged
pub mod Gate
pub mod Serving
pub mod Machine
pub mod Transport
pub mod Offload
