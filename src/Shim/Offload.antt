-- ===== src/Shim/Offload.antt =====
-- interceptor/preload.c: whole buffers in the blob, and back at their addresses.
pub mod Whole
pub mod Places
pub mod Back
pub mod Table
pub mod Entries
pub mod Quiet
pub mod Releasing
pub mod Freezing
pub mod Losing
pub mod Remapping
pub mod RoundTrip
