-- ===== src/Shim/Offload/RoundTrip.antt =====
-- interceptor/preload.c: a restore after a checkpoint.
use k8s_native_fast_gpu_chec.Shim.Engine.{Engine}
use k8s_native_fast_gpu_chec.Shim.Machine.{Machine}
