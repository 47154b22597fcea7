-- ===== src/Agent/Storage/Refusing.antt =====
-- The storage specifications that `store` (internal/agent/checkpoint.go) refuses.
use k8s_native_fast_gpu_chec.Prelude.{
  String, ◌≡◌, Bool, true, false, not, ◌&&◌, ◌||◌, List, Result, ok, err, arith, ◌==◌,
}
use k8s_native_fast_gpu_chec.Effect.{Handler, World}
use k8s_native_fast_gpu_chec.Api.{StorageSpec}
use k8s_native_fast_gpu_chec.Text.Trim.{trim_space, is_empty}
use k8s_native_fast_gpu_chec.Agent.Calls.{Op, Reply}
use k8s_native_fast_gpu_chec.Agent.Libs.{Libs}
use k8s_native_fast_gpu_chec.Agent.Storage.{Checkpointer, Target, store_mount, store_nfs, store}

abbrev pub is_blank : String → Bool
is_blank s = is_empty (trim_space s)

-- Whether the fields that the storage type needs are there.
abbrev pub is_usable : StorageSpec → Bool
is_usable s =
    (s.type == "mount" && not (is_blank s.fs_type) && not (is_blank s.source))
    || (s.type == "nfs" && not (is_blank s.endpoint) && not (is_blank s.path))
    || s.type == "hostPath"
    || s.type == ""

abbrev pub is_err : Result String → Bool
is_err (ok path) = false
is_err (err e) = true

module _ (L : Libs) (H : Handler Op Reply) (c : Checkpointer) where
  -- A storage with a type other than `mount`, `nfs`, `hostPath` and the empty one, a `mount` without
  -- `fsType` or `source`, and an `nfs` without `endpoint` or `path` is refused with an error, and
  -- nothing is called: no file is made, copied or removed and nothing is mounted.
  pub store_refuses :
      (t : Target) (produced : List String) (w : World H)
      → is_usable t.storage ≡ false
      → (is_err (store L H c t produced w).0 ≡ true) × ((store L H c t produced w).1 ≡ w)
  unfolding store store_mount store_nfs
  store_refuses t produced w h = ground arith
