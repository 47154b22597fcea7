-- ===== src/Tests/ShimCopies.antt =====
-- The theorems on the copies of the in-Pod interceptor, applied to the same two buffers.
use k8s_native_fast_gpu_chec.Prelude.{ℕ, Bool, true, Option, none, some, ◌≡◌, refl, arith}
use k8s_native_fast_gpu_chec.Effect.{World, perform}
use k8s_native_fast_gpu_chec.Shim.Calls
use k8s_native_fast_gpu_chec.Shim.Calls.{freeze, remap}
use k8s_native_fast_gpu_chec.Shim.Copying.{pipe_copy, serial_freeze, serial_remap}
use k8s_native_fast_gpu_chec.Shim.Engine.{
  Engine, holds, blob_map, blob_open, blob_resize, blob_unmap, checkpoint_freeze, copy_out, copy_in,
  freeze_resolved,
}
use k8s_native_fast_gpu_chec.Shim.Transport.Rounds.{bytes, Idle}
use k8s_native_fast_gpu_chec.Shim.Offload.Whole.{move_all, copies_agree}
use k8s_native_fast_gpu_chec.Shim.Offload.Places.{froze, needed}
use k8s_native_fast_gpu_chec.Shim.Offload.Quiet.{if_either}
use k8s_native_fast_gpu_chec.Shim.Offload.Losing.{Maps, checkpoint_freeze-froze}
use k8s_native_fast_gpu_chec.Shim.Machine.{Bytes, Memory, memory}
use k8s_native_fast_gpu_chec.Tests.ShimWorld.{
  device, device_machine, device-Reliable, fresh, lossy, lossy_fresh,
}
use k8s_native_fast_gpu_chec.Tests.ShimRuns.{buffers, engine, found, data_dir}

abbrev offloaded : Bytes × Bytes
offloaded = move_all freeze buffers (bytes (memory device_machine fresh))

abbrev copied_out : World device
copied_out =
    let (r, w) = pipe_copy device found freeze true buffers fresh in
    (copy_out device found data_dir r buffers w).1

abbrev copied_in : World device
copied_in =
    let (r, w) = pipe_copy device found remap true buffers fresh in
    (copy_in device found data_dir r true buffers w).1

abbrev serial_out : World device
serial_out = (serial_freeze device buffers fresh).1

abbrev serial_in : World device
serial_in = (serial_remap device buffers fresh).1

abbrev seen : World device → Memory
seen = memory device_machine

copies_agree_example :
    (bytes (seen copied_out) ≡ offloaded)
    × (bytes (seen serial_out) ≡ bytes (seen copied_out))
    × (bytes (seen copied_in) ≡ move_all remap buffers (bytes (seen fresh)))
    × (bytes (seen serial_in) ≡ bytes (seen copied_in))
    × (Idle (seen copied_out) × Idle (seen serial_out))
    × (Idle (seen copied_in) × Idle (seen serial_in))
unfolding memory
copies_agree_example =
    copies_agree device found data_dir device_machine true buffers fresh device-Reliable
      (omega arith) (refl, refl, refl)

lossy_opens :
    (need : ℕ) (e : Engine) (w : World lossy) → (blob_open lossy found data_dir need e w).0.0 ≡ true
unfolding blob_open blob_resize perform
lossy_opens need e w =
    if_either (λ (r : (Bool × Engine) × World lossy). r.0.0 ≡ true) e.fd _ _ w refl refl

lossy_remaps :
    (need : ℕ) (blob : Option ℕ) (e : Engine) (w : World lossy)
    → let (e', w') = blob_unmap lossy found data_dir blob e w in
      (blob_open lossy found data_dir need e' w').0.0 ≡ true
unfolding blob_unmap
lossy_remaps need none e w = lossy_opens need e w
lossy_remaps need (some n) e w =
    lossy_opens need (record e { blob = none }) (perform lossy (Calls.munmap n) w).1

lossy_Maps : Maps lossy found data_dir
unfolding blob_map
lossy_Maps need e w =
    if_either (λ (r : (Bool × Engine) × World lossy). r.0.0 ≡ true) (holds e.blob need) _ _ w refl
      (lossy_remaps need e.blob e w)

checkpoint_freeze-froze_example :
    (checkpoint_freeze lossy found data_dir engine lossy_fresh).0.owned ≡ froze buffers 0
unfolding freeze_resolved needed
checkpoint_freeze-froze_example =
    checkpoint_freeze-froze lossy found data_dir engine lossy_fresh refl lossy_Maps (omega arith)
      refl
