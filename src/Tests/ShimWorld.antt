-- ===== src/Tests/ShimWorld.antt =====
-- A device, a driver and a kernel for the in-Pod interceptor: every call succeeds and has its
-- documented effect.
use k8s_native_fast_gpu_chec.Prelude.{true, false, [], none, some, pos, refl, ◌==◌, if◌then◌else◌}
use k8s_native_fast_gpu_chec.Effect.{Handler, World}
use k8s_native_fast_gpu_chec.Shim.Calls
use k8s_native_fast_gpu_chec.Shim.Calls.{Op, Reply, Side, Mode}
use k8s_native_fast_gpu_chec.Shim.Machine.{
  Memory, Obeys, Machine, Reliable, SameHost, host_copied, device_copied, in_flight, on,
  with_running, but_first, spawned,
}

abbrev pub answer : (o : Op) → Reply o
answer (Calls.getenv x) = if x == "GCR_VMM_ALLOC" then some "1" else none
answer (Calls.fopen path mode) = true
answer (Calls.fscanf path) = some (pos 2)
answer (Calls.fprintf path text) = tt
answer (Calls.fclose path) = tt
answer Calls.getpid = 1
answer (Calls.usleep n) = tt
answer Calls.get_device = 0
answer (Calls.granularity p) = (0, 2097152)
answer (Calls.mem_create n p) = (0, 5)
answer (Calls.address_reserve n) = (0, 4096)
answer (Calls.mem_map at n h) = 0
answer (Calls.set_access at n d) = 0
answer (Calls.mem_unmap at n) = 0
answer (Calls.mem_release h) = 0
answer (Calls.address_free at n) = 0
answer (Calls.set_device d) = 0
answer Calls.device_sync = 0
answer (Calls.host_alloc s n) = 0
answer (Calls.malloc s n) = true
answer Calls.stream_create = true
answer Calls.stream_sync = 0
answer Calls.stream_destroy = 0
answer (Calls.event_create s) = 0
answer (Calls.event_record s) = 0
answer (Calls.event_sync s) = 0
answer (Calls.event_destroy s) = 0
answer (Calls.copy_async m s at n) = 0
answer (Calls.copy_sync m at n) = 0
answer (Calls.host_memcpy m s p at n) = tt
answer (Calls.pthread_create m s p at n) = true
answer Calls.pthread_join = tt
answer (Calls.make_dir path mode) = 0
answer (Calls.open_blob path) = true
answer (Calls.ftruncate n) = true
answer (Calls.mmap n) = true
answer (Calls.msync n) = 0
answer (Calls.munmap n) = 0
answer Calls.close_blob = 0
answer (Calls.real_malloc name n) = (0, 8192)
answer (Calls.real_free name p) = 0
answer (Calls.real_create n p flags) = (0, 6)
answer (Calls.real_call name args) = (0, 0)
answer (Calls.launch name) = 0
answer (Calls.null_call name) = tt

abbrev pub effect : Op → Memory → Memory
effect (Calls.copy_async m s at n) t = in_flight s (device_copied m s at n t)
effect (Calls.copy_sync m at n) t = device_copied m Calls.a at n t
effect (Calls.event_record s) t = record t { covered = on s true t.covered }
effect (Calls.event_sync s) t = record t { settled = on s true t.settled }
effect (Calls.host_memcpy m s p at n) t = host_copied m s p at n t
effect (Calls.pthread_create m s p at n) t = spawned m s p at n t
effect Calls.pthread_join t = with_running (but_first t.running) t
effect o t = t

abbrev pub device : Handler Op Reply
device = record { State = Memory; handle = λ o t. (answer o, effect o t) }

same_host : (t : Memory) → SameHost t t
same_host t = record {
  same_file = refl;
  same_stage = refl;
  same_settled = refl;
  same_covered = refl;
  same_running = refl;
}

pub device-Obeys : (o : Op) (t : Memory) → Obeys o (answer o) t (effect o t)
device-Obeys (Calls.copy_async m s at n) t = λ q i z. refl
device-Obeys (Calls.copy_sync m at n) t = λ q i z. refl
device-Obeys (Calls.event_record s) t = λ z. refl
device-Obeys (Calls.event_sync s) t = λ q z. refl
device-Obeys (Calls.host_memcpy m s p at n) t = λ q c. refl
device-Obeys (Calls.pthread_create m s p at n) t = λ q c. refl
device-Obeys (Calls.mem_create n p) t = same_host t
device-Obeys (Calls.mem_map at n h) t = same_host t
device-Obeys (Calls.set_access at n d) t = same_host t
device-Obeys (Calls.mem_unmap at n) t = same_host t
device-Obeys (Calls.mem_release h) t = same_host t
device-Obeys (Calls.address_reserve n) t = same_host t
device-Obeys (Calls.address_free at n) t = same_host t
device-Obeys (Calls.host_alloc s n) t = record {
  same_dev = refl;
  same_file = refl;
  same_settled = refl;
  same_running = refl;
}
device-Obeys (Calls.malloc s n) t = record {
  same_dev = refl;
  same_file = refl;
  same_settled = refl;
  same_running = refl;
}
device-Obeys (Calls.ftruncate n) t = λ z. record {
  same_dev = refl;
  same_below = λ x k. refl;
  same_settled = refl;
  same_running = refl;
}
device-Obeys (Calls.launch name) t = tt
device-Obeys (Calls.null_call name) t = tt
device-Obeys (Calls.real_malloc name n) t = tt
device-Obeys (Calls.real_free name p) t = tt
device-Obeys (Calls.real_create n p flags) t = tt
device-Obeys (Calls.real_call name args) t = tt
device-Obeys (Calls.usleep n) t = tt
device-Obeys (Calls.getenv x) t = refl
device-Obeys (Calls.fopen path mode) t = refl
device-Obeys (Calls.fscanf path) t = refl
device-Obeys (Calls.fprintf path text) t = refl
device-Obeys (Calls.fclose path) t = refl
device-Obeys Calls.getpid t = refl
device-Obeys Calls.get_device t = refl
device-Obeys (Calls.granularity p) t = refl
device-Obeys (Calls.set_device d) t = refl
device-Obeys Calls.device_sync t = refl
device-Obeys Calls.stream_create t = refl
device-Obeys Calls.stream_sync t = refl
device-Obeys Calls.stream_destroy t = refl
device-Obeys (Calls.event_create s) t = refl
device-Obeys (Calls.event_destroy s) t = refl
device-Obeys Calls.pthread_join t = refl
device-Obeys (Calls.make_dir path mode) t = refl
device-Obeys (Calls.open_blob path) t = refl
device-Obeys (Calls.mmap n) t = refl
device-Obeys (Calls.msync n) t = refl
device-Obeys (Calls.munmap n) t = refl
device-Obeys Calls.close_blob t = refl

abbrev pub device_machine : Machine device
device_machine = record { view = λ t. t; obeys = λ o t. device-Obeys o t }

pub device-Reliable : Reliable device
device-Reliable = record {
  copies_async = λ m s at n t. refl;
  copies = λ m at n t. refl;
  records = λ s t. refl;
  waits = λ s t. refl;
  creates = λ n p t. refl;
  maps = λ at n h t. refl;
  opens = λ p t. refl;
  sizes = λ n t. refl;
  mmaps = λ n t. refl;
}

-- The device holds its addresses as bytes, the blob is empty, and nothing is under way.
abbrev pub fresh : World device
fresh = record {
  state = record {
    dev = λ x. x;
    file = λ x. 0;
    stage = λ s x. 0;
    settled = λ s. true;
    covered = λ s. false;
    running = [];
  };
  trace = [];
}

-- On this device no copy succeeds, and nothing is ever written.
abbrev lossy_answer : (o : Op) → Reply o
lossy_answer (Calls.copy_async m s at n) = 2
lossy_answer (Calls.copy_sync m at n) = 2
lossy_answer o = answer o

abbrev pub lossy : Handler Op Reply
lossy = record { State = Memory; handle = λ o t. (lossy_answer o, t) }

abbrev pub lossy_fresh : World lossy
lossy_fresh = record { state = fresh.state; trace = [] }
