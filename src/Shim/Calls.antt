-- ===== src/Shim/Calls.antt =====
-- interceptor/preload.c: the calls of the in-Pod interceptor that leave it. They go to the CUDA driver
-- and runtime, to libc and to the kernel, and a status of 0 is success. The two staging buffers are
-- `Side.a` and `Side.b`; the blob is the file that the interceptor maps as `g_blob`.
use k8s_native_fast_gpu_chec.Prelude.{ℕ, ℤ, String, Bool, List, Option}

-- `gcr_mem_prop_t`
pub record MemProp : Type 0 where
  pub kind : ℕ
  pub requested_handle_types : ℕ
  pub location_type : ℕ
  pub location_id : ℕ
  pub win32_handle_meta_data : ℕ
  pub compression_type : ℕ
  pub gpu_direct_rdma_capable : ℕ
  pub usage : ℕ

-- `gcr_access_desc_t`
pub record AccessDesc : Type 0 where
  pub location_type : ℕ
  pub location_id : ℕ
  pub flags : ℕ

pub data Side : Type 0 where
  a b : Side

-- The two directions of a copy, as `pipe_copy` numbers them: 0 to the host, 1 to the device.
pub data Mode : Type 0 where
  freeze remap : Mode

pub data Op : Type 0 where
  getenv : String → Op
  fopen : String → String → Op
  fscanf : String → Op
  fprintf : String → String → Op
  fclose : String → Op
  getpid : Op
  usleep : ℕ → Op
  get_device : Op
  granularity : MemProp → Op
  mem_create : ℕ → MemProp → Op
  address_reserve : ℕ → Op
  mem_map : ℕ → ℕ → ℕ → Op
  set_access : ℕ → ℕ → AccessDesc → Op
  mem_unmap : ℕ → ℕ → Op
  mem_release : ℕ → Op
  address_free : ℕ → ℕ → Op
  set_device : ℕ → Op
  device_sync : Op
  host_alloc : Side → ℕ → Op
  malloc : Side → ℕ → Op
  stream_create : Op
  stream_sync : Op
  stream_destroy : Op
  event_create : Side → Op
  event_record : Side → Op
  event_sync : Side → Op
  event_destroy : Side → Op
  copy_async : Mode → Side → ℕ → ℕ → Op
  copy_sync : Mode → ℕ → ℕ → Op
  host_memcpy : Mode → Side → ℕ → ℕ → ℕ → Op
  pthread_create : Mode → Side → ℕ → ℕ → ℕ → Op
  pthread_join : Op
  make_dir : String → ℕ → Op
  open_blob : String → Op
  ftruncate : ℕ → Op
  mmap : ℕ → Op
  msync : ℕ → Op
  munmap : ℕ → Op
  close_blob : Op
  real_malloc : String → ℕ → Op
  real_free : String → ℕ → Op
  real_create : ℕ → Option MemProp → ℕ → Op
  real_call : String → List ℕ → Op
  launch : String → Op
  null_call : String → Op

-- What each call answers: a status; a status with the value that is written through a pointer, if any; for
-- `fopen`, `pthread_create`, `open_blob`, `ftruncate` and `mmap` whether they succeed; for `malloc`
-- whether the pointer is not NULL; for `stream_create` whether it succeeds with a stream.
abbrev pub Reply : Op → Type 0
Reply (getenv x) = Option String
Reply (fopen path mode) = Bool
Reply (fscanf path) = Option ℤ
Reply (fprintf path text) = Unit
Reply (fclose path) = Unit
Reply getpid = ℕ
Reply (usleep n) = Unit
Reply get_device = ℕ
Reply (granularity p) = ℕ × ℕ
Reply (mem_create n p) = ℕ × ℕ
Reply (address_reserve n) = ℕ × ℕ
Reply (mem_map va n h) = ℕ
Reply (set_access va n d) = ℕ
Reply (mem_unmap va n) = ℕ
Reply (mem_release h) = ℕ
Reply (address_free va n) = ℕ
Reply (set_device d) = ℕ
Reply device_sync = ℕ
Reply (host_alloc s n) = ℕ
Reply (malloc s n) = Bool
Reply stream_create = Bool
Reply stream_sync = ℕ
Reply stream_destroy = ℕ
Reply (event_create s) = ℕ
Reply (event_record s) = ℕ
Reply (event_sync s) = ℕ
Reply (event_destroy s) = ℕ
Reply (copy_async m s at n) = ℕ
Reply (copy_sync m at n) = ℕ
Reply (host_memcpy m s pos at n) = Unit
Reply (pthread_create m s pos at n) = Bool
Reply pthread_join = Unit
Reply (make_dir path mode) = ℕ
Reply (open_blob path) = Bool
Reply (ftruncate n) = Bool
Reply (mmap n) = Bool
Reply (msync n) = ℕ
Reply (munmap n) = ℕ
Reply close_blob = ℕ
Reply (real_malloc name n) = ℕ × ℕ
Reply (real_free name p) = ℕ
Reply (real_create n p flags) = ℕ × ℕ
Reply (real_call name args) = ℕ × ℕ
Reply (launch name) = ℕ
Reply (null_call name) = Unit
