-- ===== src/Shim/Machine.antt =====
-- interceptor/preload.c: what its copies rely on. `Memory` is what a driver, a kernel and a stream
-- hold: bytes by device address, bytes by place in the blob, and the staging buffers. A copy that the
-- stream was given counts as made, but the host may touch its buffer only when it is `settled`: the
-- event that was recorded after the copy (`covered`) has been waited for. In the same way a copy that a
-- thread was started for counts as made, but it is under way (`running`, the ends of its parts of the
-- staging buffer and of the blob) until the thread was joined: only copies of later parts may be made
-- before.
use k8s_native_fast_gpu_chec.Prelude.{
  ℕ, ◌+◌, ◌-◌, ◌<◌, ◌≤◌, Bool, true, false, ◌&&◌, List, [], ◌∷◌, ◌++◌, ◌≡◌, All, ltb, leb,
  if◌then◌else◌,
}
use k8s_native_fast_gpu_chec.Effect.{Handler, World, perform}
use k8s_native_fast_gpu_chec.Shim.Calls.{
  Op, Reply, Side, a, b, Mode, freeze, remap, copy_async, copy_sync, host_memcpy, pthread_create,
  pthread_join, event_record, event_sync, mem_create, mem_map, mem_unmap, mem_release, set_access,
  ftruncate, host_alloc, malloc, mmap, open_blob, launch, null_call, real_malloc, real_free,
  address_reserve, address_free, usleep, real_create, real_call,
}

abbrev pub Bytes : Type 0
Bytes = ℕ → ℕ

-- `dst` with `n` bytes at `at` taken from `src` at `from`.
unfoldable pub put : Bytes → ℕ → Bytes → ℕ → ℕ → Bytes
put dst at src from n x = if leb at x && ltb x (at + n) then src (from + (x - at)) else dst x

abbrev pub on {ℓ} : {A : Type ℓ} → Side → A → (Side → A) → Side → A
on a v f a = v
on a v f b = f b
on b v f a = f a
on b v f b = v

pub record Memory : Type 0 where
  pub dev : Bytes
  pub file : Bytes
  pub stage : Side → Bytes
  pub settled : Side → Bool
  pub covered : Side → Bool
  pub running : List (ℕ × ℕ)

-- A host copy between a staging buffer and the blob.
abbrev pub host_copied : Mode → Side → ℕ → ℕ → ℕ → Memory → Memory
host_copied freeze s pos at n m = record m { file = put m.file at (m.stage s) pos n }
host_copied remap s pos at n m = record m { stage = on s (put (m.stage s) pos m.file at n) m.stage }

-- A copy between the start of a staging buffer and the device.
abbrev pub device_copied : Mode → Side → ℕ → ℕ → Memory → Memory
device_copied freeze s at n m = record m { stage = on s (put (m.stage s) 0 m.dev at n) m.stage }
device_copied remap s at n m = record m { dev = put m.dev at (m.stage s) 0 n }

abbrev pub in_flight : Side → Memory → Memory
in_flight s m = record m { settled = on s false m.settled; covered = on s false m.covered }

-- No running copy reaches the part of the staging buffer from `pos` on or that of the blob from `at` on.
abbrev pub Clear : ℕ → ℕ → List (ℕ × ℕ) → Type 0
Clear pos at = All (λ (r : ℕ × ℕ). (r.0 ≤ pos) × (r.1 ≤ at))

abbrev pub with_running : List (ℕ × ℕ) → Memory → Memory
with_running rs m = record m { running = rs }

-- The thread that was started first is joined first.
abbrev pub but_first {ℓ} : {A : Type ℓ} → List A → List A
but_first [] = []
but_first (x ∷ xs) = xs

-- A copy by a thread of its own.
abbrev pub spawned : Mode → Side → ℕ → ℕ → ℕ → Memory → Memory
spawned mode s pos at n m =
    with_running (m.running ++ (pos + n, at + n) ∷ []) (host_copied mode s pos at n m)

-- What stays when the driver changes its mappings.
pub record SameHost (m m' : Memory) : Type 0 where
  pub same_file : m'.file ≡ m.file
  pub same_stage : m'.stage ≡ m.stage
  pub same_settled : m'.settled ≡ m.settled
  pub same_covered : m'.covered ≡ m.covered
  pub same_running : m'.running ≡ m.running

-- What stays when staging buffers are allocated.
pub record SameData (m m' : Memory) : Type 0 where
  pub same_dev : m'.dev ≡ m.dev
  pub same_file : m'.file ≡ m.file
  pub same_settled : m'.settled ≡ m.settled
  pub same_running : m'.running ≡ m.running

-- What stays of a file that is set to `n` bytes.
pub record SameBelow (n : ℕ) (m m' : Memory) : Type 0 where
  pub same_dev : m'.dev ≡ m.dev
  pub same_below : (x : ℕ) → x < n → m'.file x ≡ m.file x
  pub same_settled : m'.settled ≡ m.settled
  pub same_running : m'.running ≡ m.running

-- The documented effect of each call on the memory. A copy is known to be made only if it succeeds
-- its staging buffer is settled and, for the driver's copies, no thread is copying; a thread's copy or
-- one beside running threads only if the running ones do not reach it. Nothing is said of launches, of
-- the program's own calls of the driver, of sleeping and of a call through a null pointer.
abbrev pub Obeys : (o : Op) → Reply o → Memory → Memory → Type 0
Obeys (copy_async mode s at n) rc m m' =
    m.settled s ≡ true → m.running ≡ [] → rc ≡ 0 → m' ≡ in_flight s (device_copied mode s at n m)
Obeys (copy_sync mode at n) rc m m' =
    m.settled a ≡ true → m.running ≡ [] → rc ≡ 0 → m' ≡ device_copied mode a at n m
Obeys (event_record s) rc m m' = rc ≡ 0 → m' ≡ record m { covered = on s true m.covered }
Obeys (event_sync s) rc m m' =
    m.covered s ≡ true → rc ≡ 0 → m' ≡ record m { settled = on s true m.settled }
Obeys (host_memcpy mode s pos at n) r m m' =
    m.settled s ≡ true → Clear pos at m.running → m' ≡ host_copied mode s pos at n m
Obeys (pthread_create mode s pos at n) started m m' =
    m.settled s ≡ true
    → Clear pos at m.running
    → m' ≡ (if started then spawned mode s pos at n m else m)
Obeys pthread_join r m m' = m' ≡ with_running (but_first m.running) m
Obeys (mem_create n p) r m m' = SameHost m m'
Obeys (mem_map at n h) r m m' = SameHost m m'
Obeys (set_access at n d) r m m' = SameHost m m'
Obeys (mem_unmap at n) r m m' = SameHost m m'
Obeys (mem_release h) r m m' = SameHost m m'
Obeys (address_reserve n) r m m' = SameHost m m'
Obeys (address_free at n) r m m' = SameHost m m'
Obeys (host_alloc s n) r m m' = SameData m m'
Obeys (malloc s n) r m m' = SameData m m'
Obeys (ftruncate n) r m m' = r ≡ true → SameBelow n m m'
Obeys (launch name) r m m' = Unit
Obeys (null_call name) r m m' = Unit
Obeys (real_malloc name n) r m m' = Unit
Obeys (real_free name p) r m m' = Unit
Obeys (usleep n) r m m' = Unit
Obeys (real_create n p flags) r m m' = Unit
Obeys (real_call name args) r m m' = Unit
Obeys o r m m' = m' ≡ m

-- A world with a memory, in which each call has its documented effect.
pub record Machine (H : Handler Op Reply) : Type 0 where
  pub view : H.State → Memory
  pub obeys : (o : Op) (s : H.State) → Obeys o (H.handle o s).0 (view s) (view (H.handle o s).1)

-- The copies, the waits for them and the calls that map memory and the blob succeed.
pub record Reliable (H : Handler Op Reply) : Type 0 where
  pub copies_async :
      (mode : Mode) (s : Side) (at n : ℕ) (t : H.State)
      → (H.handle (copy_async mode s at n) t).0 ≡ 0
  pub copies : (mode : Mode) (at n : ℕ) (t : H.State) → (H.handle (copy_sync mode at n) t).0 ≡ 0
  pub records : (s : Side) (t : H.State) → (H.handle (event_record s) t).0 ≡ 0
  pub waits : (s : Side) (t : H.State) → (H.handle (event_sync s) t).0 ≡ 0
  pub creates : (n : ℕ) (p : _) (t : H.State) → (H.handle (mem_create n p) t).0.0 ≡ 0
  pub maps : (at n h : ℕ) (t : H.State) → (H.handle (mem_map at n h) t).0 ≡ 0
  pub opens : (p : _) (t : H.State) → (H.handle (open_blob p) t).0 ≡ true
  pub sizes : (n : ℕ) (t : H.State) → (H.handle (ftruncate n) t).0 ≡ true
  pub mmaps : (n : ℕ) (t : H.State) → (H.handle (mmap n) t).0 ≡ true

module _ {H : Handler Op Reply} (machine : Machine H) where
  -- The memory of a world.
  unfoldable pub memory : World H → Memory
  memory w = machine.view w.state

  pub law : (o : Op) (w : World H) → Obeys o (perform H o w).0 (memory w) (memory (perform H o w).1)
  unfolding perform memory
  law o w = machine.obeys o w.state
