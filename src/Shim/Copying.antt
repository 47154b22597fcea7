-- ===== src/Shim/Copying.antt =====
-- interceptor/preload.c: the copies between the device and the blob, pipelined through two staging
-- buffers or one chunk after the other.
use k8s_native_fast_gpu_chec.Prelude.{
  ℕ, zero, suc, ◌+◌, ◌-◌, ◌*◌, ◌/◌, String, Bool, true, false, ◌&&◌, not, List, [], ◌∷◌, ◌++◌,
  Option, none, some, ltb, leb, nat_eq, if◌then◌else◌,
}
use k8s_native_fast_gpu_chec.Effect.{Handler, World, M, pure, ◌>>=◌, ◌>>◌, perform}
use k8s_native_fast_gpu_chec.Shim.Calls.{
  Op, Reply, Side, a, b, Mode, freeze, remap, stream_create, stream_sync, stream_destroy,
  event_create, event_record, event_sync, event_destroy, copy_async, copy_sync, host_memcpy,
  pthread_create, pthread_join,
}
use k8s_native_fast_gpu_chec.Shim.Registry.{add64}
use k8s_native_fast_gpu_chec.Shim.Owned.{Owned, call_if}

-- `GCR_STAGE_BYTES`
abbrev pub gcr_stage_bytes : ℕ
gcr_stage_bytes = 134217728

-- `ROUND2M`: the low 21 bits of the sum are cleared.
unfoldable pub round2m : ℕ → ℕ
round2m n = add64 n 2097151 / 2097152 * 2097152

-- `GCR_COPY_THREADS`
abbrev pub gcr_copy_threads : ℕ
gcr_copy_threads = 4

-- One round of the inner loops: `size` bytes between the device address `dev` and the place `blob`
-- of the blob.
pub record Transfer : Type 0 where
  pub dev : ℕ
  pub blob : ℕ
  pub size : ℕ

abbrev pub chunk_of : ℕ → ℕ
chunk_of rem = if ltb rem gcr_stage_bytes then rem else gcr_stage_bytes

-- `while (rem > 0)`: the rounds for a buffer at `at` whose place in the blob is `off`. Each round takes
-- at least one byte, so `rem` rounds of fuel are enough.
unfoldable pub chunks : ℕ → ℕ → ℕ → ℕ → ℕ → List Transfer
chunks zero at off rem coff = []
chunks (suc fuel) at off rem coff = elim (ltb 0 rem) [
  | true ↦
      let chunk = chunk_of rem in
      record { dev = add64 at coff; blob = off + coff; size = chunk }
      ∷ chunks fuel at off (rem - chunk) (coff + chunk)
  | false ↦ []
]

unfoldable pub chunks_of : Owned → List Transfer
chunks_of o = chunks o.req o.va o.blob_off o.req 0

-- `sel` of `pipe_copy`.
abbrev pub selected : Mode → Owned → Bool
selected freeze o = o.live && not o.frozen
selected remap o = o.frozen

-- The rounds of the two nested loops of `pipe_copy`, in their order.
unfoldable pub transfers : Mode → List Owned → List Transfer
transfers m [] = []
transfers m (o ∷ os) = (if selected m o then chunks_of o else []) ++ transfers m os

-- `j & 1` of the next round.
abbrev pub other : Side → Side
other a = b
other b = a

-- The results 0, -1 and -2 of `pipe_copy`.
pub data PipeResult : Type 0 where
  copied failed unavailable : PipeResult

module _ (H : Handler Op Reply) where
  -- The second loop of `memcpy_mt`.
  unfoldable pub join_threads : ℕ → M (World H) (Unit {0})
  join_threads zero = pure tt
  join_threads (suc t) = do perform H pthread_join; join_threads t

  -- `if (pthread_create(..) == 0) t++; else memcpy(..);`
  unfoldable pub copy_piece : Mode → Side → ℕ → ℕ → ℕ → ℕ → M (World H) ℕ
  copy_piece m s pos at n t = do
    started ← perform H (pthread_create m s pos at n)
    let copied_here = (do perform H (host_memcpy m s pos at n); pure t)
    if started then pure (suc t) else copied_here

  -- The first loop of `memcpy_mt`, with the rounds left, and its counters `i` and `t`.
  unfoldable pub copy_pieces : ℕ → Mode → Side → ℕ → ℕ → ℕ → ℕ → ℕ → M (World H) ℕ
  copy_pieces zero m s at n per i t = pure t
  copy_pieces (suc k) m s at n per i t =
      let o = i * per in
      let piece = (do
        t' ← copy_piece m s o (at + o) (if ltb (n - o) per then n - o else per) t
        copy_pieces k m s at n per (suc i) t') in
      if leb n o then pure t else piece

  -- `memcpy_mt` between a staging buffer and the place `at` of the blob.
  unfoldable pub memcpy_mt : Mode → Side → ℕ → ℕ → M (World H) (Unit {0})
  memcpy_mt m s at n = if ltb n 8388608 then perform H (host_memcpy m s 0 at n) else (do
    t ← copy_pieces gcr_copy_threads m s at n (add64 n 3 / gcr_copy_threads) 0 0
    join_threads t)

  -- `if (prev >= 0) { rt_event_sync(..); if (mode == 0) memcpy_mt(pblob, pbuf, psz); }`
  unfoldable pub drain : Mode → Option (Side × Transfer) → M (World H) (Unit {0})
  drain m none = pure tt
  drain freeze (some (s, p)) = do perform H (event_sync s); memcpy_mt freeze s p.blob p.size
  drain remap (some (s, p)) = do perform H (event_sync s); pure tt

  -- The asynchronous copy of a round.
  unfoldable pub start_copy : Mode → Side → Transfer → M (World H) ℕ
  start_copy freeze s t = perform H (copy_async freeze s t.dev t.size)
  start_copy remap s t = do
    memcpy_mt remap s t.blob t.size
    perform H (copy_async remap s t.dev t.size)

  -- The loops of `pipe_copy` and the wait after them. The answer is false after `goto fin`.
  unfoldable pub pipe_loop :
      Mode → List Transfer → Side → Option (Side × Transfer) → M (World H) Bool
  pipe_loop m [] s prev = do drain m prev; pure true
  pipe_loop m (t ∷ ts) s prev = do
    rc ← start_copy m s t
    let rest = (do perform H (event_record s); drain m prev; pipe_loop m ts (other s) (some (s, t)))
    if nat_eq rc 0 then rest else pure false

  -- The rounds of one buffer of the serial loop of `checkpoint_freeze`, and its `break`.
  unfoldable pub serial_out : List Transfer → M (World H) (Unit {0})
  serial_out [] = pure tt
  serial_out (t ∷ ts) = do
    rc ← perform H (copy_sync freeze t.dev t.size)
    let rest = (do memcpy_mt freeze a t.blob t.size; serial_out ts)
    if nat_eq rc 0 then rest else pure tt

  unfoldable pub serial_freeze : List Owned → M (World H) (Unit {0})
  serial_freeze [] = pure tt
  serial_freeze (o ∷ os) = do
    if selected freeze o then serial_out (chunks_of o) else pure tt
    serial_freeze os

  -- The rounds of one buffer of the serial loop of `restore_remap`, which does not read the status.
  unfoldable pub serial_in : List Transfer → M (World H) (Unit {0})
  serial_in [] = pure tt
  serial_in (t ∷ ts) = do
    memcpy_mt remap a t.blob t.size
    perform H (copy_sync remap t.dev t.size)
    serial_in ts

  unfoldable pub serial_remap : List Owned → M (World H) (Unit {0})
  serial_remap [] = pure tt
  serial_remap (o ∷ os) = do
    if selected remap o then serial_in (chunks_of o) else pure tt
    serial_remap os

module _ (H : Handler Op Reply) (has : String → Bool) where
  -- From the label `fin` on.
  unfoldable pub pipe_end : Bool → M (World H) PipeResult
  pipe_end fine = do
    call_if H has "cudaStreamSynchronize" stream_sync
    call_if H has "cudaEventDestroy" (event_destroy a)
    call_if H has "cudaEventDestroy" (event_destroy b)
    call_if H has "cudaStreamDestroy" stream_destroy
    pure (if fine then copied else failed)

  -- `pipe_copy` once the stream and the events were asked for.
  unfoldable pub pipe_with_events : Mode → List Owned → Bool → M (World H) PipeResult
  pipe_with_events m owned true = do fine ← pipe_loop H m (transfers m owned) a none; pipe_end fine
  pipe_with_events m owned false = do
    call_if H has "cudaStreamDestroy" stream_destroy
    pure unavailable

  -- `rt_event_create(&ev[0]) == 0 && rt_event_create(&ev[1]) == 0`
  unfoldable pub create_events : M (World H) Bool
  create_events = do
    rc ← perform H (event_create a)
    let second = (do rc' ← perform H (event_create b); pure (nat_eq rc' 0))
    if nat_eq rc 0 then second else pure false

  -- `pipe_copy`. `ready` says that pinned staging and the blob are there.
  unfoldable pub pipe_copy : Mode → Bool → List Owned → M (World H) PipeResult
  pipe_copy m ready owned =
      if ready
        && has "cudaStreamCreate"
        && has "cudaEventCreate"
        && has "cudaEventRecord"
        && has "cudaEventSynchronize"
      then (do
        created ← perform H stream_create
        let piped = (do events ← create_events; pipe_with_events m owned events)
        if created then piped else pure unavailable)
      else pure unavailable
