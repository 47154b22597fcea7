-- ===== src/Shim/Transport/Rounds.antt =====
-- interceptor/preload.c: one round of `pipe_copy` never lets the host touch a staging buffer that a
-- copy still uses, and moves what is due.
use k8s_native_fast_gpu_chec.Prelude.{
  ℕ, ◌+◌, ◌-◌, ◌<◌, true, ◌&&◌, List, [], ◌∷◌, ◌++◌, Option, none, some, ◌≡◌, refl, ap, inl, inr,
  ltb, leb, Bool-cases, arith,
}
use mathlib.Core.Path.{fun_ext}
use k8s_native_fast_gpu_chec.Shim.Calls.{Side, a, b, Mode, freeze, remap}
use k8s_native_fast_gpu_chec.Shim.Copying.{Transfer, other}
use k8s_native_fast_gpu_chec.Shim.Machine.{
  Bytes, put, on, Memory, host_copied, device_copied, in_flight,
}

-- The device and the blob.
abbrev pub bytes : Memory → Bytes × Bytes
bytes m = (m.dev, m.file)

-- One transfer after the other.
unfoldable pub carry : Mode → List Transfer → Bytes × Bytes → Bytes × Bytes
carry m [] (d, f) = (d, f)
carry freeze (t ∷ ts) (d, f) = carry freeze ts (d, put f t.blob d t.dev t.size)
carry remap (t ∷ ts) (d, f) = carry remap ts (put d t.dev f t.blob t.size, f)

-- Bytes that are alike where they are read give the same result.
pub put-source :
    (dst : Bytes) (at : ℕ) (src : Bytes) (from : ℕ) (src' : Bytes) (from' n : ℕ)
    → ((i : ℕ) → i < n → src (from + i) ≡ src' (from' + i))
    → put dst at src from n ≡ put dst at src' from' n
unfolding put
put-source dst at src from src' from' n h = fun_ext λ x.
    elim (Bool-cases (leb at x && ltb x (at + n))) [
      | inl inside ↦ rw inside (h (x - at) (ground arith))
      | inr outside ↦ rw outside refl
    ]

-- No copy is under way, neither of the stream nor of a thread.
abbrev pub Idle : Memory → Type 0
Idle m = (m.settled a ≡ true) × (m.settled b ≡ true) × (m.running ≡ [])

-- A size that `memcpy_mt` can divide without overflow.
abbrev pub Moderate : Transfer → Type 0
Moderate t = t.size < 18446744073709551613

-- `prev`, `pbuf`, `pblob` and `psz` of the round that uses the buffer `s`, given the last transfer.
abbrev pub last : Side → Option Transfer → Option (Side × Transfer)
last s none = none
last s (some t) = some (other s, t)

-- What the buffer of the last round holds.
abbrev Loaded : Mode → Memory → Side → Transfer → Type 0
Loaded freeze m s t = (i : ℕ) → i < t.size → m.stage s (0 + i) ≡ m.dev (t.dev + i)
Loaded remap m s t = Unit

-- Before the round that uses the buffer `s`: that buffer is settled, and the other one's copy, if any,
-- is followed by its event; and no thread is copying.
abbrev pub Ready : Mode → Memory → Side → Option Transfer → Type 0
Ready mode m s none = (m.settled s ≡ true) × (m.settled (other s) ≡ true) × (m.running ≡ [])
Ready mode m s (some t) =
    (m.settled s ≡ true)
    × (m.covered (other s) ≡ true)
    × Loaded mode m (other s) t
    × Moderate t
    × (m.running ≡ [])

-- What is left to be moved of the last round.
abbrev pub pending : Mode → Option Transfer → List Transfer
pending freeze (some t) = t ∷ []
pending freeze none = []
pending remap prev = []

-- The memory after the parts of a round.
abbrev pub started : Mode → Side → Transfer → Memory → Memory
started freeze s t m = in_flight s (device_copied freeze s t.dev t.size m)
started remap s t m =
    in_flight s (device_copied remap s t.dev t.size (host_copied remap s 0 t.blob t.size m))

abbrev pub recorded : Side → Memory → Memory
recorded s m = record m { covered = on s true m.covered }

abbrev pub waited : Side → Memory → Memory
waited s m = record m { settled = on s true m.settled }

abbrev pub drained : Mode → Side → Option Transfer → Memory → Memory
drained mode s none m = m
drained freeze s (some t) m = host_copied freeze (other s) 0 t.blob t.size (waited (other s) m)
drained remap s (some t) m = waited (other s) m

pub put-inside :
    (dst : Bytes) (src : Bytes) (from n i : ℕ)
    → i < n
    → put dst 0 src from n (0 + i) ≡ src (from + i)
unfolding put
put-inside dst src from n i h = ground arith

-- Remapping reads the bytes that were just staged.
pub restaged :
    (dst st f : Bytes) (dev blob n : ℕ) → put dst dev (put st 0 f blob n) 0 n ≡ put dst dev f blob n
restaged dst st f dev blob n =
    put-source dst dev (put st 0 f blob n) 0 f blob n (put-inside st f blob n)

-- One round keeps the discipline of the buffers, and moves what is due.
pub round-Ready :
    (mode : Mode) (s : Side) (t : Transfer) (prev : Option Transfer) (m : Memory)
    → Ready mode m s prev
    → Moderate t
    → Ready mode (drained mode s prev (recorded s (started mode s t m))) (other s) (some t)
round-Ready freeze a t none m (q, q', i) k =
    (q', refl, put-inside (m.stage a) m.dev t.dev t.size, k, i)
round-Ready freeze b t none m (q, q', i) k =
    (q', refl, put-inside (m.stage b) m.dev t.dev t.size, k, i)
round-Ready freeze a t (some p) m (q, c, l, j, i) k =
    (refl, refl, put-inside (m.stage a) m.dev t.dev t.size, k, i)
round-Ready freeze b t (some p) m (q, c, l, j, i) k =
    (refl, refl, put-inside (m.stage b) m.dev t.dev t.size, k, i)
round-Ready remap a t none m (q, q', i) k = (q', refl, tt, k, i)
round-Ready remap b t none m (q, q', i) k = (q', refl, tt, k, i)
round-Ready remap a t (some p) m (q, c, l, j, i) k = (refl, refl, tt, k, i)
round-Ready remap b t (some p) m (q, c, l, j, i) k = (refl, refl, tt, k, i)

pub drained-bytes :
    (mode : Mode) (s : Side) (t : Transfer) (prev : Option Transfer) (m : Memory)
    → Ready mode m s prev
    → carry mode
        (pending mode (some t))
        (bytes (drained mode s prev (recorded s (started mode s t m))))
      ≡ carry mode (t ∷ []) (carry mode (pending mode prev) (bytes m))
unfolding carry
drained-bytes freeze s t none m h = refl
drained-bytes freeze a t (some p) m (q, c, l, k, i) =
    ap (λ f. (m.dev, put f t.blob m.dev t.dev t.size))
      (put-source m.file p.blob (m.stage b) 0 m.dev p.dev p.size l)
drained-bytes freeze b t (some p) m (q, c, l, k, i) =
    ap (λ f. (m.dev, put f t.blob m.dev t.dev t.size))
      (put-source m.file p.blob (m.stage a) 0 m.dev p.dev p.size l)
drained-bytes remap a t none m h =
    ap (λ d. (d, m.file)) (restaged m.dev (m.stage a) m.file t.dev t.blob t.size)
drained-bytes remap b t none m h =
    ap (λ d. (d, m.file)) (restaged m.dev (m.stage b) m.file t.dev t.blob t.size)
drained-bytes remap a t (some p) m h =
    ap (λ d. (d, m.file)) (restaged m.dev (m.stage a) m.file t.dev t.blob t.size)
drained-bytes remap b t (some p) m h =
    ap (λ d. (d, m.file)) (restaged m.dev (m.stage b) m.file t.dev t.blob t.size)

-- The wait after the loops.
pub final-bytes :
    (mode : Mode) (s : Side) (prev : Option Transfer) (m : Memory)
    → Ready mode m s prev
    → bytes (drained mode s prev m) ≡ carry mode (pending mode prev) (bytes m)
unfolding carry
final-bytes freeze s none m h = refl
final-bytes remap s none m h = refl
final-bytes freeze s (some p) m (q, c, l, k, i) =
    ap (λ f. (m.dev, f)) (put-source m.file p.blob (m.stage (other s)) 0 m.dev p.dev p.size l)
final-bytes remap s (some p) m h = refl

pub final-Idle :
    (mode : Mode) (s : Side) (prev : Option Transfer) (m : Memory)
    → Ready mode m s prev
    → Idle (drained mode s prev m)
final-Idle mode a none m (q, q', i) = (q, q', i)
final-Idle mode b none m (q, q', i) = (q', q, i)
final-Idle freeze a (some p) m (q, c, l, k, i) = (q, refl, i)
final-Idle freeze b (some p) m (q, c, l, k, i) = (refl, q, i)
final-Idle remap a (some p) m (q, c, l, k, i) = (q, refl, i)
final-Idle remap b (some p) m (q, c, l, k, i) = (refl, q, i)

pub carry-append :
    (mode : Mode) (ts us : List Transfer) (d : Bytes × Bytes)
    → carry mode (ts ++ us) d ≡ carry mode us (carry mode ts d)
unfolding carry
carry-append mode [] us d = refl
carry-append freeze (t ∷ ts) us (d, f) = carry-append freeze ts us _
carry-append remap (t ∷ ts) us (d, f) = carry-append remap ts us _

pub other-other : (s : Side) → other (other s) ≡ s
other-other a = refl
other-other b = refl

-- The event of the other buffer may be waited for.
abbrev pub Waitable : Memory → Side → Option Transfer → Type 0
Waitable m s none = Unit
Waitable m s (some t) = (m.covered (other s) ≡ true) × Moderate t × (m.running ≡ [])

pub Waitable-round :
    (mode : Mode) (s : Side) (t : Transfer) (prev : Option Transfer) (m : Memory)
    → Ready mode m s prev
    → Waitable (recorded s (started mode s t m)) s prev
Waitable-round mode s t none m h = tt
Waitable-round freeze a t (some p) m (q, c, l, k, i) = (c, k, i)
Waitable-round freeze b t (some p) m (q, c, l, k, i) = (c, k, i)
Waitable-round remap a t (some p) m (q, c, l, k, i) = (c, k, i)
Waitable-round remap b t (some p) m (q, c, l, k, i) = (c, k, i)

pub Waitable-last :
    (mode : Mode) (s : Side) (prev : Option Transfer) (m : Memory)
    → Ready mode m s prev
    → Waitable m s prev
Waitable-last mode s none m h = tt
Waitable-last mode s (some p) m (q, c, l, k, i) = (c, k, i)

pub settled-waited : (s : Side) (m : Memory) → (waited s m).settled s ≡ true
settled-waited a m = refl
settled-waited b m = refl

pub Ready-settled :
    (mode : Mode) (s : Side) (prev : Option Transfer) (m : Memory)
    → Ready mode m s prev
    → m.settled s ≡ true
Ready-settled mode s none m h = h.0
Ready-settled mode s (some p) m h = h.0

pub Ready-running :
    (mode : Mode) (s : Side) (prev : Option Transfer) (m : Memory)
    → Ready mode m s prev
    → m.running ≡ []
Ready-running mode s none m (q, q', i) = i
Ready-running mode s (some p) m (q, c, l, k, i) = i
