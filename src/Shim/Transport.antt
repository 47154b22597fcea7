-- ===== src/Shim/Transport.antt =====
-- interceptor/preload.c: `memcpy_mt` makes one copy, whatever threads could be started.
pub mod Rounds
pub mod Pipeline
pub mod Serial
pub mod Choice
use k8s_native_fast_gpu_chec.Prelude.{
  ℕ, zero, suc, ◌+◌, ◌-◌, ◌*◌, ◌/◌, ◌≤◌, ◌<◌, Bool, true, false, ◌&&◌, List, [], ◌∷◌, ◌++◌, ◌≡◌,
  refl, sym, ap, ◌∙◌, inl, inr, All, All-append, length, ltb, leb, if◌then◌else◌, Bool-cases, arith,
}
use mathlib.Core.Path.{fun_ext, subst}
use k8s_native_fast_gpu_chec.Effect.{Handler, World, ◌>>=◌, ◌>>◌, perform}
use k8s_native_fast_gpu_chec.Shim.Calls.{
  Op, Reply, Side, a, b, Mode, freeze, remap, host_memcpy, pthread_create, pthread_join,
}
use k8s_native_fast_gpu_chec.Shim.Registry.{add64}
use k8s_native_fast_gpu_chec.Shim.Copying.{
  memcpy_mt, copy_pieces, copy_piece, join_threads, gcr_copy_threads,
}
use k8s_native_fast_gpu_chec.Shim.Machine.{
  Bytes, put, on, Memory, host_copied, Clear, with_running, but_first, spawned, Machine, memory,
  law,
}

pub put-none : (dst : Bytes) (at : ℕ) (src : Bytes) (from : ℕ) → put dst at src from 0 ≡ dst
unfolding put
put-none dst at src from = fun_ext λ x. ground arith

-- Two neighbouring pieces are one.
pub put-put :
    (dst : Bytes) (at : ℕ) (src : Bytes) (from m n at' from' : ℕ)
    → at' ≡ at + m
    → from' ≡ from + m
    → put (put dst at src from m) at' src from' n ≡ put dst at src from (m + n)
unfolding put
put-put dst at src from m n at' from' p q = fun_ext λ x.
    elim (Bool-cases (leb at x && ltb x (at + m))) [ inl h ↦ ground arith | inr h ↦ ground arith ]

suc_mul : (i n : ℕ) → suc i * n ≡ i * n + n
suc_mul i n = grind arith

module _ (at : ℕ) (m : Memory) where
  on_same : (s : Side) (v : Bytes) (f : Side → Bytes) → on s v f s ≡ v
  on_same a v f = refl
  on_same b v f = refl

  on_on : (s : Side) (u v : Bytes) (f : Side → Bytes) → on s u (on s v f) ≡ on s u f
  on_on a u v f =
      fun_ext λ t. elim t as (λ t. on a u (on a v f) t ≡ on a u f t) [ a ↦ refl | b ↦ refl ]
  on_on b u v f =
      fun_ext λ t. elim t as (λ t. on b u (on b v f) t ≡ on b u f t) [ a ↦ refl | b ↦ refl ]

  on_self : (s : Side) (f : Side → Bytes) → on s (f s) f ≡ f
  on_self a f = fun_ext λ t. elim t as (λ t. on a (f a) f t ≡ f t) [ a ↦ refl | b ↦ refl ]
  on_self b f = fun_ext λ t. elim t as (λ t. on b (f b) f t ≡ f t) [ a ↦ refl | b ↦ refl ]

  pub host_copied-none : (mode : Mode) (s : Side) → host_copied mode s 0 at 0 m ≡ m
  host_copied-none freeze s = rw (put-none m.file at (m.stage s) 0) refl
  host_copied-none remap s = rw (put-none (m.stage s) 0 m.file at, on_self s m.stage) refl

  pub host_copied-host_copied :
      (mode : Mode) (s : Side) (n k : ℕ)
      → host_copied mode s n (at + n) k (host_copied mode s 0 at n m)
        ≡ host_copied mode s 0 at (n + k) m
  host_copied-host_copied freeze s n k =
      rw (put-put m.file at (m.stage s) 0 n k (at + n) n refl (omega arith)) refl
  host_copied-host_copied remap s n k =
      rw (on_same s, on_on s, put-put (m.stage s) 0 m.file at n k n (at + n) (omega arith) refl)
        refl

  pub settled-host_copied :
      (mode : Mode) (s : Side) (pos n : ℕ) → (host_copied mode s pos at n m).settled ≡ m.settled
  settled-host_copied freeze s pos n = refl
  settled-host_copied remap s pos n = refl

-- How much is copied once the pieces below `o` are.
abbrev upto : ℕ → ℕ → ℕ
upto n o = if leb n o then n else o

upto_start : (n per : ℕ) → 0 ≡ upto n (0 * per)
upto_start n per = ground arith

-- Running copies do not matter to what a copy leaves.
host_copied-with_running :
    (mode : Mode) (s : Side) (pos at n : ℕ) (rs : List (ℕ × ℕ)) (m : Memory)
    → host_copied mode s pos at n (with_running rs m)
      ≡ with_running rs (host_copied mode s pos at n m)
host_copied-with_running freeze s pos at n rs m = refl
host_copied-with_running remap s pos at n rs m = refl

with_none : (m : Memory) → m.running ≡ [] → with_running [] m ≡ m
with_none m h = ap (λ rs. with_running rs m) (sym h)

-- The number of running threads is `t`, their parts end at `pos` and at `at`, and what they copy is in `m`.
record Under (t pos at : ℕ) (m m' : Memory) : Type 0 where
  rs : List (ℕ × ℕ)
  many : length rs ≡ t
  clear : Clear pos at rs
  seen : m' ≡ with_running rs m

length-snoc : {A : Type 0} (xs : List A) (x : A) → length (xs ++ x ∷ []) ≡ suc (length xs)
length-snoc [] x = refl
length-snoc (y ∷ xs) x = ap (λ n. suc n) (length-snoc xs x)

Clear-le :
    (pos pos' at at' : ℕ) (rs : List (ℕ × ℕ))
    → pos ≤ pos'
    → at ≤ at'
    → Clear pos at rs
    → Clear pos' at' rs
Clear-le pos pos' at at' [] h k c = tt
Clear-le pos pos' at at' (r ∷ rs) h k ((x, y), c) =
    ((omega arith, omega arith), Clear-le pos pos' at at' rs h k c)

module _ (H : Handler Op Reply) (machine : Machine H) (mode : Mode) (s : Side) where
  copy_piece-Under :
      (pos at n t : ℕ) (m : Memory) (w : World H)
      → m.settled s ≡ true
      → Under t pos at m (memory machine w)
      → let (t', w') = copy_piece H mode s pos at n t w in
        Under t' (pos + n) (at + n) (host_copied mode s pos at n m) (memory machine w')
  unfolding copy_piece
  copy_piece-Under pos at n t m w q u =
      let o = pthread_create mode s pos at n in
      let r = perform H o w in
      let q' : (memory machine w).settled s ≡ true = ap (λ z. z.settled s) u.seen ∙ q in
      let c' : Clear pos at (memory machine w).running =
        subst (λ z. Clear pos at z.running) (sym u.seen) u.clear in
      let later = Clear-le pos (pos + n) at (at + n) u.rs (omega arith) (omega arith) u.clear in
      let copied = host_copied-with_running mode s pos at n u.rs m in
      elim (Bool-cases r.0) [
        | inl h ↦ rw h (record {
          rs = u.rs ++ (pos + n, at + n) ∷ [];
          many = length-snoc u.rs (pos + n, at + n) ∙ ap (λ k. suc k) u.many;
          clear =
              All-append (λ (z : ℕ × ℕ). (z.0 ≤ pos + n) × (z.1 ≤ at + n)) u.rs _ later
                ((omega arith, omega arith), tt);
          seen =
              rw h at (law machine o w q' c')
              ∙ ap (spawned mode s pos at n) u.seen
              ∙ ap (with_running (u.rs ++ (pos + n, at + n) ∷ [])) copied;
        })
        | inr h ↦
            let same : memory machine r.1 ≡ memory machine w = rw h at (law machine o w q' c') in
            rw h (record {
              rs = u.rs;
              many = u.many;
              clear = later;
              seen =
                  law machine (host_memcpy mode s pos at n) r.1 (ap (λ z. z.settled s) same ∙ q')
                    (subst (λ z. Clear pos at z.running) (sym same) c')
                  ∙ ap (host_copied mode s pos at n) (same ∙ u.seen)
                  ∙ copied;
            })
      ]

  -- After the joins no thread runs.
  join_threads-memory :
      (rs : List (ℕ × ℕ)) (m : Memory) (w : World H)
      → memory machine w ≡ with_running rs m
      → memory machine (join_threads H (length rs) w).1 ≡ with_running [] m
  unfolding join_threads
  join_threads-memory [] m w e = e
  join_threads-memory (r ∷ rs) m w e =
      join_threads-memory rs m (perform H pthread_join w).1
        (law machine pthread_join w ∙ ap (λ z. with_running (but_first z.running) z) e)

  copy_pieces-Under :
      (k i at n per t : ℕ) (m : Memory) (w : World H)
      → n ≤ i * per + k * per
      → m.settled s ≡ true
      → Under t
          (i * per)
          (at + i * per)
          (host_copied mode s 0 at (upto n (i * per)) m)
          (memory machine w)
      → let (t', w') = copy_pieces H k mode s at n per i t w in
        (pos : ℕ) × (end : ℕ) × Under t' pos end (host_copied mode s 0 at n m) (memory machine w')
  unfolding copy_pieces
  copy_pieces-Under zero i at n per t m w h q u =
      let all : upto n (i * per) ≡ n = ground arith in
      (
        i * per,
        at + i * per,
        subst
            (λ c. Under t (i * per) (at + i * per) (host_copied mode s 0 at c m) (memory machine w))
            all u,
      )
  copy_pieces-Under (suc k) i at n per t m w h q u = elim (Bool-cases (leb n (i * per))) [
    | inl past ↦
        let all : upto n (i * per) ≡ n = rw past refl in
        rw past (
          i * per,
          at + i * per,
          subst
              (λ c.
                Under t (i * per) (at + i * per) (host_copied mode s 0 at c m) (memory machine w))
              all u,
        )
    | inr more ↦
        let o = i * per in
        let c = if ltb (n - o) per then n - o else per in
        let part : upto n o ≡ o = rw more refl in
        let u' : Under t o (at + o) (host_copied mode s 0 at o m) (memory machine w) =
          subst (λ c. Under t o (at + o) (host_copied mode s 0 at c m) (memory machine w)) part u in
        let q' : (host_copied mode s 0 at o m).settled s ≡ true =
          ap (λ f. f s) (settled-host_copied at m mode s 0 o) ∙ q in
        let r = copy_piece H mode s o (at + o) c t w in
        let v = copy_piece-Under o (at + o) c t (host_copied mode s 0 at o m) w q' u' in
        let upto_next : o + c ≡ upto n (suc i * per) = ground (arith, suc_mul i per) in
        let next : Under r.0 (suc i * per) (at + suc i * per)
            (host_copied mode s 0 at (upto n (suc i * per)) m) (memory machine r.1) =
          record {
            rs = v.rs;
            many = v.many;
            clear =
                Clear-le (o + c) (suc i * per) (at + o + c) (at + suc i * per) v.rs
                  (ground (arith, suc_mul i per)) (ground (arith, suc_mul i per)) v.clear;
            seen =
                v.seen
                ∙ ap (with_running v.rs) (
                    host_copied-host_copied at m mode s o c
                    ∙ ap (λ c. host_copied mode s 0 at c m) upto_next);
          } in
        rw more (
          copy_pieces-Under k (suc i) at n per r.0 m r.1
            (omega (arith, suc_mul i per, suc_mul k per)) q next)
  ]

  -- `memcpy_mt` is one copy of `n` bytes, whichever of its threads could be started, and has joined
  -- them all.
  pub memcpy_mt-memory :
      (at n : ℕ) (w : World H)
      → n < 18446744073709551613
      → (memory machine w).settled s ≡ true
      → (memory machine w).running ≡ []
      → memory machine (memcpy_mt H mode s at n w).1 ≡ host_copied mode s 0 at n (memory machine w)
  unfolding memcpy_mt
  memcpy_mt-memory at n w h q none_runs = elim (Bool-cases (ltb n 8388608)) [
    | inl small ↦
        rw small
          (law machine (host_memcpy mode s 0 at n) w q (subst (Clear 0 at) (sym none_runs) tt))
    | inr big ↦
        let per = add64 n 3 / gcr_copy_threads in
        let m = memory machine w in
        let r = copy_pieces H gcr_copy_threads mode s at n per 0 0 w in
        let start : Under 0 (0 * per) (at + 0 * per) (host_copied mode s 0 at (upto n (0 * per)) m)
            m =
          record {
            rs = [];
            many = refl;
            clear = tt;
            seen =
                sym (with_none m none_runs)
                ∙ ap (with_running []) (
                    sym (host_copied-none at m mode s)
                    ∙ ap (λ c. host_copied mode s 0 at c m) (upto_start n per));
          } in
        let (pos, end, u) =
          copy_pieces-Under gcr_copy_threads 0 at n per 0 m w (omega arith) q start in
        let joined : memory machine (join_threads H r.0 r.1).1
            ≡ with_running [] (host_copied mode s 0 at n m) =
          subst
            (λ t.
              memory machine (join_threads H t r.1).1
              ≡ with_running [] (host_copied mode s 0 at n m))
            u.many (join_threads-memory u.rs (host_copied mode s 0 at n m) r.1 u.seen) in
        rw big (
          joined
          ∙ sym (host_copied-with_running mode s 0 at n [] m)
          ∙ ap (host_copied mode s 0 at n) (with_none m none_runs))
  ]
