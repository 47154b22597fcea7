-- ===== src/Shim/Gate/Reachable.antt =====
-- interceptor/preload.c: the steps of the watcher and of the program's threads, in any order.
use k8s_native_fast_gpu_chec.Prelude.{ℕ, String, Bool, ◌≡◌}
use k8s_native_fast_gpu_chec.Effect.{Handler, World}
use k8s_native_fast_gpu_chec.Shim.Calls.{Op, Reply}
use k8s_native_fast_gpu_chec.Shim.Owned.{Owned}
use k8s_native_fast_gpu_chec.Shim.Owned.Ledger.{Ledger}
use k8s_native_fast_gpu_chec.Shim.Engine.{Engine}
use k8s_native_fast_gpu_chec.Shim.Watcher.{Process, Paths, watcher_round}
use k8s_native_fast_gpu_chec.Shim.Hooks.{cuda_malloc, cuda_free, launch_kernel}
use k8s_native_fast_gpu_chec.Shim.Gate.{Gated}

module _ (H : Handler Op Reply) (has : String → Bool) where
  abbrev AnswerGated : {A : Type 0} → (A × Process) × World H → Type 0
  AnswerGated ((x, p), w) = Gated p.engine

-- One step of the process: a round of the watcher, an allocation or a free by one of the program's
-- threads, a launch by a thread that has passed the gate at any time before, or a change of the other
-- tables. A test of the gate changes nothing.
pub data Step (H : Handler Op Reply) (has : String → Bool) (paths : Paths)
    : Process × World H → Process × World H → Type 0 where
  watches : (p : Process) (w : World H) → Step H has paths (p, w) (watcher_round H has paths p w)
  mallocs :
      (out : Bool) (n : ℕ) (p : Process) (w : World H)
      → Step H has paths (p, w) ((cuda_malloc H has out n p w).0.1, (cuda_malloc H has out n p w).1)
  frees :
      (ptr : ℕ) (p : Process) (w : World H)
      → Step H has paths (p, w) ((cuda_free H has ptr p w).0.1, (cuda_free H has ptr p w).1)
  launches :
      (name : String) (p : Process) (w : World H)
      → Step H has paths (p, w) (p, (launch_kernel H name w).1)
  observes :
      (p p' : Process) (w w' : World H) → p'.engine ≡ p.engine → Step H has paths (p, w) (p', w')

pub data Reach (H : Handler Op Reply) (has : String → Bool) (paths : Paths) (s : Process × World H)
    : Process × World H → Type 0 where
  here : Reach H has paths s s
  then_step :
      {t u : Process × World H}
      → Reach H has paths s t
      → Step H has paths t u
      → Reach H has paths s u
