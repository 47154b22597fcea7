-- ===== src/Effect.antt =====
-- Programs that call the outside world. A component's calls are the constructors of a type `Op`, and
-- `Reply o` is what the call `o` answers. A `Handler` is any world that answers them: the operating
-- system, the kubelet, the API server, other processes and the clock. The world also keeps the
-- events so far, newest first.
pub mod Fallible
pub mod Blocks
use k8s_native_fast_gpu_chec.Prelude.{List, ◌∷◌}

pub record Handler (Op : Type 0) (Reply : Op → Type 0) : Type 1 where
  pub State : Type 0
  pub handle : (o : Op) → State → Reply o × State

-- A program over a state `W`.
abbrev pub M : Type 0 → Type 0 → Type 0
M W A = W → A × W

abbrev pub pure : {W A : Type 0} → A → M W A
pure a w = (a, w)

infixl 5 ◌>>=◌ ◌>>◌
abbrev pub ◌>>=◌ : {W A B : Type 0} → M W A → (A → M W B) → M W B
◌>>=◌ m f w = let (a, w') = m w in f a w'

abbrev pub ◌>>◌ : {W A B : Type 0} → M W A → M W B → M W B
m >> k = m >>= λ _. k

module _ (Op : Type 0) (Reply : Op → Type 0) where
  abbrev pub Event : Type 0
  Event = (o : Op) × Reply o

module _ {Op : Type 0} {Reply : Op → Type 0} (H : Handler Op Reply) where
  pub record World : Type 0 where
    pub state : H.State
    pub trace : List (Event Op Reply)

  unfoldable pub perform : (o : Op) → M World (Reply o)
  perform o w =
      let (r, s) = H.handle o w.state in (r, record { state = s; trace = (o, r) ∷ w.trace })
