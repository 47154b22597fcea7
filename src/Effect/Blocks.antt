-- ===== src/Effect/Blocks.antt =====
-- What the success of a block of fallible steps says of its steps.
use k8s_native_fast_gpu_chec.Prelude.{String, ◌≡◌, refl, Result, ok, err}
use k8s_native_fast_gpu_chec.Effect.Fallible.{E, continue, rewrap}

-- A block that succeeds has a first step that succeeds.
pub continue-ok :
    {W A B : Type 0} (x : Result A) (f : A → E W B) (w : W) {b : B}
    → (continue x f w).0 ≡ ok b
    → (a : A) × (x ≡ ok a) × ((f a w).0 ≡ ok b)
continue-ok (ok a) f w h = (a, refl, h)
continue-ok (err t) f w h = cc

pub ok-inj : {A : Type 0} {a b : A} → ok a ≡ ok b → a ≡ b
ok-inj h = cc

pub err-ok : {A : Type 0} {t : String} {a : A} → err t ≡ ok a → ⊥
err-ok h = cc

pub rewrap-ok :
    {A : Type 0} (wrap : String → String) (x : Result A) {a : A} → rewrap wrap x ≡ ok a → x ≡ ok a
rewrap-ok wrap (ok a) h = h
rewrap-ok wrap (err t) h = cc

pub continue_runs :
    {W A B : Type 0} (x : Result A) (f : A → E W B) (w : W) {a : A}
    → x ≡ ok a
    → continue x f w ≡ f a w
continue_runs x f w e = rw e refl
