-- ===== src/Effect/Fallible.antt =====
-- Programs whose Go originals return `(T, error)`: a `do` block stops at the first error.
use k8s_native_fast_gpu_chec.Prelude.{Result, ok, err, String, Option, none, some}
use k8s_native_fast_gpu_chec.Effect.{M}

abbrev pub E : Type 0 → Type 0 → Type 0
E W A = W → Result A × W

abbrev pub fail : {W A : Type 0} → String → E W A
fail t w = (err t, w)

abbrev pub done : {W A : Type 0} → A → E W A
done a w = (ok a, w)

-- The rest of a block, after a step that gave `r`.
abbrev pub continue : {W A B : Type 0} → Result A → (A → E W B) → E W B
continue (ok a) f w = f a w
continue (err t) f w = (err t, w)

infixl 5 ◌>>=◌ ◌>>◌
abbrev pub ◌>>=◌ : {W A B : Type 0} → E W A → (A → E W B) → E W B
◌>>=◌ m f w = let (r, w') = m w in continue r f w'

abbrev pub ◌>>◌ : {W B : Type 0} → E W (Unit {0}) → E W B → E W B
m >> k = m >>= λ _. k

-- A step that cannot fail.
abbrev pub lift : {W A : Type 0} → M W A → E W A
lift m w = let (a, w') = m w in (ok a, w')

abbrev pub as_result : (String → String) → Option String → Result (Unit {0})
as_result wrap none = ok tt
as_result wrap (some t) = err (wrap t)

abbrev pub rewrap : {A : Type 0} → (String → String) → Result A → Result A
rewrap wrap (ok a) = ok a
rewrap wrap (err t) = err (wrap t)

-- `if err := step; err != nil { return wrap(err) }`
abbrev pub check : {W : Type 0} → (String → String) → M W (Option String) → E W (Unit {0})
check wrap m w = let (e, w') = m w in (as_result wrap e, w')

-- `x, err := step; if err != nil { return wrap(err) }`
abbrev pub attempt : {W A : Type 0} → (String → String) → M W (Result A) → E W A
attempt wrap m w = let (r, w') = m w in (rewrap wrap r, w')

abbrev pub same : String → String
same t = t
