-- ===== src/Prelude/Results.antt =====
-- A Go call that returns `(T, error)`. An `error` is modelled by its text.
use Prim.Native.String.{String}
use mathlib.Core.Option.{Option, none, some}

pub data Result {ℓ} (A : Type ℓ) : Type ℓ where
  ok : A → Result A
  err : String → Result A

-- `error` alone: `none` is nil.
abbrev pub Error : Type 0
Error = Option String

abbrev pub error_of {ℓ} : {A : Type ℓ} → Result A → Error
error_of (ok a) = none
error_of (err e) = some e
