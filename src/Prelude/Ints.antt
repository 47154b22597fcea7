-- ===== src/Prelude/Ints.antt =====
-- Signed integers over the native numbers, and the machine widths that the program uses.
use Prim.Native.Nat.{ℕ, ◌+◌, ◌-◌, ◌%◌}
use mathlib.Core.Bool.{Bool, false, ◌&&◌}
use k8s_native_fast_gpu_chec.Prelude.Tests.{leb, ltb, if◌then◌else◌}

-- `negsuc n` is -(n + 1).
pub data ℤ : Type 0 where
  pos : ℕ → ℤ
  negsuc : ℕ → ℤ

-- a - b, as an integer.
abbrev pub sub_ℕ : ℕ → ℕ → ℤ
sub_ℕ a b = if leb b a then pos (a - b) else negsuc (b - a - 1)

abbrev pub is_pos : ℤ → Bool
is_pos (pos n) = ltb 0 n
is_pos (negsuc n) = false

-- `n++` on an int32 and on an int64, kept as the bit pattern.
abbrev pub inc32 : ℕ → ℕ
inc32 n = (n + 1) % 4294967296

abbrev pub inc64 : ℕ → ℕ
inc64 n = (n + 1) % 18446744073709551616

abbrev pub add32 : ℕ → ℕ → ℕ
add32 a b = (a + b) % 4294967296

-- `n > 0` for an int32 given as its bit pattern.
abbrev pub is_pos32 : ℕ → Bool
is_pos32 n = ltb 0 n && ltb n 2147483648
