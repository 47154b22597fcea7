-- ===== src/Text/Decimal.antt =====
-- `%d` of `fmt.Sprintf`.
use k8s_native_fast_gpu_chec.Prelude.{
  ℕ, zero, suc, ◌+◌, ◌-◌, ◌/◌, ◌%◌, String, ◌<>◌, ℤ, pos, negsuc, ltb, if◌then◌else◌,
}

digit : ℕ → String
digit zero = "0"
digit (suc zero) = "1"
digit (suc (suc zero)) = "2"
digit (suc (suc (suc zero))) = "3"
digit (suc (suc (suc (suc zero)))) = "4"
digit (suc (suc (suc (suc (suc zero))))) = "5"
digit (suc (suc (suc (suc (suc (suc zero)))))) = "6"
digit (suc (suc (suc (suc (suc (suc (suc zero))))))) = "7"
digit (suc (suc (suc (suc (suc (suc (suc (suc zero)))))))) = "8"
digit (suc (suc (suc (suc (suc (suc (suc (suc (suc n))))))))) = "9"

-- Each round takes one digit off, so `n + 1` rounds are more than enough.
print_from : ℕ → ℕ → String
print_from zero n = ""
print_from (suc fuel) n =
    let higher = print_from fuel (n / 10) <> digit (n % 10) in if ltb n 10 then digit n else higher

unfoldable pub print_ℕ : ℕ → String
unfolding print_from digit
print_ℕ n = print_from (n + 1) n

unfoldable pub print_ℤ : ℤ → String
unfolding print_ℕ
print_ℤ (pos n) = print_ℕ n
print_ℤ (negsuc n) = "-" <> print_ℕ (n + 1)

-- An int32 given as its bit pattern.
unfoldable pub print_i32 : ℕ → String
unfolding print_ℕ
print_i32 n = if ltb n 2147483648 then print_ℕ n else "-" <> print_ℕ (4294967296 - n)
