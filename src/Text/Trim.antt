-- ===== src/Text/Trim.antt =====
-- `strings.TrimSpace`, `Trim`, `TrimRight`, `TrimSuffix` and `Fields`.
use Prim.Native.Char.{Char, code}
use k8s_native_fast_gpu_chec.Prelude.{
  ℕ, String, ◌<>◌, Bool, true, false, ◌&&◌, ◌||◌, List, [], ◌∷◌, leb, nat_eq, ◌==◌, if◌then◌else◌,
}

-- `unicode.IsSpace`
unfoldable pub is_space : ℕ → Bool
is_space c =
    leb 9 c && leb c 13
    || nat_eq c 32
    || nat_eq c 133
    || nat_eq c 160
    || nat_eq c 5760
    || leb 8192 c && leb c 8202
    || nat_eq c 8232
    || nat_eq c 8233
    || nat_eq c 8239
    || nat_eq c 8287
    || nat_eq c 12288

unfoldable pub is_slash : ℕ → Bool
is_slash c = nat_eq c b'/'

unfoldable pub is_underscore : ℕ → Bool
is_underscore c = nat_eq c b'_'

abbrev pub is_empty : String → Bool
is_empty String.[] = true
is_empty (String.◌∷◌ c s) = false

module _ (p : ℕ → Bool) where
  unfoldable pub trim_left : String → String
  trim_left String.[] = String.[]
  trim_left (String.◌∷◌ c s) = if p (code c) then trim_left s else String.◌∷◌ c s

  -- Drops a final run of characters that the test accepts.
  unfoldable pub trim_right : String → String
  trim_right String.[] = String.[]
  trim_right (String.◌∷◌ c s) =
      let rest = trim_right s in
      if p (code c) && is_empty rest then String.[] else String.◌∷◌ c rest

  unfoldable pub trim : String → String
  unfolding trim_left trim_right
  trim s = trim_right (trim_left s)

unfoldable pub trim_space : String → String
unfolding trim is_space
trim_space s = trim is_space s

-- `strings.TrimSuffix(s, suffix)`, for a suffix that is not empty.
unfoldable pub trim_suffix : String → String → String
trim_suffix suffix String.[] = String.[]
trim_suffix suffix (String.◌∷◌ c s) =
    let whole = String.◌∷◌ c s in
    if whole == suffix then String.[] else String.◌∷◌ c (trim_suffix suffix s)

abbrev push : String → Char → String
push s c = s <> String.◌∷◌ c String.[]

abbrev pub flush : String → List String → List String
flush cur rest = if is_empty cur then rest else cur ∷ rest

-- `strings.Fields`: the runs of characters that are no white space. `cur` is the run being read.
fields_from : String → String → List String
fields_from cur String.[] = flush cur []
fields_from cur (String.◌∷◌ c s) =
    let spaced = flush cur (fields_from "" s) in
    let longer = fields_from (push cur c) s in if is_space (code c) then spaced else longer

unfoldable pub fields : String → List String
unfolding fields_from is_space
fields s = fields_from "" s
