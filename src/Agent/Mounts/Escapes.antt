-- ===== src/Agent/Mounts/Escapes.antt =====
-- `unescapeMount` against the escaping that the kernel uses for mount points in /proc/mounts.
use Prim.Native.Char.{Char, code}
use text.Mathlib.TextEquality.{Char-path}
use k8s_native_fast_gpu_chec.Prelude.{
  ℕ, String, ◌≡◌, refl, sym, ap, ◌∙◌, nat_eq_iff, true, false, none, nat_eq, Bool-cases, inl, inr,
  if◌then◌else◌,
}
use k8s_native_fast_gpu_chec.Agent.Mounts.{octal, unescape_mount}

-- The backslash, the three digits, and the rest.
abbrev escape : Char → Char → Char → String → String
escape a b c rest = String.◌∷◌ "\\" (String.◌∷◌ a (String.◌∷◌ b (String.◌∷◌ c rest)))

-- The kernel writes space, tab, newline and backslash in octal, and all else as it is.
pub escape_mount : String → String
escape_mount String.[] = String.[]
escape_mount (String.◌∷◌ c s) =
    let rest = escape_mount s in
    if nat_eq (code c) 32
    then escape "0" "4" "0" rest
    else if nat_eq (code c) 9
    then escape "0" "1" "1" rest
    else if nat_eq (code c) 10
    then escape "0" "1" "2" rest
    else if nat_eq (code c) 92
    then escape "1" "3" "4" rest
    else String.◌∷◌ c rest

octal_plain : (a b c d : ℕ) → nat_eq a 92 ≡ false → octal a b c d ≡ none
unfolding octal
octal_plain a b c d h = rw h

-- A character that is no backslash is kept.
unescape_plain :
    (c : Char) (s : String)
    → nat_eq (code c) 92 ≡ false
    → unescape_mount (String.◌∷◌ c s) ≡ String.◌∷◌ c (unescape_mount s)
unfolding unescape_mount
unescape_plain c String.[] h = refl
unescape_plain c (String.◌∷◌ x String.[]) h = refl
unescape_plain c (String.◌∷◌ x (String.◌∷◌ y String.[])) h = refl
unescape_plain c (String.◌∷◌ x (String.◌∷◌ y (String.◌∷◌ z s))) h =
    rw (octal_plain (code c) (code x) (code y) (code z) h, unescape_mount)

same_char :
    (c d : Char) (s t : String)
    → nat_eq (code c) (code d) ≡ true
    → t ≡ s
    → String.◌∷◌ d t ≡ String.◌∷◌ c s
same_char c d s t e h =
    ap (λ x. String.◌∷◌ x t) (Char-path d c (sym ((nat_eq_iff (code c) (code d)).0 e)))
    ∙ ap (λ r. String.◌∷◌ c r) h

-- `unescapeMount` undoes the escapes of a path, whatever characters the path has. Nothing is said of the
-- line that it stands in, which `strings.Fields` splits first.
pub unescape-escape : (s : String) → unescape_mount (escape_mount s) ≡ s
unfolding escape_mount unescape_mount octal
unescape-escape String.[] = refl
unescape-escape (String.◌∷◌ c s) = elim (Bool-cases (nat_eq (code c) 32)) [
  | inl e ↦ rw e (same_char c " " s _ e (unescape-escape s))
  | inr n₁ ↦ rw n₁ (elim (Bool-cases (nat_eq (code c) 9)) [
    | inl e ↦ rw e (same_char c "\t" s _ e (unescape-escape s))
    | inr n₂ ↦ rw n₂ (elim (Bool-cases (nat_eq (code c) 10)) [
      | inl e ↦ rw e (same_char c "\n" s _ e (unescape-escape s))
      | inr n₃ ↦ rw n₃ (elim (Bool-cases (nat_eq (code c) 92)) [
        | inl e ↦ rw e (same_char c "\\" s _ e (unescape-escape s))
        | inr n₄ ↦
            rw n₄
              (unescape_plain c (escape_mount s) n₄ ∙ ap (λ r. String.◌∷◌ c r) (unescape-escape s))
      ])
    ])
  ])
]
