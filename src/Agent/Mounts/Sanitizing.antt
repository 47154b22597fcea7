-- ===== src/Agent/Mounts/Sanitizing.antt =====
-- `sanitizeMount`: what its result holds, and what it does not tell apart.
use Prim.Native.Char.{Char, code}
use text.Mathlib.TextLemmas.{nil-append, cons-append}
use k8s_native_fast_gpu_chec.Prelude.{
  ℕ, String, ◌<>◌, ◌≡◌, ◌≢◌, refl, ap, Bool, ◌||◌, nat_eq, arith, [], ◌∷◌, Bool-cases, inl, inr,
}
use k8s_native_fast_gpu_chec.Text.Trim.{trim, trim_left, trim_right, is_underscore}
use k8s_native_fast_gpu_chec.Text.FilePath.{join}
use k8s_native_fast_gpu_chec.Agent.Mounts.{safe_char, safe_chars, sanitize_mount}
use k8s_native_fast_gpu_chec.Agent.Storage.{mount_point}

-- No slash, colon or space: a single component of a path.
abbrev pub IsComponent : String → Type 0
IsComponent String.[] = Unit
IsComponent (String.◌∷◌ c s) = (code c ≢ b'/') × (code c ≢ b':') × (code c ≢ b' ') × IsComponent s

safe_char-code :
    (c : Char)
    → (code (safe_char c) ≢ b'/') × (code (safe_char c) ≢ b':') × (code (safe_char c) ≢ b' ')
unfolding safe_char
safe_char-code c =
    elim (Bool-cases (nat_eq (code c) 47 || nat_eq (code c) 58 || nat_eq (code c) 32)) [
      | inl e ↦ rw e (omega arith)
      | inr n ↦ rw n (ground arith)
    ]

safe_chars-IsComponent : (s : String) → IsComponent (safe_chars s)
unfolding safe_chars
safe_chars-IsComponent String.[] = tt
safe_chars-IsComponent (String.◌∷◌ c s) =
    let (a, b, d) = safe_char-code c in (a, b, d, safe_chars-IsComponent s)

trim_left-IsComponent : (p : ℕ → Bool) (s : String) → IsComponent s → IsComponent (trim_left p s)
unfolding trim_left
trim_left-IsComponent p String.[] h = h
trim_left-IsComponent p (String.◌∷◌ c s) h = ground (arith, trim_left-IsComponent p s)

trim_right-IsComponent : (p : ℕ → Bool) (s : String) → IsComponent s → IsComponent (trim_right p s)
unfolding trim_right
trim_right-IsComponent p String.[] h = h
trim_right-IsComponent p (String.◌∷◌ c s) h = ground (arith, trim_right-IsComponent p s)

-- The result is one path component without slash, colon or space, whatever the source.
pub sanitize_mount-IsComponent : (s : String) → IsComponent (sanitize_mount s)
unfolding sanitize_mount trim
sanitize_mount-IsComponent s =
    trim_right-IsComponent is_underscore _
      (trim_left-IsComponent is_underscore _ (safe_chars-IsComponent s))

safe_chars-append : (s t : String) → safe_chars (s <> t) ≡ safe_chars s <> safe_chars t
unfolding safe_chars
safe_chars-append String.[] t = rw (nil-append, nil-append)
safe_chars-append (String.◌∷◌ c s) t =
    rw (cons-append, cons-append) (ap (λ r. String.◌∷◌ (safe_char c) r) (safe_chars-append s t))

safe_chars_slash : (t : String) → safe_chars ("/" <> t) ≡ safe_chars ("_" <> t)
unfolding safe_chars
safe_chars_slash t = rw safe_chars-append (rw safe_chars-append refl)

-- Two sources that differ only in a slash against an underscore have one and the same mount point,
-- so each source does not get a directory of its own.
pub mount_point_shared :
    (fs_type a b : String)
    → mount_point fs_type (a <> ("/" <> b)) ≡ mount_point fs_type (a <> ("_" <> b))
unfolding mount_point sanitize_mount
mount_point_shared fs_type a b =
    ap (λ t. join ("/var/lib/gpu-cr/mnt" ∷ trim is_underscore t ∷ [])) same_chars
  where
    same_chars :
        safe_chars (fs_type <> ("_" <> (a <> ("/" <> b))))
        ≡ safe_chars (fs_type <> ("_" <> (a <> ("_" <> b))))
    same_chars = simp (safe_chars-append, safe_chars_slash)
