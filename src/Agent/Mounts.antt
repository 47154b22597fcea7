-- ===== src/Agent/Mounts.antt =====
-- The mount handling of internal/agent/checkpoint.go: `ensureMounted`, `isMountpoint`,
-- `ensureRealMount`, `unescapeMount` and `sanitizeMount`.
pub mod Escapes
pub mod Sanitizing
pub mod Covering
pub mod Mounting
use Prim.Native.Char.{Char, code}
use text.Mathlib.Text.{starts_with}
use k8s_native_fast_gpu_chec.Prelude.{
  ℕ, String, ◌<>◌, len, Bool, false, ◌&&◌, ◌||◌, Option, none, some, List, [], ◌∷◌, ◌++◌, Result,
  ok, err, Error, any, leb, nat_eq, ◌==◌, if◌then◌else◌,
}
use k8s_native_fast_gpu_chec.Effect.{Handler, World, perform, M}
use k8s_native_fast_gpu_chec.Effect.Fallible.{E, ◌>>=◌, ◌>>◌, check, lift, done, fail, same}
use k8s_native_fast_gpu_chec.Text.Trim.{trim, trim_space, fields, is_underscore, is_empty}
use k8s_native_fast_gpu_chec.Text.FilePath.{clean}
use k8s_native_fast_gpu_chec.Agent.Calls.{Op, Reply, mkdir_all, scan_lines, mount}
use k8s_native_fast_gpu_chec.Agent.Libs.{Libs}

-- The character that an escape `\abc` stands for in /proc/mounts.
unfoldable pub octal : ℕ → ℕ → ℕ → ℕ → Option Char
octal a b c d =
    if nat_eq a 92 && nat_eq b b'0' && nat_eq c b'4' && nat_eq d b'0'
    then some " "
    else if nat_eq a 92 && nat_eq b b'0' && nat_eq c b'1' && nat_eq d b'1'
    then some "\t"
    else if nat_eq a 92 && nat_eq b b'0' && nat_eq c b'1' && nat_eq d b'2'
    then some "\n"
    else if nat_eq a 92 && nat_eq b b'1' && nat_eq c b'3' && nat_eq d b'4'
    then some "\\"
    else none

-- `unescapeMount`: a replacer goes once from left to right.
unfoldable pub unescape_mount : String → String
unescape_mount (String.◌∷◌ a (String.◌∷◌ b (String.◌∷◌ c (String.◌∷◌ d s)))) =
    let replaced = unescape_mount s in
    let kept = unescape_mount (String.◌∷◌ b (String.◌∷◌ c (String.◌∷◌ d s))) in
    elim (octal (code a) (code b) (code c) (code d)) [
      | some e ↦ String.◌∷◌ e replaced
      | none ↦ String.◌∷◌ a kept
    ]
unescape_mount s = s

-- The replacer of `sanitizeMount`, on one character.
unfoldable pub safe_char : Char → Char
safe_char c =
    if nat_eq (code c) b'/' || nat_eq (code c) b':' || nat_eq (code c) b' ' then "_" else c

unfoldable pub safe_chars : String → String
unfolding safe_char
safe_chars String.[] = String.[]
safe_chars (String.◌∷◌ c s) = String.◌∷◌ (safe_char c) (safe_chars s)

-- `sanitizeMount`
unfoldable pub sanitize_mount : String → String
unfolding safe_chars
sanitize_mount s = trim is_underscore (safe_chars s)

-- The test of `isMountpoint` on the fields of one line.
unfoldable pub names_mountpoint : String → List String → Bool
unfolding unescape_mount octal
names_mountpoint p (device ∷ dir ∷ rest) = clean (unescape_mount dir) == p
names_mountpoint p other = false

-- `isMountpoint`, on what the scan of /proc/mounts gave.
unfoldable pub is_mountpoint_in : String → Result (List String) → Bool
unfolding names_mountpoint
is_mountpoint_in path (err t) = false
is_mountpoint_in path (ok lines) = any (λ line. names_mountpoint (clean path) (fields line)) lines

-- `best` and `bestFs` of `ensureRealMount`.
pub record Best : Type 0 where
  pub mountpoint : String
  pub fs : String

-- Whether the path `p` lies on the mount point `mp`.
unfoldable pub covers : String → String → Bool
covers p mp = mp == "/" || mp == p || starts_with (p <> "/") (mp <> "/")

-- One line of /proc/mounts in the loop of `ensureRealMount`.
unfoldable pub consider : String → Best → List String → Best
unfolding unescape_mount octal covers
consider p best (device ∷ dir ∷ fs ∷ rest) =
    let mp = clean (unescape_mount dir) in
    if covers p mp && leb (len best.mountpoint) (len mp)
    then record { mountpoint = mp; fs = fs }
    else best
consider p best other = best

unfoldable pub scan_best : String → Best → List String → Best
unfolding consider
scan_best p best [] = best
scan_best p best (line ∷ lines) = scan_best p (consider p best (fields line)) lines

-- The last test of `ensureRealMount`.
unfoldable pub is_ephemeral : Best → Bool
is_ephemeral best = best.mountpoint == "/" && (best.fs == "overlay" || best.fs == "overlayfs")

abbrev pub no_mount : Best
no_mount = record { mountpoint = ""; fs = "" }

-- The arguments of `mount` in `ensureMounted`.
unfoldable pub mount_args : String → String → String → String → List String
mount_args fs_type source options mnt =
    ("-t" ∷ fs_type ∷ [])
    ++ ((if is_empty (trim_space options) then [] else "-o" ∷ options ∷ []) ++ (source ∷ mnt ∷ []))

module _ (L : Libs) where
  -- `ensureRealMount`, on what the scan of /proc/mounts gave.
  unfoldable pub check_real_mount : String → Result (List String) → Error
  unfolding scan_best is_ephemeral
  check_real_mount path (err t) = none
  check_real_mount path (ok lines) =
      let p = clean path in
      let best = scan_best p no_mount lines in
      if is_ephemeral best
      then some (
          "storage path "
          <> L.quote p
          <> " is not a mounted volume — it maps to the agent's ephemeral container filesystem (overlay "
          <> L.quote best.mountpoint
          <> "). Declare a volume for this path in the DaemonSet, or use spec.storage.type: mount/nfs")
      else none

module _ (H : Handler Op Reply) where
  -- `isMountpoint`
  unfoldable pub is_mountpoint : String → M (World H) Bool
  is_mountpoint path w =
      let (lines, w') = perform H (scan_lines "/proc/mounts") w in (is_mountpoint_in path lines, w')

  -- `ensureRealMount`
  unfoldable pub ensure_real_mount : Libs → String → E (World H) (Unit {0})
  ensure_real_mount L path = check same (λ w.
      let (lines, w') = perform H (scan_lines "/proc/mounts") w in
      (check_real_mount L path lines, w'))

  -- The `mount` calls of `ensureMounted`: nfs is tried once more without options.
  unfoldable pub run_mount : String → String → String → String → M (World H) Error
  run_mount fs_type source options mnt w =
      let ((e, out), w₁) = perform H (mount (mount_args fs_type source options mnt)) w in
      let ((e', out'), w₂) = perform H (mount ("-t" ∷ fs_type ∷ source ∷ mnt ∷ [])) w₁ in
      elim e [
        | none ↦ (none, w₁)
        | some t ↦
            if fs_type == "nfs" || fs_type == "nfs4"
            then elim e' [
              | none ↦ (none, w₂)
              | some t' ↦ (
                some (
                    "mount failed: "
                    <> t
                    <> ": "
                    <> trim_space out
                    <> "; fallback: "
                    <> t'
                    <> ": "
                    <> trim_space out'),
                w₂,
              )
            ]
            else (
              some (
                  "mount -t "
                  <> fs_type
                  <> " "
                  <> source
                  <> " "
                  <> mnt
                  <> " failed: "
                  <> t
                  <> ": "
                  <> trim_space out),
              w₁,
            )
      ]

  -- The part of `ensureMounted` after its first test.
  unfoldable pub mount_new : String → String → String → String → E (World H) (Unit {0})
  mount_new fs_type source options mnt = do
    check same (perform H (mkdir_all mnt 0o755))
    check same (run_mount fs_type source options mnt)
    there ← lift (is_mountpoint mnt)
    if there
        then done tt
        else (fail ("mount reported success but " <> mnt <> " is not a mountpoint"))

  -- `ensureMounted`
  unfoldable pub ensure_mounted : String → String → String → String → E (World H) (Unit {0})
  ensure_mounted fs_type source options mnt = do
    mounted ← lift (is_mountpoint mnt)
    if mounted then done tt else mount_new fs_type source options mnt
