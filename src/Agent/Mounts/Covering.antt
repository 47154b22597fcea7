-- ===== src/Agent/Mounts/Covering.antt =====
-- `ensureRealMount` of internal/agent/checkpoint.go, against the mounts that cover the path.
use mathlib.Core.Path.{subst}
use text.Mathlib.TextEquality.{starts_with_iff}
use text.Mathlib.TextBridge.{IsPrefix}
use k8s_native_fast_gpu_chec.Prelude.{
  ◌<>◌, ◌↔◌, ◌≤◌, ◌<◌, String, len, ◌≡◌, refl, sym, ap, ◌⊎◌, inl, inr, ◌≢◌, true, false, ◌&&◌,
  Option, none, some, List, [], ◌∷◌, ok, leb, ◌==◌, if◌then◌else◌, arith, eq_iff, All, Any,
  Bool-cases,
}
use k8s_native_fast_gpu_chec.Text.Trim.{fields}
use k8s_native_fast_gpu_chec.Text.FilePath.{clean}
use k8s_native_fast_gpu_chec.Agent.Libs.{Libs}
use k8s_native_fast_gpu_chec.Agent.Mounts.{
  unescape_mount, Best, covers, consider, scan_best, is_ephemeral, no_mount, check_real_mount,
}

-- The mount point and the file system type of a line that has them.
abbrev pub entry : List String → Option Best
entry (device ∷ dir ∷ fs ∷ rest) =
    some (record { mountpoint = clean (unescape_mount dir); fs = fs })
entry _ = none

-- The path `p` is the mount point or lies below it: it starts with the mount point and a slash.
abbrev pub LiesOn : String → String → Type 0
LiesOn p mp = (mp ≡ "/") ⊎ (p ≡ mp) ⊎ IsPrefix (mp <> "/") (p <> "/")

-- The line mounts `e`, and the path lies on it.
abbrev pub Covers : String → Best → String → Type 0
Covers p e line = (entry (fields line) ≡ some e) × LiesOn p e.mountpoint

covers_iff : (p mp : String) → (covers p mp ≡ true) ↔ LiesOn p mp
unfolding covers
covers_iff p mp = (
  λ h. elim (Bool-cases (mp == "/")) [
    | inl root ↦ inl ((eq_iff mp "/").0 root)
    | inr below ↦ elim (Bool-cases (mp == p)) [
      | inl same ↦ inr (inl (sym ((eq_iff mp p).0 same)))
      | inr other ↦ inr (inr ((starts_with_iff (p <> "/") (mp <> "/")).0 (rw (below, other) at h)))
    ]
  ],
  λ h. elim h [
    | inl root ↦ ground (arith, (eq_iff mp "/").1 root)
    | inr (inl same) ↦ ground (arith, (eq_iff mp p).1 (sym same))
    | inr (inr pre) ↦ ground (arith, (starts_with_iff (p <> "/") (mp <> "/")).1 pre)
  ],
)

-- One line, by its entry.
abbrev consider_entry : String → Best → Option Best → Best
consider_entry p best none = best
consider_entry p best (some e) =
    if covers p e.mountpoint && leb (len best.mountpoint) (len e.mountpoint) then e else best

consider_lem :
    (p : String) (best : Best) (fs : List String)
    → consider p best fs ≡ consider_entry p best (entry fs)
unfolding consider
consider_lem p best [] = refl
consider_lem p best (a ∷ []) = refl
consider_lem p best (a ∷ b ∷ []) = refl
consider_lem p best (a ∷ b ∷ c ∷ r) = refl

consider-le :
    (p : String) (best : Best) (o : Option Best)
    → len best.mountpoint ≤ len (consider_entry p best o).mountpoint
consider-le p best none = omega arith
consider-le p best (some e) = ground arith

scan_best-le :
    (p : String) (best : Best) (lines : List String)
    → len best.mountpoint ≤ len (scan_best p best lines).mountpoint
unfolding scan_best
scan_best-le p best [] = omega arith
scan_best-le p best (line ∷ lines) = omega (
  arith,
  consider-le p best (entry (fields line)),
  ap (λ (b : Best). len b.mountpoint) (consider_lem p best (fields line)),
  scan_best-le p (consider p best (fields line)) lines,
)

consider_covering :
    (p : String) (best e : Best) (o : Option Best)
    → o ≡ some e
    → covers p e.mountpoint ≡ true
    → len e.mountpoint ≤ len (consider_entry p best o).mountpoint
consider_covering p best e none h c = cc
consider_covering p best e (some e') h c = ground arith

-- The mount point that the loop ends with is at least as long as every one that covers the path.
scan_best_longest :
    (p : String) (best e : Best) (lines : List String)
    → Any (Covers p e) lines
    → len e.mountpoint ≤ len (scan_best p best lines).mountpoint
unfolding scan_best
scan_best_longest p best e [] h = absurd h
scan_best_longest p best e (line ∷ lines) (inl (h, c)) = omega (
  arith,
  consider_covering p best e (entry (fields line)) h ((covers_iff p e.mountpoint).1 c),
  ap (λ (b : Best). len b.mountpoint) (consider_lem p best (fields line)),
  scan_best-le p (consider p best (fields line)) lines,
)
scan_best_longest p best e (line ∷ lines) (inr h) =
    scan_best_longest p (consider p best (fields line)) e lines h

not_ephemeral_long : (b : Best) → 1 < len b.mountpoint → is_ephemeral b ≡ false
unfolding is_ephemeral
not_ephemeral_long b h = elim (Bool-cases (b.mountpoint == "/")) [
  | inl e ↦ absurd (root_short b.mountpoint ((eq_iff b.mountpoint "/").0 e) h)
  | inr n ↦ rw n
]
  where
    root_short : (m : String) → m ≡ "/" → 1 < len m → ⊥
    root_short m e l = let k : 1 < len "/" = rw e at l in absurd (omega arith)

-- A path under a mount point other than the root is accepted, whatever else is mounted.
pub check_real_mount_ok :
    (L : Libs) (path : String) (e : Best) (lines : List String)
    → Any (Covers (clean path) e) lines
    → 1 < len e.mountpoint
    → check_real_mount L path (ok lines) ≡ none
unfolding check_real_mount
check_real_mount_ok L path e lines h long = rw (
    not_ephemeral_long (scan_best (clean path) no_mount lines)
      (omega (arith, scan_best_longest (clean path) no_mount e lines h)))

-- Whatever covers the path is the root, as an overlay.
abbrev pub OnlyOverlay : String → String → Type 0
OnlyOverlay p line =
    (e : Best)
    → Covers p e line
    → (e.mountpoint ≡ "/") × ((e.fs ≡ "overlay") ⊎ (e.fs ≡ "overlayfs"))

abbrev Rooted : Best → Type 0
Rooted b = (b.mountpoint ≡ "/") × ((b.fs ≡ "overlay") ⊎ (b.fs ≡ "overlayfs"))

-- The mark of the loop: nothing found yet, or the overlay root.
abbrev Found : Best → Type 0
Found b = (b ≡ no_mount) ⊎ Rooted b

abbrev OnlyRooted : String → Option Best → Type 0
OnlyRooted p o = (e : Best) → o ≡ some e → covers p e.mountpoint ≡ true → Rooted e

len_root : (m : String) → m ≡ "/" → len m ≡ 1
len_root m e = rw e

len-Found : (b : Best) → Found b → len b.mountpoint ≤ 1
len-Found b (inl e) = rw e (omega arith)
len-Found b (inr (e, f)) = omega (arith, len_root b.mountpoint e)

consider-Found :
    (p : String) (best : Best) (o : Option Best)
    → OnlyRooted p o
    → Found best
    → Found (consider_entry p best o)
consider-Found p best none h f = f
consider-Found p best (some e) h f =
    elim (Bool-cases (covers p e.mountpoint && leb (len best.mountpoint) (len e.mountpoint))) [
      | inl t ↦ rw t (inr (h e refl (ground arith)))
      | inr n ↦ rw n f
    ]

consider-Rooted :
    (p : String) (best e : Best) (o : Option Best)
    → OnlyRooted p o
    → Found best
    → (Rooted best ⊎ ((o ≡ some e) × (covers p e.mountpoint ≡ true)))
    → Rooted (consider_entry p best o)
consider-Rooted p best e none h f (inl r) = r
consider-Rooted p best e none h f (inr (q, c)) = cc
consider-Rooted p best e (some e') h f t =
    elim (Bool-cases (covers p e'.mountpoint && leb (len best.mountpoint) (len e'.mountpoint))) [
      | inl y ↦ rw y (h e' refl (ground arith))
      | inr n ↦ rw n (elim t [ inl r ↦ r | inr (q, c) ↦ absurd (never q c n) ])
    ]
  where
    never :
        some e' ≡ some e
        → covers p e.mountpoint ≡ true
        → (covers p e'.mountpoint && leb (len best.mountpoint) (len e'.mountpoint)) ≡ false
        → ⊥
    never q c n =
        let same : e' ≡ e = cc q in
        let c' : covers p e'.mountpoint ≡ true = rw same c in
        ground (arith, len-Found best f, len_root e'.mountpoint (h e' refl c').0)

scan_best-Rooted :
    (p : String) (e : Best) (lines : List String) (best : Best)
    → All (OnlyOverlay p) lines
    → Found best
    → (Rooted best ⊎ Any (Covers p e) lines)
    → Rooted (scan_best p best lines)
unfolding scan_best
scan_best-Rooted p e [] best h f (inl r) = r
scan_best-Rooted p e [] best h f (inr a) = absurd a
scan_best-Rooted p e (line ∷ lines) best (o, h) f t =
    let only : OnlyRooted p (entry (fields line)) =
      λ e' q c. o e' (q, (covers_iff p e'.mountpoint).0 c) in
    subst (λ b. Rooted (scan_best p b lines)) (sym (consider_lem p best (fields line)))
      (scan_best-Rooted p e lines (consider_entry p best (entry (fields line))) h
        (consider-Found p best (entry (fields line)) only f)
        (elim t [
          | inl r ↦ inl (consider-Rooted p best e (entry (fields line)) only f (inl r))
          | inr (inl (q, c)) ↦ inl (
              consider-Rooted p best e (entry (fields line)) only f
                (inr (q, (covers_iff p e.mountpoint).1 c)))
          | inr (inr a) ↦ inr a
        ]))

ephemeral-Rooted : (b : Best) → Rooted b → is_ephemeral b ≡ true
unfolding is_ephemeral
ephemeral-Rooted b (m, f) =
    ground (arith, eq_iff b.mountpoint "/", eq_iff b.fs "overlay", eq_iff b.fs "overlayfs")

-- A path that lies on no mount point but the root, and on that as an overlay, is refused.
pub check_real_mount_refused :
    (L : Libs) (path : String) (e : Best) (lines : List String)
    → All (OnlyOverlay (clean path)) lines
    → Any (Covers (clean path) e) lines
    → check_real_mount L path (ok lines) ≢ none
unfolding check_real_mount
check_real_mount_refused L path e lines h a =
    rw
      (ephemeral-Rooted (scan_best (clean path) no_mount lines)
        (scan_best-Rooted (clean path) e lines no_mount h (inl refl) (inr a)))
      (λ q. cc)
