-- ===== src/Orchestrator/Naming/Lengths.antt =====
-- How long a child's name can be.
use Prim.Native.Char.{Char, len_utf8}
use Prim.Native.Nat.{compare, Ordering}
use Prim.Native.String.slice
use Prim.Native.String.len
use Prim.Native.String
use text.Mathlib.TextPositions.{len-append}
use k8s_native_fast_gpu_chec.Prelude.{
  ℕ, ◌+◌, ◌≤◌, ◌<◌, ◌-◌, String, ◌≡◌, refl, false, leb, arith, Bool-cases, inl, inr, leb→le, true,
  ◌↔◌, ◌⊎◌,
}
use k8s_native_fast_gpu_chec.Orchestrator.Naming.{max_name, base_name, child_name}

fits-le :
    (o : Ordering) (c : Char) (t : String) (n : ℕ)
    → compare (len_utf8 c) n ≡ o
    → String.len t ≤ n - len_utf8 c
    → String.len (String.fits o c t) ≤ n
fits-le Ordering.lt c t n e h = rw len.cons (ground arith)
fits-le Ordering.eq c t n e h = rw len.cons (ground arith)
fits-le Ordering.gt c t n e h = rw len.nil (omega arith)

leb→gt : (a b : ℕ) → leb a b ≡ false → b < a
leb→gt a b h = ground arith

le→leb : (a b : ℕ) → a ≤ b → leb a b ≡ true
le→leb a b h = ground arith

-- A slice of n bytes is no longer than n bytes.
len-slice : (s : String) (n : ℕ) → String.len (String.slice s 0 n) ≤ n
len-slice String.[] n = rw (slice.nil 0 n) (rw len.nil (omega arith))
len-slice (String.◌∷◌ c s) n =
    rw (slice.cons-zero c s n)
      (fits-le (compare (len_utf8 c) n) c _ n refl (len-slice s (n - len_utf8 c)))

len_of_hashed :
    (sha1_hex : String → String) (parent pod : String)
    → max_name < String.len (base_name parent pod)
    → String.len (child_name sha1_hex parent pod)
      ≡ String.len parent + 1 + String.len (String.slice (sha1_hex pod) 0 12)
unfolding child_name
len_of_hashed sha1_hex parent pod h = rw (gt→leb _ _ h) (rw (len-append, len-append) (omega arith))
  where
    gt→leb : (a b : ℕ) → b < a → leb a b ≡ false
    gt→leb a b h = ground arith

child_name_fits :
    (sha1_hex : String → String) (parent pod : String)
    → String.len parent ≤ 240
    → String.len (child_name sha1_hex parent pod) ≤ max_name
unfolding child_name
child_name_fits sha1_hex parent pod h =
    elim (Bool-cases (leb (String.len (base_name parent pod)) max_name)) [
      | inl e ↦ rw e (leb→le _ _ e)
      | inr e ↦ rw e (rw (len-append, len-append) (omega (arith, len-slice (sha1_hex pod) 12)))
    ]

child_name_too_long :
    (sha1_hex : String → String) (parent pod : String)
    → 240 < String.len parent
    → String.len (String.slice (sha1_hex pod) 0 12) ≡ 12
    → max_name < String.len (base_name parent pod)
    → max_name < String.len (child_name sha1_hex parent pod)
child_name_too_long sha1_hex parent pod h e b = omega (arith, len_of_hashed sha1_hex parent pod b)

-- With a hash of at least 12 digits, a child's name fits 253 bytes exactly when the full name does or the
-- parent's name has at most 240 bytes: the hash replaces the Pod's name only, and its 12 digits and the
-- dash come on top of the parent's name.
pub child_name_fits_iff :
    (sha1_hex : String → String) (parent pod : String)
    → String.len (String.slice (sha1_hex pod) 0 12) ≡ 12
    → (String.len (child_name sha1_hex parent pod) ≤ max_name)
      ↔ ((String.len (base_name parent pod) ≤ max_name) ⊎ (String.len parent ≤ 240))
unfolding child_name
child_name_fits_iff sha1_hex parent pod e = (
  λ fits. elim (Bool-cases (leb (String.len (base_name parent pod)) max_name)) [
    | inl short ↦ inl (leb→le _ _ short)
    | inr long ↦ let n = len_of_hashed sha1_hex parent pod (leb→gt _ _ long) in inr (omega arith)
  ],
  elim [
    | inl short ↦ rw (le→leb _ _ short) short
    | inr small ↦ child_name_fits sha1_hex parent pod small
  ],
)
