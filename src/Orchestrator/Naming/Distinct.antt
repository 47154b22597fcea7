-- ===== src/Orchestrator/Naming/Distinct.antt =====
-- Which names and destinations of different Pods differ.
use text.Mathlib.TextLemmas.{append_cancel_left, append_assoc}
use k8s_native_fast_gpu_chec.Prelude.{
  ℕ, ◌≤◌, String, ◌<>◌, len, ◌≡◌, sym, ap, ◌∙◌, ◌≢◌, true, leb, arith, Bool-cases, inl, inr,
}
use k8s_native_fast_gpu_chec.Api.{StorageSpec}
use k8s_native_fast_gpu_chec.Text.Trim.{trim_right, is_slash, is_empty}
use k8s_native_fast_gpu_chec.Orchestrator.Naming.{
  max_name, base_name, child_name, join_path, uses_sub_path, per_pod_storage,
}

le→leb : (a b : ℕ) → a ≤ b → leb a b ≡ true
le→leb a b h = ground arith

child_name_short :
    (sha1_hex : String → String) (parent pod : String)
    → len (base_name parent pod) ≤ max_name
    → child_name sha1_hex parent pod ≡ parent <> ("-" <> pod)
unfolding child_name
child_name_short sha1_hex parent pod h = rw (le→leb _ _ h)

-- Within one parent, two Pods whose full names fit 253 bytes have different children.
pub child_name_distinct :
    (sha1_hex : String → String) (parent pod pod' : String)
    → len (base_name parent pod) ≤ max_name
    → len (base_name parent pod') ≤ max_name
    → pod ≢ pod'
    → child_name sha1_hex parent pod ≢ child_name sha1_hex parent pod'
child_name_distinct sha1_hex parent pod pod' h h' apart e = apart (
    append_cancel_left "-" pod pod' (
      append_cancel_left parent _ _ (
        sym (child_name_short sha1_hex parent pod h)
        ∙ e
        ∙ child_name_short sha1_hex parent pod' h')))

-- The name does not separate the parent from the Pod: a parent `a-b` with a Pod `c` and a parent `a`
-- with a Pod `b-c` give the same child name, if it fits 253 bytes.
pub child_name_ambiguous :
    (sha1_hex : String → String) (a b c : String)
    → len (a <> "-" <> b <> "-" <> c) ≤ max_name
    → child_name sha1_hex (a <> "-" <> b) c ≡ child_name sha1_hex a (b <> "-" <> c)
child_name_ambiguous sha1_hex a b c h =
    child_name_short sha1_hex (a <> "-" <> b) c (rw regroup h)
    ∙ regroup
    ∙ sym (child_name_short sha1_hex a (b <> "-" <> c) h)
  where
    regroup : (a <> "-" <> b) <> "-" <> c ≡ a <> "-" <> b <> "-" <> c
    regroup =
        append_assoc a ("-" <> b) ("-" <> c) ∙ ap (λ t. a <> t) (append_assoc "-" b ("-" <> c))

join_path_inj : (base p q : String) → join_path base p ≡ join_path base q → p ≡ q
unfolding join_path
join_path_inj base p q e = elim (Bool-cases (is_empty (trim_right is_slash base))) [
  | inl h ↦ rw h at e
  | inr h ↦
      append_cancel_left "/" p q (append_cancel_left (trim_right is_slash base) _ _ (rw h at e))
]

per_pod_storage_inj :
    (s : StorageSpec) (p q : String) → per_pod_storage s p ≡ per_pod_storage s q → p ≡ q
unfolding per_pod_storage
per_pod_storage_inj s p q e = elim (Bool-cases (uses_sub_path s.type)) [
  | inl h ↦ join_path_inj s.sub_path p q (ap (λ (t : StorageSpec). t.sub_path) (rw h at e))
  | inr h ↦ join_path_inj s.path p q (ap (λ (t : StorageSpec). t.path) (rw h at e))
]

-- Replicas never share a destination: over one storage spec, different Pods get different specs.
pub per_pod_storage_distinct :
    (s : StorageSpec) (p q : String) → p ≢ q → per_pod_storage s p ≢ per_pod_storage s q
per_pod_storage_distinct s p q apart e = apart (per_pod_storage_inj s p q e)
