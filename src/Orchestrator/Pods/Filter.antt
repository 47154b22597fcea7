-- ===== src/Orchestrator/Pods/Filter.antt =====
-- What `filterPods` keeps.
use mathlib.Core.Path.{subst}
use k8s_native_fast_gpu_chec.Prelude.{
  ℕ, zero, suc, ◌≡◌, refl, sym, ◌↔◌, ◌⊎◌, inl, inr, Bool, true, false, not, ◌&&◌, ◌||◌, Option,
  none, some, List, [], ◌∷◌, ◌==◌, if◌then◌else◌, arith, any, eq_iff, eq_true, Bool-cases, Any, In,
}
use k8s_native_fast_gpu_chec.Api.{Pod, Container}
use k8s_native_fast_gpu_chec.Orchestrator.Calls.{Kube}
use k8s_native_fast_gpu_chec.Orchestrator.Pods.{
  pod_running, is_set, pod_requests_gpu, is_running, selected, keep_pods,
}

-- A container that asks for a GPU, in its limits or in its requests.
abbrev WantsGpu : Container → Type 0
WantsGpu c = ((n : ℕ) × (c.gpu_limit ≡ some (suc n))) ⊎ ((n : ℕ) × (c.gpu_request ≡ some (suc n)))

-- What a Pod must be, said without the tests.
abbrev pub Eligible : (K : Kube) → Bool → Option K.Selector → Pod → Type 0
Eligible K gpu extra p =
    (p.phase ≡ pod_running)
    × (p.deletion_timestamp ≡ none)
    × ((s : K.Selector) → extra ≡ some s → K.matches s p.meta.labels ≡ true)
    × (gpu ≡ true → Any WantsGpu p.containers)

is_set_iff : (o : Option ℕ) → (is_set o ≡ true) ↔ ((n : ℕ) × (o ≡ some (suc n)))
is_set_iff none = (λ h. cc, λ (n, e). cc)
is_set_iff (some zero) = (λ h. cc, λ (n, e). ground arith)
is_set_iff (some (suc n)) = (λ h. (n, refl), λ e. refl)

or_iff : (a b : Bool) → ((a || b) ≡ true) ↔ ((a ≡ true) ⊎ (b ≡ true))
or_iff a b = ground arith

any_gpu_iff :
    (cs : List Container)
    → (any (λ (c : Container). is_set c.gpu_limit || is_set c.gpu_request) cs ≡ true)
      ↔ Any WantsGpu cs
any_gpu_iff [] = (λ h. cc, λ m. elim m [ ])
any_gpu_iff (c ∷ cs) = (
  λ h. elim ((or_iff _ _).0 h) [
    | inl g ↦ inl (elim ((or_iff _ _).0 g) [
      | inl a ↦ inl ((is_set_iff _).0 a)
      | inr b ↦ inr ((is_set_iff _).0 b)
    ])
    | inr r ↦ inr ((any_gpu_iff cs).0 r)
  ],
  elim [
    | inl g ↦ (or_iff _ _).1 (
        inl (
          (or_iff _ _).1
            (elim g [ inl a ↦ inl ((is_set_iff _).1 a) | inr b ↦ inr ((is_set_iff _).1 b) ])))
    | inr r ↦ (or_iff _ _).1 (inr ((any_gpu_iff cs).1 r))
  ],
)

module _ (K : Kube) (gpu : Bool) (extra : Option K.Selector) where
  abbrev passes : Pod → Bool
  passes p = is_running p && (selected K extra p && (not gpu || pod_requests_gpu p))

  selected_iff :
      (extra : Option K.Selector) (p : Pod)
      → (selected K extra p ≡ true)
        ↔ ((s : K.Selector) → extra ≡ some s → K.matches s p.meta.labels ≡ true)
  selected_iff none p = (λ h s e. cc, λ h. refl)
  selected_iff (some s) p = (λ h s' e. ground arith, λ h. h s refl)

  passes_iff : (p : Pod) → (passes p ≡ true) ↔ Eligible K gpu extra p
  unfolding pod_requests_gpu
  passes_iff p = (
    λ h. (
      ground (arith, eq_iff p.phase pod_running),
      ground (arith, eq_iff p.phase pod_running),
      (selected_iff extra p).0 (ground arith),
      λ g. (any_gpu_iff p.containers).0 (ground arith),
    ),
    λ (r, d, s, g).
        let sel = (selected_iff extra p).1 s in
        gpu_cases gpu (λ e. (any_gpu_iff p.containers).1 (g e)) (eq_true p.phase pod_running r) d
          sel,
  )
    where
      gpu_cases :
          (b : Bool)
          → (b ≡ true → pod_requests_gpu p ≡ true)
          → (p.phase == pod_running) ≡ true
          → p.deletion_timestamp ≡ none
          → selected K extra p ≡ true
          → (is_running p && (selected K extra p && (not b || pod_requests_gpu p))) ≡ true
      gpu_cases true g r d s = let q = g refl in ground arith
      gpu_cases false g r d s = ground arith

  keep_pods-cons :
      (p : Pod) (ps : List Pod)
      → keep_pods K gpu extra (p ∷ ps)
        ≡ (if passes p then p ∷ keep_pods K gpu extra ps else keep_pods K gpu extra ps)
  unfolding keep_pods
  keep_pods-cons p ps = ground arith

  -- A Pod is kept exactly when it was listed and is eligible: running, not being deleted, matched by
  -- the extra selector if there is one, and with a container that wants a GPU if that is required.
  pub keep_pods_iff :
      (p : Pod) (ps : List Pod)
      → In p (keep_pods K gpu extra ps) ↔ (In p ps × Eligible K gpu extra p)
  unfolding keep_pods
  keep_pods_iff p [] = (λ h. absurd h, λ (h, _). h)
  keep_pods_iff p (q ∷ ps) = elim (Bool-cases (passes q)) [
    | inl t ↦ rw (keep_pods-cons, t) (kept t (keep_pods_iff p ps))
    | inr f ↦ rw (keep_pods-cons, f) (dropped f (keep_pods_iff p ps))
  ]
    where
      tail : Type 0
      tail = In p (keep_pods K gpu extra ps) ↔ (In p ps × Eligible K gpu extra p)

      kept :
          passes q ≡ true
          → tail
          → In p (q ∷ keep_pods K gpu extra ps) ↔ (In p (q ∷ ps) × Eligible K gpu extra p)
      kept t ih = (
        elim [
          | inl e ↦ (inl e, subst (Eligible K gpu extra) (sym e) ((passes_iff q).0 t))
          | inr m ↦ let (n, g) = ih.0 m in (inr n, g)
        ],
        λ (m, g). elim m [ inl e ↦ inl e | inr n ↦ inr (ih.1 (n, g)) ],
      )

      dropped :
          passes q ≡ false
          → tail
          → In p (keep_pods K gpu extra ps) ↔ (In p (q ∷ ps) × Eligible K gpu extra p)
      dropped f ih = (
        λ m. let (n, g) = ih.0 m in (inr n, g),
        λ (m, g). elim m [
          | inl e ↦ let t = (passes_iff q).1 (subst (Eligible K gpu extra) e g) in cc
          | inr n ↦ ih.1 (n, g)
        ],
      )
