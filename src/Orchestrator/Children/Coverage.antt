-- ===== src/Orchestrator/Children/Coverage.antt =====
-- Step (3) of the orchestrator over an API server that keeps what it is given.
use k8s_native_fast_gpu_chec.Prelude.{
  ℕ, ◌+◌, ℤ, String, ◌≡◌, refl, sym, Bool, true, false, none, List, [], ◌∷◌, arith, is_pos, inc32,
  if◌then◌else◌, Result, ok, err, All,
}
use mathlib.Core.Path.{subst}
use k8s_native_fast_gpu_chec.Effect.{Handler, World, perform}
use k8s_native_fast_gpu_chec.Api.{Pod, GpuCheckpoint, ApiResult, found, failed}
use k8s_native_fast_gpu_chec.Orchestrator.Calls.{Kube, Op, Reply, get_child, create_child}
use k8s_native_fast_gpu_chec.Orchestrator.Naming.{child_name}
use k8s_native_fast_gpu_chec.Orchestrator.Pods.{Workload}
use k8s_native_fast_gpu_chec.Orchestrator.Children.{
  is_limited, is_terminal, hard_error, FanOut, build_child, create_for, fan_out,
}

-- What is assumed of the API server while a pass runs: an object that a Get found, or that a Create
-- made or was told is there, stays there.
pub record Keeps {K : Kube} (H : Handler (Op K) (Reply K)) : Type 0 where
  pub has : H.State → String → String → Bool
  pub has_get :
      (ns name : String) (s : H.State) (c : GpuCheckpoint)
      → (H.handle (get_child ns name) s).0 ≡ found c
      → has (H.handle (get_child ns name) s).1 ns name ≡ true
  pub get_keeps :
      (ns name : String) (s : H.State) (ns' name' : String)
      → has s ns' name' ≡ true
      → has (H.handle (get_child ns name) s).1 ns' name' ≡ true
  pub has_create :
      (c : GpuCheckpoint) (s : H.State)
      → hard_error (H.handle (create_child c) s).0 ≡ none
      → has (H.handle (create_child c) s).1 c.meta.namespace c.meta.name ≡ true
  pub create_keeps :
      (c : GpuCheckpoint) (s : H.State) (ns' name' : String)
      → has s ns' name' ≡ true
      → has (H.handle (create_child c) s).1 ns' name' ≡ true

-- Setting the owner leaves the name and the namespace alone.
abbrev pub KeepsName : Kube → Type 0
KeepsName K =
    (wc : Workload K) (c c' : GpuCheckpoint)
    → K.set_owner wc c ≡ ok c'
    → (c'.meta.namespace ≡ c.meta.namespace) × (c'.meta.name ≡ c.meta.name)

module _ (K : Kube) (H : Handler (Op K) (Reply K)) (A : Keeps H) (wc : Workload K) where
  open A use {has, has_get, get_keeps, has_create, create_keeps}

  abbrev pub name_of : Pod → String
  name_of pod = child_name K.sha1_hex wc.meta.name pod.meta.name

  abbrev pub HasChild : H.State → Pod → Type 0
  HasChild s pod = has s wc.meta.namespace (name_of pod) ≡ true

  create_for_keeps :
      (pod : Pod) (name : String) (w : World H) (ns' name' : String)
      → has w.state ns' name' ≡ true
      → has (create_for K H wc pod name w).1.state ns' name' ≡ true
  unfolding create_for perform
  create_for_keeps pod name w ns' name' h = grind (arith, create_keeps)

  get_keeps_at :
      (ns name : String) (w : World H) (ns' name' : String)
      → has w.state ns' name' ≡ true
      → has (perform H (get_child ns name) w).1.state ns' name' ≡ true
  unfolding perform
  get_keeps_at ns name w ns' name' h = get_keeps ns name w.state ns' name' h

  fan_out_keeps :
      (pods : List Pod) (created n : ℕ) (w : World H) (ns' name' : String)
      → has w.state ns' name' ≡ true
      → has (fan_out K H wc pods created n w).1.state ns' name' ≡ true
  unfolding fan_out
  fan_out_keeps [] created n w ns' name' h = h
  fan_out_keeps (pod ∷ pods) created n w ns' name' h =
      let name = name_of pod in
      let w₁ = (perform H (get_child wc.meta.namespace name) w).1 in
      let w₂ = (create_for K H wc pod name w₁).1 in
      let h₁ = get_keeps_at wc.meta.namespace name w ns' name' h in
      let h₂ = create_for_keeps pod name w₁ ns' name' h₁ in
      ground (
        arith,
        fan_out_keeps pods created n w₁ ns' name' h₁,
        fan_out_keeps pods created (inc32 n) w₁ ns' name' h₁,
        fan_out_keeps pods (created + 1) (inc32 n) w₂ ns' name' h₂,
      )

  get_has :
      (pod : Pod) (w : World H) (c : GpuCheckpoint)
      → (perform H (get_child wc.meta.namespace (name_of pod)) w).0 ≡ found c
      → HasChild (perform H (get_child wc.meta.namespace (name_of pod)) w).1.state pod
  unfolding perform
  get_has pod w c e = has_get wc.meta.namespace (name_of pod) w.state c e

  create_for_has :
      KeepsName K
      → (pod : Pod) (w : World H) → (create_for K H wc pod (name_of pod) w).0 ≡ none
      → HasChild (create_for K H wc pod (name_of pod) w).1.state pod
  unfolding create_for perform build_child
  create_for_has keep pod w e =
      create_cases (K.set_owner wc (build_child K wc pod (name_of pod))) refl e
    where
      create_cases :
          (r : Result GpuCheckpoint)
          → K.set_owner wc (build_child K wc pod (name_of pod)) ≡ r
          → (create_for K H wc pod (name_of pod) w).0 ≡ none
          → HasChild (create_for K H wc pod (name_of pod) w).1.state pod
      create_cases (err t) r e = ground arith
      create_cases (ok c) r e =
          ground (arith, keep wc (build_child K wc pod (name_of pod)) c r, has_create c w.state)

  not_limited : (max : ℤ) (n : ℕ) → is_pos max ≡ false → is_limited max n ≡ false
  unfolding is_limited
  not_limited max n h = ground arith

  -- One round that does not end the loop leaves a child for its Pod.
  record Round (pod : Pod) (pods : List Pod) (created n : ℕ) (w : World H) : Type 0 where
    created' : ℕ
    n' : ℕ
    w' : World H
    goes_on : fan_out K H wc (pod ∷ pods) created n w ≡ fan_out K H wc pods created' n' w'
    has_child : HasChild w'.state pod

  module _ (keep : KeepsName K) (free : is_pos wc.spec.max_concurrent ≡ false) where
    fan_out-Round :
        (pod : Pod) (pods : List Pod) (created n : ℕ) (w : World H)
        → (fan_out K H wc (pod ∷ pods) created n w).0.error ≡ none
        → Round pod pods created n w
    unfolding fan_out
    fan_out-Round pod pods created n w e =
        answer_cases (perform H (get_child wc.meta.namespace (name_of pod)) w).0 refl
      where
        w₁ : World H
        w₁ = (perform H (get_child wc.meta.namespace (name_of pod)) w).1

        answer_cases :
            (a : ApiResult GpuCheckpoint)
            → (perform H (get_child wc.meta.namespace (name_of pod)) w).0 ≡ a
            → Round pod pods created n w
        answer_cases (found c) r = record {
          created' = created;
          n' = if is_terminal c.status.phase then n else inc32 n;
          w' = w₁;
          goes_on = ground arith;
          has_child = get_has pod w c r;
        }
        answer_cases (failed t) r =
            let limit = not_limited wc.spec.max_concurrent n free in
            record {
              created' = created + 1;
              n' = inc32 n;
              w' = (create_for K H wc pod (name_of pod) w₁).1;
              goes_on = ground arith;
              has_child = create_for_has keep pod w₁ (ground arith);
            }

    -- The loop from any values of its counters.
    fan_out-All :
        (pods : List Pod) (created n : ℕ) (w : World H)
        → (fan_out K H wc pods created n w).0.error ≡ none
        → All (HasChild (fan_out K H wc pods created n w).1.state) pods
    unfolding fan_out
    fan_out-All [] created n w e = tt
    fan_out-All (pod ∷ pods) created n w e =
        let r = fan_out-Round pod pods created n w e in
        subst (λ (x : FanOut × World H). All (HasChild x.1.state) (pod ∷ pods)) (sym r.goes_on)
          (
            fan_out_keeps pods r.created' r.n' r.w' wc.meta.namespace (name_of pod) r.has_child,
            fan_out-All pods r.created' r.n' r.w'
                (subst (λ (x : FanOut × World H). x.0.error ≡ none) r.goes_on e),
          )

    -- Over an API server that keeps what it is given, and with no maxConcurrent: when a pass of
    -- step (3) ends without an error, there is a child under the name of every Pod.
    pub fan_out-HasChild :
        (pods : List Pod) (w : World H)
        → (fan_out K H wc pods 0 0 w).0.error ≡ none
        → All (HasChild (fan_out K H wc pods 0 0 w).1.state) pods
    fan_out-HasChild pods w e = fan_out-All pods 0 0 w e
