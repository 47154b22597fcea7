-- ===== src/Commands/NodeAgent/Client.antt =====
-- The kubelet client that `NewKubeletClient` makes of the flags.
use k8s_native_fast_gpu_chec.Prelude.{
  String, true, ◌≡◌, refl, sym, ◌∙◌, ◌⊎◌, inl, inr, Option, none, some, Result, ok, err,
  if◌then◌else◌, arith, Bool-cases,
}
use k8s_native_fast_gpu_chec.Effect.{Handler, World, perform}
use k8s_native_fast_gpu_chec.Effect.Fallible.{done, fail, rewrap}
use k8s_native_fast_gpu_chec.Text.Trim.{is_empty, is_slash, trim_right}
use k8s_native_fast_gpu_chec.Agent.Calls.{Op, Reply, NodeFlags, read_file}
use k8s_native_fast_gpu_chec.Agent.Libs.{Libs}
use k8s_native_fast_gpu_chec.Agent.Kubelet.{KubeletClient, load_cas, new_kubelet_client}
use k8s_native_fast_gpu_chec.Effect.Blocks.{continue-ok, ok-inj, rewrap-ok}

-- How the kubelet's certificate is checked: not at all, by the system's pool, or by a pool of valid
-- certificates, those of the CA file.
abbrev pub ChecksCertificate : Libs → NodeFlags → Result String → KubeletClient → Type 0
ChecksCertificate L flags ca_file k =
    (flags.kubelet_insec ≡ true)
    ⊎ ((is_empty flags.kubelet_ca ≡ true) × (k.root_cas ≡ none))
    ⊎ ((pem : String) × (ca_file ≡ ok pem) × (k.root_cas ≡ some pem) × (L.has_certs pem ≡ true))

-- The content of the token file, or nothing if it cannot be read.
abbrev pub or_nothing : Result String → String
or_nothing (ok t) = t
or_nothing (err e) = ""

-- The client that the flags ask for, with the token of the service account.
pub record IsClientOf (L : Libs) (flags : NodeFlags) (token_file ca_file : Result String)
    (k : KubeletClient) : Type 0 where
  pub base_url_is : k.base_url ≡ trim_right is_slash flags.kubelet_url
  pub insecure_is : k.insecure_skip_verify ≡ flags.kubelet_insec
  pub timeout_is : k.timeout ≡ flags.kubelet_timeout
  pub token_is : k.token ≡ or_nothing token_file
  pub checks : ChecksCertificate L flags ca_file k

module _ (L : Libs) (H : Handler Op Reply) where
  from_pem :
      (pem text : String) (w : World H) (cas : Option String)
      → ((if L.has_certs pem then done (some pem) else fail text) w).0 ≡ ok cas
      → (cas ≡ some pem) × (L.has_certs pem ≡ true)
  from_pem pem text w cas h = ground arith

  load_cas-ok :
      (flags : NodeFlags) (ca_file : Result String) (w : World H) (cas : Option String)
      → ((s : H.State) → (H.handle (read_file flags.kubelet_ca) s).0 ≡ ca_file)
      → (load_cas L H flags.kubelet_insec flags.kubelet_ca w).0 ≡ ok cas
      → (flags.kubelet_insec ≡ true)
        ⊎ ((is_empty flags.kubelet_ca ≡ true) × (cas ≡ none))
        ⊎ ((pem : String) × (ca_file ≡ ok pem) × (cas ≡ some pem) × (L.has_certs pem ≡ true))
  unfolding load_cas perform
  load_cas-ok flags ca_file w cas reads h = elim (Bool-cases flags.kubelet_insec) [
    | inl insecure ↦ inl insecure
    | inr secure ↦ elim (Bool-cases (is_empty flags.kubelet_ca)) [
      | inl e ↦ inr (inl (e, sym (ok-inj (rw (secure, e) at h))))
      | inr given ↦
          let (pem, got, made) =
            continue-ok (rewrap _ (perform H (read_file flags.kubelet_ca) w).0) _ _
              (rw (secure, given) at h) in
          let (cas_is, valid) = from_pem pem _ _ cas made in
          let there = rewrap-ok _ _ got in
          inr (inr (pem, sym (reads w.state) ∙ there, cas_is, valid))
    ]
  ]

  pub new_kubelet_client-IsClientOf :
      (flags : NodeFlags) (token_file ca_file : Result String) (token : String) (w : World H)
      (k : KubeletClient)
      → token ≡ or_nothing token_file
      → ((s : H.State) → (H.handle (read_file flags.kubelet_ca) s).0 ≡ ca_file)
      → (new_kubelet_client L H flags.kubelet_url token flags.kubelet_ca flags.kubelet_insec
          flags.kubelet_timeout w).0
        ≡ ok k
      → IsClientOf L flags token_file ca_file k
  unfolding new_kubelet_client
  new_kubelet_client-IsClientOf flags token_file ca_file token w k same reads h =
      let (cas, got, made) =
        continue-ok (load_cas L H flags.kubelet_insec flags.kubelet_ca w).0 _ _ h in
      rw (sym (ok-inj made)) (record {
        base_url_is = refl;
        insecure_is = refl;
        timeout_is = refl;
        token_is = same;
        checks = load_cas-ok flags ca_file w cas reads got;
      })
