-- ===== src/Agent/Kubelet.antt =====
-- internal/agent/kubelet.go
pub mod Answers
use k8s_native_fast_gpu_chec.Prelude.{
  ℕ, ℤ, String, ◌<>◌, Bool, ◌&&◌, not, Option, none, some, List, [], ◌∷◌, Result, ok, err, nat_eq,
  if◌then◌else◌,
}
use k8s_native_fast_gpu_chec.Effect.{Handler, World, perform}
use k8s_native_fast_gpu_chec.Effect.Fallible.{E, ◌>>=◌, ◌>>◌, check, attempt, done, fail, same}
use k8s_native_fast_gpu_chec.Text.Trim.{trim_right, trim_space, is_slash, is_empty}
use k8s_native_fast_gpu_chec.Text.Decimal.{print_ℕ}
use k8s_native_fast_gpu_chec.Agent.Calls.{Op, Reply, HttpResponse, new_request, http_do, read_file}
use k8s_native_fast_gpu_chec.Agent.Libs.{Libs}

-- `KubeletClient`, with the TLS settings of its HTTP client. `root_cas` is the PEM text of the pool.
pub record KubeletClient : Type 0 where
  pub base_url : String
  pub token : String
  pub insecure_skip_verify : Bool
  pub root_cas : Option String
  pub timeout : ℤ

-- The headers of a checkpoint request, the last one first.
abbrev pub headers : String → List (String × String)
headers token =
    let accept = ("Accept", "application/json") ∷ [] in
    if is_empty token then accept else ("Authorization", "Bearer " <> token) ∷ accept

unfoldable pub checkpoint_url : KubeletClient → String → String → String → String
checkpoint_url k namespace pod container =
    k.base_url <> "/checkpoint/" <> namespace <> "/" <> pod <> "/" <> container

-- `http.StatusOK`
abbrev pub status_ok : ℕ
status_ok = 200

module _ (L : Libs) where
  -- The items of a decoded body; an empty list is an error.
  unfoldable pub nonempty_items : List String → Result (List String)
  nonempty_items [] = err "kubelet returned no checkpoint archive"
  nonempty_items (item ∷ items) = ok (item ∷ items)

  unfoldable pub decode_items : String → Result (List String) → Result (List String)
  unfolding nonempty_items
  decode_items body (err t) = err ("decode kubelet response " <> L.quote body <> ": " <> t)
  decode_items body (ok items) = nonempty_items items

  -- What `Checkpoint` makes of the response.
  unfoldable pub read_response : HttpResponse → Result (List String)
  unfolding decode_items
  read_response resp =
      if nat_eq resp.status_code status_ok
      then decode_items resp.body (L.unmarshal_items resp.body)
      else err (
          "kubelet checkpoint returned "
          <> print_ℕ resp.status_code
          <> ": "
          <> trim_space resp.body)

module _ (L : Libs) (H : Handler Op Reply) where
  -- The certificate pool of `NewKubeletClient`.
  unfoldable pub load_cas : Bool → String → E (World H) (Option String)
  load_cas insecure ca_file =
      if not insecure && not (is_empty ca_file)
      then (do
        pem ←
            attempt (λ t. "read kubelet CA " <> ca_file <> ": " <> t)
              (perform H (read_file ca_file))
        if L.has_certs pem
            then done (some pem)
            else fail ("no valid certs in kubelet CA " <> ca_file))
      else done none

  -- `NewKubeletClient`
  unfoldable pub new_kubelet_client :
      String → String → String → Bool → ℤ → E (World H) KubeletClient
  new_kubelet_client base_url token ca_file insecure timeout = do
    cas ← load_cas insecure ca_file
    done (record {
      base_url = trim_right is_slash base_url;
      token = token;
      insecure_skip_verify = insecure;
      root_cas = cas;
      timeout = timeout;
    })

  -- `Checkpoint`
  unfoldable pub kubelet_checkpoint :
      KubeletClient → String → String → String → E (World H) (List String)
  kubelet_checkpoint k namespace pod container = do
    let url = checkpoint_url k namespace pod container
    check same (perform H (new_request url))
    resp ←
        attempt (λ t. "kubelet checkpoint call: " <> t)
          (perform H (http_do (record { method = "POST"; url = url; headers = headers k.token })))
    (λ w. (read_response L resp, w))
