-- ===== src/Agent/Kubelet/Answers.antt =====
-- What the archives that `Checkpoint` of the kubelet client returns come from.
use k8s_native_fast_gpu_chec.Prelude.{
  String, ◌<>◌, ◌≡◌, refl, ap, ◌∙◌, ◌≢◌, List, [], ◌∷◌, Result, Error, none, some, ok, err, arith,
}
use mathlib.Core.Path.{subst}
use k8s_native_fast_gpu_chec.Effect.{Handler, World, perform, Event}
use k8s_native_fast_gpu_chec.Agent.Calls.{
  Op, Reply, HttpRequest, HttpResponse, new_request, http_do,
}
use k8s_native_fast_gpu_chec.Agent.Libs.{Libs}
use k8s_native_fast_gpu_chec.Agent.Kubelet.{
  KubeletClient, headers, checkpoint_url, nonempty_items, decode_items, read_response,
  kubelet_checkpoint,
}

-- The response says that these archives were made.
abbrev pub IsSuccess : Libs → HttpResponse → List String → Type 0
IsSuccess L resp items =
    (resp.status_code ≡ 200) × (L.unmarshal_items resp.body ≡ ok items) × (items ≢ [])

-- The headers that a request with this token has, the last one first.
abbrev pub authorized : String → List (String × String)
authorized String.[] = ("Accept", "application/json") ∷ []
authorized (String.◌∷◌ c s) =
    ("Authorization", "Bearer " <> String.◌∷◌ c s) ∷ ("Accept", "application/json") ∷ []

-- The newest event is this request, with such a response.
abbrev pub Answered : Libs → HttpRequest → List String → List (Event Op Reply) → Type 0
Answered L req items [] = ⊥
Answered L req items ((http_do req', ok resp) ∷ es) = (req' ≡ req) × IsSuccess L resp items
Answered L req items (_ ∷ es) = ⊥

module _ (L : Libs) where
  decode_items-ok :
      (body : String) (r : Result (List String)) (items : List String)
      → decode_items L body r ≡ ok items
      → (r ≡ ok items) × (items ≢ [])
  unfolding decode_items nonempty_items
  decode_items-ok body (err t) items h = cc
  decode_items-ok body (ok []) items h = cc
  decode_items-ok body (ok (x ∷ xs)) items h =
      let same : x ∷ xs ≡ items = cc h in (ap ok same, λ e. nonempty (same ∙ e))
    where
      nonempty : {y : String} {ys : List String} → y ∷ ys ≢ []
      nonempty e = cc

  read_response-ok :
      (resp : HttpResponse) (items : List String)
      → read_response L resp ≡ ok items
      → IsSuccess L resp items
  unfolding read_response
  read_response-ok resp items h =
      let k = decode_items-ok resp.body (L.unmarshal_items resp.body) items in ground arith

headers-authorized : (token : String) → headers token ≡ authorized token
headers-authorized String.[] = refl
headers-authorized (String.◌∷◌ c s) = refl

module _ (L : Libs) (H : Handler Op Reply) where
  Answered-headers :
      (k : KubeletClient) (namespace pod container : String) (items : List String) (w : World H)
      → (kubelet_checkpoint L H k namespace pod container w).0 ≡ ok items
      → Answered L
          (record {
            method = "POST";
            url = k.base_url <> "/checkpoint/" <> namespace <> "/" <> pod <> "/" <> container;
            headers = headers k.token;
          })
          items
          (kubelet_checkpoint L H k namespace pod container w).1.trace
  unfolding kubelet_checkpoint checkpoint_url perform
  Answered-headers k namespace pod container items w h =
      by_answers (H.handle (new_request url) w.state).0 refl
    where
      url : String
      url = k.base_url <> "/checkpoint/" <> namespace <> "/" <> pod <> "/" <> container

      s₁ : H.State
      s₁ = (H.handle (new_request url) w.state).1

      req : HttpRequest
      req = record { method = "POST"; url = url; headers = headers k.token }

      Goal : Type 0
      Goal = Answered L req items (kubelet_checkpoint L H k namespace pod container w).1.trace

      by_response :
          (resp : Result HttpResponse)
          → (H.handle (new_request url) w.state).0 ≡ none
          → (H.handle (http_do req) s₁).0 ≡ resp
          → Goal
      by_response (err t) e q = absurd (ground arith)
      by_response (ok resp) e q = let k = read_response-ok L resp items in ground arith

      by_answers : (e : Error) → (H.handle (new_request url) w.state).0 ≡ e → Goal
      by_answers (some t) e = absurd (ground arith)
      by_answers none e = by_response (H.handle (http_do req) s₁).0 e refl

  -- If the kubelet client returns archives, its last call was a POST to the checkpoint URL of this
  -- Pod and container, with the bearer token if there is one; the status was 200, the body decoded to
  -- just these archives, and there is at least one.
  pub kubelet_checkpoint-Answered :
      (k : KubeletClient) (namespace pod container : String) (items : List String) (w : World H)
      → (kubelet_checkpoint L H k namespace pod container w).0 ≡ ok items
      → Answered L
          (record {
            method = "POST";
            url = k.base_url <> "/checkpoint/" <> namespace <> "/" <> pod <> "/" <> container;
            headers = authorized k.token;
          })
          items
          (kubelet_checkpoint L H k namespace pod container w).1.trace
  kubelet_checkpoint-Answered k namespace pod container items w h =
      subst
        (λ hs.
          Answered L
            (record {
              method = "POST";
              url = k.base_url <> "/checkpoint/" <> namespace <> "/" <> pod <> "/" <> container;
              headers = hs;
            })
            items (kubelet_checkpoint L H k namespace pod container w).1.trace)
        (headers-authorized k.token) (Answered-headers k namespace pod container items w h)
