-- ===== src/Agent/Storage/Content.antt =====
-- What `storeToDir` of internal/agent/checkpoint.go leaves in the files.
use k8s_native_fast_gpu_chec.Prelude.{
  ℕ, String, ◌<>◌, ◌≡◌, ◌≢◌, refl, sym, ap, ◌∙◌, Bool, true, false, List, [], ◌∷◌, ok, err, arith,
  ◌==◌, if◌then◌else◌, Bool-cases, true_eq, eq_true, ltb, Result, ◌⊎◌, inl, inr, ◌&&◌,
}
use text.Mathlib.TextLemmas.{nil≢cons, tail-eq_of_cons-eq, cons-append}
use k8s_native_fast_gpu_chec.Effect.{Handler, World, perform}
use k8s_native_fast_gpu_chec.Effect.Fallible.{E, done, as_result}
use k8s_native_fast_gpu_chec.Effect.Blocks.{continue-ok, continue_runs, ok-inj}
use k8s_native_fast_gpu_chec.Text.FilePath.{join}
use k8s_native_fast_gpu_chec.Text.Trim.{trim_suffix}
use k8s_native_fast_gpu_chec.Agent.Calls.{Op, Reply, stat_size, now, mkdir_all, remove}
use k8s_native_fast_gpu_chec.Agent.Libs.{Libs}
use k8s_native_fast_gpu_chec.Agent.Interceptor.{copy_file}
use k8s_native_fast_gpu_chec.Agent.Storage.{
  Checkpointer, Target, persist, discard, store_archive, archive_name, store_to_dir,
}
use k8s_native_fast_gpu_chec.Agent.Files.{Files, content, kept, copy_file-content}

-- A file of which `Stat` says that it is there and not empty.
abbrev pub has_size : Result ℕ → Bool
has_size (err e) = false
has_size (ok n) = ltb 0 n

-- Where the blob is, and where `storeToDir` puts it.
abbrev pub blob_source : Checkpointer → Target → String
blob_source c t = join (c.data_dir ∷ t.pod_uid ∷ "data.blob" ∷ [])

abbrev pub blob_target : String → String
blob_target dst = trim_suffix ".tar" dst <> ".blob"

false-true : false ≡ true → ⊥
false-true h = cc

blob_target_apart : (dst : String) → blob_target dst ≢ dst
unfolding trim_suffix
blob_target_apart String.[] e = nil≢cons (sym e)
blob_target_apart (String.◌∷◌ c s) e = elim (Bool-cases (String.◌∷◌ c s == ".tar")) [
  | inl tar ↦ differ (rw tar at e) (true_eq (String.◌∷◌ c s) ".tar" tar)
  | inr longer ↦
      blob_target_apart s
        (tail-eq_of_cons-eq (sym (cons-append c (trim_suffix ".tar" s) ".blob") ∙ (rw longer at e)))
]
  where
    differ : ".blob" ≡ String.◌∷◌ c s → String.◌∷◌ c s ≡ ".tar" → ⊥
    differ a b = false-true (eq_true ".blob" ".tar" (a ∙ b))

module _ (L : Libs) (H : Handler Op Reply) (F : Files H) (c : Checkpointer) where
  persist_runs :
      (t : Target) (dst : String) (w : World H)
      → (persist L H c t dst w).0 ≡ ok tt
      → let (size, w₁) = perform H (stat_size (blob_source c t)) w in
        let (r, w₂) = copy_file H (blob_source c t) (blob_target dst) 0o644 w₁ in
        ((has_size size ≡ false) × ((persist L H c t dst w).1 ≡ w₁))
        ⊎ ((r ≡ ok tt) × ((persist L H c t dst w).1 ≡ w₂))
  unfolding persist
  persist_runs t dst w h = ground arith

  persist-content :
      (t : Target) (dst : String) (w : World H)
      → blob_source c t ≢ blob_target dst
      → (persist L H c t dst w).0 ≡ ok tt
      → let w' = (persist L H c t dst w).1 in
        ((p : String) → p ≢ blob_target dst → content H F w' p ≡ content H F w p)
        × ((has_size (perform H (stat_size (blob_source c t)) w).0 ≡ false)
            ⊎ (content H F w' (blob_target dst) ≡ content H F w (blob_source c t)))
  persist-content t dst w apart h =
      let look = stat_size (blob_source c t) in
      let w₁ = (perform H look w).1 in
      elim (persist_runs t dst w h) [
        | inl (nothing, runs) ↦
            (λ p other. ap (λ v. content H F v p) runs ∙ kept H F look w p (λ b. b), inl nothing)
        | inr (made, runs) ↦
            let (same_blob, others) =
              copy_file-content H F (blob_source c t) (blob_target dst) 0o644 w₁ apart made in
            (
              λ p other.
                  ap (λ v. content H F v p) runs ∙ others p other ∙ kept H F look w p (λ b. b),
              inr (
                  ap (λ v. content H F v (blob_target dst)) runs
                  ∙ same_blob
                  ∙ kept H F look w (blob_source c t) (λ b. b)),
            )
      ]

  -- The blob part as `storeToDir` calls it.
  abbrev blob_part : Target → String → Bool → E (World H) (Unit {0})
  blob_part t dst wanted = if wanted then persist L H c t dst else done tt

  blob_part-content :
      (t : Target) (dst : String) (wanted : Bool) (w : World H)
      → blob_source c t ≢ blob_target dst
      → (blob_part t dst wanted w).0 ≡ ok tt
      → let w' = (blob_part t dst wanted w).1 in
        ((p : String) → p ≢ blob_target dst → content H F w' p ≡ content H F w p)
        × ((wanted && has_size (perform H (stat_size (blob_source c t)) w).0 ≡ false)
            ⊎ (content H F w' (blob_target dst) ≡ content H F w (blob_source c t)))
  blob_part-content t dst true w apart h = persist-content t dst w apart h
  blob_part-content t dst false w apart h = (λ p other. refl, inl refl)

  discard-content :
      (local dst p : String) (w : World H)
      → p ≢ local
      → content H F (discard L H c local dst w).1 p ≡ content H F w p
  unfolding discard
  discard-content local dst p w other = elim (Bool-cases (local == dst)) [
    | inl same ↦ rw same refl
    | inr apart ↦ rw apart (kept H F (remove local) w p other)
  ]

  discard_answers : (local dst : String) (w : World H) → (discard L H c local dst w).0 ≡ ok dst
  unfolding discard
  discard_answers local dst w = ground arith

  store_archive-content :
      (t : Target) (local : String) (more : List String) (dst stored : String) (w : World H)
      → local ≢ dst
      → local ≢ blob_target dst
      → blob_source c t ≢ dst
      → blob_source c t ≢ blob_target dst
      → (store_archive L H c t (local ∷ more) dst w).0 ≡ ok stored
      → let w₁ = (copy_file H local dst 0o644 w).1 in
        let size = (perform H (stat_size (blob_source c t)) w₁).0 in
        let w' = (store_archive L H c t (local ∷ more) dst w).1 in
        (stored ≡ dst)
        × (content H F w' dst ≡ content H F w local)
        × (((c.gcr_interception && c.persist_blob) && has_size size ≡ false)
            ⊎ (content H F w' (blob_target dst) ≡ content H F w (blob_source c t)))
  unfolding store_archive
  store_archive-content t local more dst stored w a b d e h =
      let wanted = c.gcr_interception && c.persist_blob in
      let (first, w₁) = copy_file H local dst 0o644 w in
      let (_, made, h₁) = continue-ok first _ w₁ h in
      let (second, w₂) = blob_part t dst wanted w₁ in
      let (_, persisted, h₂) = continue-ok second _ w₂ h₁ in
      let (same_archive, others) = copy_file-content H F local dst 0o644 w a made in
      let (kept_archive, blob) = blob_part-content t dst wanted w₁ e persisted in
      let runs : store_archive L H c t (local ∷ more) dst w ≡ discard L H c local dst w₂ =
        continue_runs first _ w₁ made ∙ continue_runs second _ w₂ persisted in
      (
        ok-inj (sym h₂ ∙ discard_answers local dst w₂),
        ap (λ r. content H F r.1 dst) runs
            ∙ discard-content local dst dst w₂ (λ q. a (sym q))
            ∙ kept_archive dst (λ q. blob_target_apart dst (sym q))
            ∙ same_archive,
        elim blob [
          | inl nothing ↦ inl nothing
          | inr same_blob ↦ inr (
              ap (λ r. content H F r.1 (blob_target dst)) runs
              ∙ discard-content local dst (blob_target dst) w₂ (λ q. b (sym q))
              ∙ same_blob
              ∙ others (blob_source c t) d)
        ],
      )

  -- `storeToDir` outside a dry run, as the rest of it after the clock is read.
  store_to_dir_runs :
      (t : Target) (produced : List String) (dir : String) (stored : String) (w : World H)
      → c.dry_run ≡ false
      → (store_to_dir L H c t produced dir w).0 ≡ ok stored
      → let (at, w₂) = perform H now (perform H (mkdir_all dir 0o755) w).1 in
        store_to_dir L H c t produced dir w
        ≡ store_archive L H c t produced (join (dir ∷ archive_name t at ∷ [])) w₂
  unfolding store_to_dir
  store_to_dir_runs t produced dir stored w real h =
      let (e, w₁) = perform H (mkdir_all dir 0o755) w in
      let (_, made, h₁) = continue-ok (as_result _ e) _ w₁ h in
      continue_runs (as_result _ e) _ w₁ made ∙ rw real refl

  -- When `storeToDir` outside a dry run returns nil, and the archive lies neither at the new name nor at
  -- that of the blob: its answer is the new name, and the file of that name has the content that the
  -- archive had. If there is data to persist, the blob next to it has the content of the workload's data
  -- file, which must not be one of the new files.
  pub store_to_dir-content :
      (t : Target) (local : String) (more : List String) (dir stored : String) (w : World H)
      → c.dry_run ≡ false
      → let (at, w₂) = perform H now (perform H (mkdir_all dir 0o755) w).1 in
        let dst = join (dir ∷ archive_name t at ∷ []) in
        let size = (perform H (stat_size (blob_source c t)) (copy_file H local dst 0o644 w₂).1).0 in
        let w' = (store_to_dir L H c t (local ∷ more) dir w).1 in
        local ≢ dst
        → local ≢ blob_target dst
        → blob_source c t ≢ dst
        → blob_source c t ≢ blob_target dst
        → (store_to_dir L H c t (local ∷ more) dir w).0 ≡ ok stored
        → (stored ≡ dst)
          × (content H F w' dst ≡ content H F w local)
          × (((c.gcr_interception && c.persist_blob) && has_size size ≡ false)
              ⊎ (content H F w' (blob_target dst) ≡ content H F w (blob_source c t)))
  store_to_dir-content t local more dir stored w real a b d e h =
      let w₁ = (perform H (mkdir_all dir 0o755) w).1 in
      let (at, w₂) = perform H now w₁ in
      let dst = join (dir ∷ archive_name t at ∷ []) in
      let runs = store_to_dir_runs t (local ∷ more) dir stored w real h in
      let early : (p : String) → content H F w₂ p ≡ content H F w p =
        λ p. kept H F now w₁ p (λ b. b) ∙ kept H F (mkdir_all dir 0o755) w p (λ b. b) in
      let (named, archive, blob) =
        store_archive-content t local more dst stored w₂ a b d e (sym (ap (λ r. r.0) runs) ∙ h) in
      (
        named,
        ap (λ r. content H F r.1 dst) runs ∙ archive ∙ early local,
        elim blob [
          | inl nothing ↦ inl nothing
          | inr same_blob ↦ inr (
              ap (λ r. content H F r.1 (blob_target dst)) runs
              ∙ same_blob
              ∙ early (blob_source c t))
        ],
      )
