-- ===== src/Agent/Files.antt =====
-- A world with a file system, and what `copyFile` of internal/agent/interceptor.go leaves in it.
use k8s_native_fast_gpu_chec.Prelude.{ℕ, String, ◌≡◌, ◌≢◌, ap, ◌∙◌, Option, none, ok, arith}
use k8s_native_fast_gpu_chec.Effect.{Handler, World, perform}
use k8s_native_fast_gpu_chec.Agent.Calls.{
  Op, Reply, now, mkdir_all, write_file, read_file, read_dir, stat_size, remove, open_read,
  open_write, io_copy, chmod,
}
use k8s_native_fast_gpu_chec.Agent.Interceptor.{copy_file}

-- The call may change this file. Of a call that does more than work on one file nothing is said.
abbrev pub Touches : Op → String → Type 0
Touches now p = ⊥
Touches (mkdir_all path mode) p = ⊥
Touches (read_file path) p = ⊥
Touches (read_dir path) p = ⊥
Touches (stat_size path) p = ⊥
Touches (open_read path) p = ⊥
Touches (chmod path mode) p = ⊥
Touches (write_file path content mode) p = p ≡ path
Touches (remove path) p = p ≡ path
Touches (open_write path mode) p = p ≡ path
Touches (io_copy src dst) p = p ≡ dst
Touches _ p = Unit

-- The content of the files. A copy that returns nil leaves the content of its source in its
-- destination, and a call changes no other file than its own.
pub record Files (H : Handler Op Reply) : Type 0 where
  pub file : H.State → String → Option String
  pub copies :
      (src dst : String) (s : H.State)
      → src ≢ dst
      → (H.handle (io_copy src dst) s).0 ≡ none
      → file (H.handle (io_copy src dst) s).1 dst ≡ file s src
  pub keeps :
      (o : Op) (s : H.State) (p : String) → ¬ Touches o p → file (H.handle o s).1 p ≡ file s p

module _ (H : Handler Op Reply) (F : Files H) where
  abbrev pub content : World H → String → Option String
  content w p = F.file w.state p

  pub kept :
      (o : Op) (w : World H) (p : String)
      → ¬ Touches o p
      → content (perform H o w).1 p ≡ content w p
  unfolding perform
  kept o w p untouched = F.keeps o w.state p untouched

  copied :
      (src dst : String) (w : World H)
      → src ≢ dst
      → (perform H (io_copy src dst) w).0 ≡ none
      → content (perform H (io_copy src dst) w).1 dst ≡ content w src
  unfolding perform
  copied src dst w apart e = F.copies src dst w.state apart e

  -- The calls of a copy that returns nil.
  copy_file_runs :
      (src dst : String) (mode : ℕ) (w : World H)
      → (copy_file H src dst mode w).0 ≡ ok tt
      → let w₁ = (perform H (open_read src) w).1 in
        let w₂ = (perform H (open_write dst mode) w₁).1 in
        let w₃ = (perform H (io_copy src dst) w₂).1 in
        ((perform H (io_copy src dst) w₂).0 ≡ none)
        × ((copy_file H src dst mode w).1 ≡ (perform H (chmod dst mode) w₃).1)
  unfolding copy_file
  copy_file_runs src dst mode w h = (ground arith, ground arith)

  pub copy_file-content :
      (src dst : String) (mode : ℕ) (w : World H)
      → src ≢ dst
      → (copy_file H src dst mode w).0 ≡ ok tt
      → (content (copy_file H src dst mode w).1 dst ≡ content w src)
        × ((p : String) → p ≢ dst → content (copy_file H src dst mode w).1 p ≡ content w p)
  copy_file-content src dst mode w apart h =
      let w₁ = (perform H (open_read src) w).1 in
      let w₂ = (perform H (open_write dst mode) w₁).1 in
      let w₃ = (perform H (io_copy src dst) w₂).1 in
      let (e, runs) = copy_file_runs src dst mode w h in
      let moved = ap (λ v. content v dst) runs in
      (
        moved
            ∙ kept (chmod dst mode) w₃ dst (λ b. b)
            ∙ copied src dst w₂ apart e
            ∙ kept (open_write dst mode) w₁ src apart
            ∙ kept (open_read src) w src (λ b. b),
        λ p other.
            ap (λ v. content v p) runs
            ∙ kept (chmod dst mode) w₃ p (λ b. b)
            ∙ kept (io_copy src dst) w₂ p other
            ∙ kept (open_write dst mode) w₁ p other
            ∙ kept (open_read src) w p (λ b. b),
      )
