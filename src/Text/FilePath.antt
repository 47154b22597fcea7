-- ===== src/Text/FilePath.antt =====
-- `path/filepath` on Unix: `Clean` and `Join`, by the components between slashes.
use Prim.Native.Char.{code}
use mathlib.Core.List.{reverse}
use k8s_native_fast_gpu_chec.Prelude.{
  String, ◌<>◌, Bool, false, ◌||◌, List, [], ◌∷◌, ◌==◌, if◌then◌else◌,
}
use k8s_native_fast_gpu_chec.Text.Trim.{is_slash, is_empty}

-- The components of a path; `cur` is the one being read.
split_from : String → String → List String
split_from cur String.[] = cur ∷ []
split_from cur (String.◌∷◌ c s) =
    let closed = cur ∷ split_from "" s in
    let longer = split_from (cur <> String.◌∷◌ c String.[]) s in
    if is_slash (code c) then closed else longer

unfoldable pub split_slash : String → List String
unfolding split_from is_slash
split_slash s = split_from "" s

abbrev pub is_rooted : String → Bool
is_rooted String.[] = false
is_rooted (String.◌∷◌ c s) = is_slash (code c)

-- `..` takes the last component back, and stays where there is none to take.
back : Bool → List String → List String
back rooted [] = if rooted then [] else ".." ∷ []
back rooted (top ∷ stack) = if top == ".." then ".." ∷ top ∷ stack else stack

-- One component of `Clean`; the stack has the last component at its head.
resolve : Bool → List String → String → List String
unfolding back
resolve rooted stack part =
    if part == "" || part == "."
    then stack
    else if part == ".."
    then back rooted stack
    else part ∷ stack

clean_from : Bool → List String → List String → List String
clean_from rooted stack [] = reverse stack
clean_from rooted stack (part ∷ parts) = clean_from rooted (resolve rooted stack part) parts

-- `strings.Join(parts, "/")`
unfoldable pub join_slash : List String → String
join_slash [] = ""
join_slash (part ∷ []) = part
join_slash (part ∷ next ∷ parts) = part <> "/" <> join_slash (next ∷ parts)

-- `filepath.Clean`
unfoldable pub clean : String → String
unfolding clean_from resolve split_slash join_slash is_slash
clean path =
    let rooted = is_rooted path in
    let parts = clean_from rooted [] (split_slash path) in
    if rooted
    then "/" <> join_slash parts
    else if is_empty (join_slash parts)
    then "."
    else join_slash parts

-- `filepath.Join`: leading empty elements are left out.
unfoldable pub join : List String → String
unfolding clean
join [] = ""
join (elem ∷ elems) =
    let rest = join elems in if is_empty elem then rest else clean (join_slash (elem ∷ elems))
