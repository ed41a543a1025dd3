-- ===== src/Fs/Paths.antt =====
-- src/fs.c: delegation to a driver's callbacks, and paths. The loops over a path run on its bytes;
-- the loop over its components runs on the length of the path, and `none` is a loop cut short.
pub mod Ends
pub mod Resolve
pub mod RoundTrip
pub mod Tests
use my_own_os.Prelude.{
  ℕ, zero, suc, ◌+◌, Bool, true, false, not, ◌&&◌, ◌||◌, Option, none, some, List, [], ◌∷◌, ◌++◌,
  map, ltb, leb, on_some, ◌==◌, if◌then◌else◌, length,
}
use my_own_os.Words.{minus_one}
use my_own_os.Strings.{strcmp}
use my_own_os.Fs.{Name, FsNode, is_directory}

-- What the nodes' callbacks do.
pub record Drivers : Type 0 where
  pub nodes : ℕ → FsNode
  pub finddir : ℕ → Name → ℕ
  pub mkdir : ℕ → Name → ℕ

abbrev pub slash : ℕ
slash = 47

abbrev pub dot : Name
dot = 46 ∷ []

abbrev pub dot_dot : Name
dot_dot = 46 ∷ 46 ∷ []

unfoldable pub skip_slashes : List ℕ → List ℕ
skip_slashes [] = []
skip_slashes (c ∷ cs) = let rest = skip_slashes cs in if c == slash then rest else c ∷ cs

-- One name and what follows it; `none` when it does not fit `char component[128]`.
unfoldable pub component : List ℕ → ℕ → Option (Name × List ℕ)
component [] n = some ([], [])
component (c ∷ cs) n =
    let rest = component cs (n + 1) in
    if c == slash
    then some ([], c ∷ cs)
    else (if leb 128 (n + 1) then none else on_some rest none λ r. some (c ∷ r.0, r.1))

abbrev pub starts_with_slash : List ℕ → Bool
starts_with_slash [] = false
starts_with_slash (c ∷ cs) = c == slash

abbrev pub is_empty : List ℕ → Bool
is_empty [] = true
is_empty (c ∷ cs) = false

module _ (d : Drivers) where
  unfoldable pub finddir_fs : ℕ → Name → ℕ
  finddir_fs node name =
      if node == 0
      then 0
      else (if is_directory (d.nodes node) && (d.nodes node).has_finddir
          then d.finddir node name
          else 0)

  unfoldable pub mkdir_fs : ℕ → Name → ℕ
  mkdir_fs parent name =
      if (parent == 0) || not (is_directory (d.nodes parent)) || not (d.nodes parent).has_mkdir
      then minus_one
      else d.mkdir parent name

  -- The node to which one component leads, 0 for none.
  unfoldable pub step : ℕ → ℕ → Name → ℕ
  step root node name =
      if strcmp name dot == 0
      then node
      else (if strcmp name dot_dot == 0
          then (if not (node == root) && not ((d.nodes node).parent == 0)
              then (d.nodes node).parent
              else node)
          else finddir_fs node name)

  -- `while (*path != '\0')`
  unfoldable pub walk : ℕ → ℕ → ℕ → List ℕ → Option ℕ
  walk n root node [] = some node
  walk zero root node (c ∷ cs) = none
  walk (suc n) root node (c ∷ cs) = on_some (component (c ∷ cs) 0) (some 0) λ r.
      if step root node r.0 == 0
      then some 0
      else walk n root (step root node r.0) (skip_slashes r.1)

  unfoldable pub resolve_path_fs : ℕ → ℕ → List ℕ → Option ℕ
  resolve_path_fs root working_directory path =
      if (root == 0) || working_directory == 0
      then some 0
      else walk (length path) root (if starts_with_slash path then root else working_directory)
          (skip_slashes path)

  pub find_path_fs : ℕ → List ℕ → Option ℕ
  find_path_fs root path = resolve_path_fs root root path

  -- The loop over the ancestors, on the room left in `components`: the nodes below the root, the
  -- one nearest to the root first.
  unfoldable pub ancestors : ℕ → ℕ → ℕ → List ℕ → Option (List ℕ)
  ancestors zero root node below = if node == root then some below else none
  ancestors (suc room) root node below =
      let rest = ancestors room root (d.nodes node).parent (node ∷ below) in
      if node == root
      then some below
      else (if (node == 0) || (d.nodes node).parent == 0 then none else rest)

-- The loop that writes the names behind the first slash; `none` is a buffer too small.
unfoldable pub emit : ℕ → ℕ → List Name → Option (List ℕ)
emit used capacity [] = some []
emit used capacity (n ∷ []) = if ltb capacity (used + length n + 0 + 1) then none else some n
emit used capacity (n ∷ m ∷ ms) =
    let rest = emit (used + length n + 1) capacity (m ∷ ms) in
    if ltb capacity (used + length n + 1 + 1)
    then none
    else on_some rest none λ r. some (n ++ (slash ∷ r))

-- The text written to the buffer; `none` is the result -1.
unfoldable pub get_path_fs : Drivers → ℕ → ℕ → ℕ → Option (List ℕ)
get_path_fs d root node capacity =
    if (root == 0) || (node == 0) || ltb capacity 2
    then none
    else on_some (ancestors d 32 root node []) none λ below.
      on_some (emit 1 capacity (map (λ v. (d.nodes v).name) below)) none λ text. some (slash ∷ text)

-- `for (;;)` of `mkdir_path_fs`, on the length of the path.
pub mkdir_walk : Drivers → ℕ → ℕ → ℕ → List ℕ → Option ℕ
mkdir_walk d zero root directory path = none
mkdir_walk d (suc n) root directory path = on_some (component path 0) (some minus_one) λ r.
    if is_empty r.0
    then some minus_one
    else (if is_empty (skip_slashes r.1)
        then (if (strcmp r.0 dot == 0) || strcmp r.0 dot_dot == 0
            then some minus_one
            else some (mkdir_fs d directory r.0))
        else (let named = not (strcmp r.0 dot == 0) && not (strcmp r.0 dot_dot == 0) in
            let next = step d root directory r.0 in
            if named && ((next == 0) || not (is_directory (d.nodes next)))
            then some minus_one
            else mkdir_walk d n root next (skip_slashes r.1)))

pub mkdir_path_fs : Drivers → ℕ → ℕ → List ℕ → Option ℕ
mkdir_path_fs d root working_directory path =
    if (root == 0) || (working_directory == 0) || is_empty path
    then some minus_one
    else (if is_empty (skip_slashes path)
        then some minus_one
        else mkdir_walk d (length path) root
            (if starts_with_slash path then root else working_directory) (skip_slashes path))
