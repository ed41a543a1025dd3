-- ===== src/Initrd/Archive.antt =====
-- Mounting in src/initrd.c: the paths of the archive and the files at their ends.
use my_own_os.Prelude.{
  ℕ, Bool, zero, suc, ◌+◌, ◌-◌, ◌*◌, true, not, ◌&&◌, List, [], ◌∷◌, ltb, leb, ◌==◌, if◌then◌else◌,
  length, get_or,
}
use my_own_os.Prelude.Outcome.{Outcome, ok, panic, ◌>>=◌, ◌>>◌, assert}
use my_own_os.Words.Memory.{Memory}
use my_own_os.Strings.{strcmp}
use my_own_os.Fs.{Name, fs_file, fs_directory}
use my_own_os.Initrd.{
  header_slots, max_path_components, file_header_size, slash, nfiles, file_header, set_node, blank,
  new_tree_node, attach_child, find_child, configure_directory, add_directory,
  get_or_create_directory, TreeNode, Drive,
}

-- The bytes before the terminator.
abbrev pub path_of : List ℕ → List ℕ
path_of [] = []
path_of (c ∷ cs) = if c == 0 then [] else c ∷ path_of cs

-- A component, and what is left from its separator on.
abbrev pub split_component : List ℕ → List ℕ × List ℕ
split_component [] = ([], [])
split_component (c ∷ cs) =
    let (component, rest) = split_component cs in
    if c == slash then ([], c ∷ cs) else (c ∷ component, rest)

abbrev pub dot : Name
dot = 46 ∷ []

abbrev dot_dot : Name
dot_dot = 46 ∷ 46 ∷ []

unfoldable pub add_file : ℕ → ℕ → Name → Drive → Outcome Drive
add_file directory header_index component d = do
  assert (find_child d directory component == 0)
  (file, d) ← new_tree_node component fs_file d
  let n = d.nodes file
  let d = set_node d file (record n {
    fs = record n.fs {
      inode = header_index;
      length = (file_header d header_index).length;
      has_read = true;
    };
  })
  attach_child directory file d

-- The loop over the components, on the length of the path, of which each round uses up a byte.
unfoldable pub add_components : ℕ → ℕ → ℕ → ℕ → List ℕ → Drive → Outcome Drive
add_components fuel directory header_index component_count [] d = ok d
add_components zero directory header_index component_count (c ∷ cs) d = panic
add_components (suc fuel) directory header_index component_count (c ∷ cs) d = do
  let (component, rest) = split_component (c ∷ cs)
  assert (ltb (length component) 128)
  assert (not (length component == 0))
  assert (not (strcmp component dot == 0) && not (strcmp component dot_dot == 0))
  assert (leb (component_count + 1) max_path_components)
  elim rest [
    | [] ↦ add_file directory header_index component d
    | separator ∷ rest ↦ (do
      assert (not (length rest == 0) && not (get_or rest 0 0 == slash))
      (directory, d) ← get_or_create_directory directory component d
      add_components fuel directory header_index (component_count + 1) rest d)
  ]

unfoldable pub add_archived_file : ℕ → Drive → Outcome Drive
add_archived_file header_index d = do
  let path = path_of (file_header d header_index).name
  assert (ltb 0 (length path) && ltb (length path) 64)
  assert (not (get_or path 0 0 == slash) && not (get_or path (length path - 1) 0 == slash))
  add_components (length path) d.root header_index 0 path d

-- The loop over the file headers, on the rounds left.
unfoldable pub add_files : ℕ → ℕ → Drive → Outcome Drive
add_files zero i d = ok d
add_files (suc k) i d = do
  let header = file_header d i
  assert (header.magic == 0xBF)
  assert (leb header.offset (d.end - d.location))
  assert (leb header.length (d.end - d.location - header.offset))
  d ← add_archived_file i d
  add_files k (i + 1) d

-- "initrd" and "dev"
abbrev pub root_name : Name
root_name = 105 ∷ 110 ∷ 105 ∷ 116 ∷ 114 ∷ 100 ∷ []

abbrev pub dev_name : Name
dev_name = 100 ∷ 101 ∷ 118 ∷ []

unfoldable pub initialise_initrd : (ℕ → Bool) → Memory → ℕ → ℕ → Outcome Drive
initialise_initrd room image location end = do
  assert (ltb location end)
  assert (leb (4 + header_slots * file_header_size) (end - location))
  let empty : TreeNode = record { fs = blank [] 0; parent = 0; first_child = 0; next_sibling = 0 }
  let d : Drive = record {
    image = image;
    location = location;
    end = end;
    nodes = λ a. empty;
    next = 1;
    room = room;
    root = 0;
    dev = 0;
  }
  assert (leb (nfiles d) header_slots)
  (root, d) ← new_tree_node root_name fs_directory d
  let d = record (configure_directory root d) { root = root }
  (dev, d) ← add_directory root dev_name d
  let d = record d { dev = dev }
  add_files (nfiles d) 0 d
