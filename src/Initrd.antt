-- ===== src/Initrd.antt =====
-- src/initrd.c and src/initrd.h: the boot archive and its tree. 0 is null, and a tree node is its
-- number in the order of the calls of kmalloc, from 1. The image is byte memory.
pub mod Archive
pub mod Mounted
pub mod Read
pub mod Mkdir
pub mod Tests
use my_own_os.Prelude.{
  ℕ, zero, suc, ◌+◌, ◌-◌, ◌*◌, ◌%◌, ◌≡◌, Bool, true, false, not, ◌&&◌, ◌||◌, Option, none, some,
  List, [], ◌∷◌, ◌++◌, ltb, leb, ◌==◌, if◌then◌else◌, length, get_or,
}
use my_own_os.Prelude.Outcome.{Outcome, ok, panic, ◌>>=◌, ◌>>◌, assert}
use my_own_os.Words.Memory.{Memory, load32}
use my_own_os.Strings.{strcmp}
use my_own_os.Fs.{Name, FsNode, fs_file, fs_directory, is_directory}

-- `initrd_file_header_t`
pub record FileHeader : Type 0 where
  pub magic : ℕ
  pub name : List ℕ
  pub offset : ℕ
  pub length : ℕ

-- `initrd_tree_node_t`
pub record TreeNode : Type 0 where
  pub fs : FsNode
  pub parent : ℕ
  pub first_child : ℕ
  pub next_sibling : ℕ

-- The globals. `nodes` holds the tree, and `next` is the number of the next node. `room` says for which
-- nodes kmalloc finds memory: where it does not, it stops the kernel.
pub record Drive : Type 0 where
  pub image : Memory
  pub location : ℕ
  pub end : ℕ
  pub nodes : ℕ → TreeNode
  pub next : ℕ
  pub room : ℕ → Bool
  pub root : ℕ
  pub dev : ℕ

abbrev pub header_slots : ℕ
header_slots = 64

abbrev pub max_path_components : ℕ
max_path_components = 32

-- `sizeof(initrd_file_header_t)`, with the padding behind `name`
abbrev pub file_header_size : ℕ
file_header_size = 76

abbrev pub slash : ℕ
slash = 47

abbrev pub bytes : Memory → ℕ → ℕ → List ℕ
bytes m a zero = []
bytes m a (suc n) = m a ∷ bytes m (a + 1) n

-- `initrd_header->nfiles`
abbrev pub nfiles : Drive → ℕ
nfiles d = load32 d.image d.location

-- `file_headers[i]`
abbrev pub file_header : Drive → ℕ → FileHeader
file_header d i =
    let a = d.location + 4 + i * file_header_size in
    record {
      magic = d.image a;
      name = bytes d.image (a + 1) 64;
      offset = load32 d.image (a + 68);
      length = load32 d.image (a + 72);
    }

abbrev pub set_node : Drive → ℕ → TreeNode → Drive
set_node d a n = record d { nodes = λ x. if x == a then n else d.nodes x }

-- A node after `memset`, with its name and flags.
abbrev pub blank : Name → ℕ → FsNode
blank name flags = record {
  name = name;
  mask = 0;
  uid = 0;
  gid = 0;
  flags = flags;
  inode = 0;
  length = 0;
  impl = 0;
  has_read = false;
  has_write = false;
  has_open = false;
  has_close = false;
  has_readdir = false;
  has_finddir = false;
  has_mkdir = false;
  ptr = 0;
  parent = 0;
}

unfoldable pub new_tree_node : Name → ℕ → Drive → Outcome (ℕ × Drive)
new_tree_node name flags d = do
  assert (d.room d.next)
  assert (not (d.next == 0))
  assert (ltb (length name) 128)
  let n : TreeNode = record { fs = blank name flags; parent = 0; first_child = 0; next_sibling = 0 }
  ok (d.next, record (set_node d d.next n) { next = d.next + 1 })

unfoldable pub attach_child : ℕ → ℕ → Drive → Outcome Drive
attach_child parent child d = do
  let n = d.nodes child
  assert (not (parent == 0) && not (child == 0) && (n.parent == 0))
  let n = record n {
    parent = parent;
    next_sibling = (d.nodes parent).first_child;
    fs = record n.fs { parent = parent };
  }
  let d = set_node d child n
  ok (set_node d parent (record (d.nodes parent) { first_child = child }))

-- The loop over the children, on the number of nodes, which is more than there are children.
unfoldable pub find_from : ℕ → Drive → ℕ → Name → ℕ
find_from zero d child name = 0
find_from (suc fuel) d child name =
    let rest = find_from fuel d (d.nodes child).next_sibling name in
    if child == 0 then 0 else (if strcmp (d.nodes child).fs.name name == 0 then child else rest)

abbrev pub find_child : Drive → ℕ → Name → ℕ
find_child d directory name = find_from d.next d (d.nodes directory).first_child name

-- The bytes that are copied to the buffer; their number is the result.
unfoldable pub initrd_read : Drive → ℕ → ℕ → ℕ → List ℕ
initrd_read d node offset size =
    let header = file_header d (d.nodes node).fs.inode in
    if leb header.length offset
    then []
    else (let size = if ltb (header.length - offset) size then header.length - offset else size in
        bytes d.image (d.location + header.offset + offset) size)

-- `while (child != 0 && index != 0) { child = child->next_sibling; index--; }`
unfoldable pub nth_child : Drive → ℕ → ℕ → ℕ
nth_child d child zero = child
nth_child d child (suc index) =
    let rest = nth_child d (d.nodes child).next_sibling index in if child == 0 then child else rest

-- The entry's name and inode.
unfoldable pub initrd_readdir : Drive → ℕ → ℕ → Option (Name × ℕ)
initrd_readdir d node index =
    let child = nth_child d (d.nodes node).first_child index in
    if child == 0 then none else some ((d.nodes child).fs.name, (d.nodes child).fs.inode)

abbrev pub initrd_finddir : Drive → ℕ → Name → ℕ
initrd_finddir d node name = find_child d node name

abbrev pub configure_directory : ℕ → Drive → Drive
configure_directory a d =
    let n = d.nodes a in
    set_node d a (record n {
      fs = record n.fs {
        flags = fs_directory;
        has_readdir = true;
        has_finddir = true;
        has_mkdir = true;
      };
    })

-- A new directory below `parent`.
unfoldable pub add_directory : ℕ → Name → Drive → Outcome (ℕ × Drive)
add_directory parent name d = do
  (directory, d) ← new_tree_node name fs_directory d
  d ← attach_child parent directory (configure_directory directory d)
  ok (directory, d)

-- The Boolean says whether the result is 0, not -1; `none` is a null name.
unfoldable pub initrd_mkdir : ℕ → Option Name → Drive → Outcome (Bool × Drive)
initrd_mkdir parent none d = ok (false, d)
initrd_mkdir parent (some []) d = ok (false, d)
initrd_mkdir parent (some (c ∷ name)) d =
    if not (find_child d parent (c ∷ name) == 0)
    then ok (false, d)
    else (do (directory, d) ← add_directory parent (c ∷ name) d; ok (true, d))

unfoldable pub get_or_create_directory : ℕ → Name → Drive → Outcome (ℕ × Drive)
get_or_create_directory parent name d =
    let node = find_child d parent name in
    if not (node == 0)
    then (do assert (is_directory (d.nodes node).fs); ok (node, d))
    else add_directory parent name d
