-- ===== src/Fs.antt =====
-- src/fs.h: the nodes of the virtual file system. A pointer to a node is its address, 0 is null,
-- and a table gives what each address holds. A callback field says whether the pointer is set.
pub mod Paths
use my_own_os.Prelude.{ℕ, ◌%◌, Bool, List, ◌==◌}

-- Bytes before the terminating zero.
abbrev pub Name : Type 0
Name = List ℕ

pub record FsNode : Type 0 where
  pub name : Name
  pub mask : ℕ
  pub uid : ℕ
  pub gid : ℕ
  pub flags : ℕ
  pub inode : ℕ
  pub length : ℕ
  pub impl : ℕ
  pub has_read : Bool
  pub has_write : Bool
  pub has_open : Bool
  pub has_close : Bool
  pub has_readdir : Bool
  pub has_finddir : Bool
  pub has_mkdir : Bool
  pub ptr : ℕ
  pub parent : ℕ

abbrev pub fs_file : ℕ
fs_file = 1

abbrev pub fs_directory : ℕ
fs_directory = 2

-- `node->flags & 0x7`
abbrev pub node_type : FsNode → ℕ
node_type n = n.flags % 8

abbrev pub is_directory : FsNode → Bool
is_directory n = node_type n == fs_directory
