-- ===== src/Fs/Paths/Tests.antt =====
-- A run of src/fs.c on the directories / and /etc and the file /etc/rc, the nodes 1, 2 and 3.
use my_own_os.Prelude.{
  ℕ, ◌≡◌, ◌↔◌, refl, subst, true, false, some, List, [], ◌∷◌, arith, ◌==◌, if◌then◌else◌,
  Bool-cases, inl, inr,
}
use my_own_os.Fs.{Name, FsNode, fs_file, fs_directory}
use my_own_os.Strings.{strcmp, strcmp_iff}
use my_own_os.Fs.Paths.{Drivers, finddir_fs, ancestors, emit, get_path_fs, resolve_path_fs}
use my_own_os.Fs.Paths.Ends.{resolve_path_fs_ends}
use my_own_os.Fs.Paths.RoundTrip.{Linked, IsTree, resolve_path_fs-get_path_fs}

abbrev directory : Name → ℕ → FsNode
directory name parent = record {
  name = name;
  mask = 0;
  uid = 0;
  gid = 0;
  flags = fs_directory;
  inode = 0;
  length = 0;
  impl = 0;
  has_read = false;
  has_write = false;
  has_open = false;
  has_close = false;
  has_readdir = true;
  has_finddir = true;
  has_mkdir = true;
  ptr = 0;
  parent = parent;
}

abbrev etc : Name
etc = 101 ∷ 116 ∷ 99 ∷ []

abbrev rc : Name
rc = 114 ∷ 99 ∷ []

abbrev drivers : Drivers
drivers = record {
  nodes = λ v.
      if v == 3
      then record (directory rc 2) { flags = fs_file }
      else (if v == 2 then directory etc 1 else directory [] 0);
  finddir = λ v name. if v == 1 then 2 else 3;
  mkdir = λ v name. 0;
}

etc-Linked : Linked drivers 2
unfolding strcmp finddir_fs
etc-Linked = record {
  named = record {
    filled = refl;
    short = omega arith;
    plain = (
      (λ e. absurd (omega arith)),
      ((λ e. absurd (omega arith)), ((λ e. absurd (omega arith)), tt)),
    );
  };
  not_dot = refl;
  not_dot_dot = refl;
  found = refl;
}

rc-Linked : Linked drivers 3
unfolding strcmp finddir_fs
rc-Linked = record {
  named = record {
    filled = refl;
    short = omega arith;
    plain = ((λ e. absurd (omega arith)), ((λ e. absurd (omega arith)), tt));
  };
  not_dot = refl;
  not_dot_dot = refl;
  found = refl;
}

drivers-IsTree : IsTree drivers 1
drivers-IsTree v good below linked = elim (Bool-cases (v == 3)) [
  | inl third ↦ let e : 3 ≡ v = ground arith in subst (Linked drivers) e rc-Linked
  | inr other ↦ elim (Bool-cases (v == 2)) [
    | inl second ↦ let e : 2 ≡ v = ground arith in subst (Linked drivers) e etc-Linked
    | inr top ↦ absurd (linked (rw (other, top) refl))
  ]
]

-- "/etc/rc"
abbrev path : List ℕ
path = 47 ∷ 101 ∷ 116 ∷ 99 ∷ 47 ∷ 114 ∷ 99 ∷ []

prints : get_path_fs drivers 1 3 64 ≡ some path
unfolding get_path_fs ancestors emit
prints = refl

get_path_example : resolve_path_fs drivers 1 2 path ≡ some 3
get_path_example =
    resolve_path_fs-get_path_fs drivers 1 (λ e. absurd (omega arith)) drivers-IsTree 2 3 64 path
      (λ e. absurd (omega arith)) prints

strcmp_example : (strcmp etc rc ≡ 0) ↔ (etc ≡ rc)
strcmp_example = strcmp_iff etc rc

ends_example : (v : ℕ) × (resolve_path_fs drivers 1 2 path ≡ some v)
ends_example = resolve_path_fs_ends drivers 1 2 path
