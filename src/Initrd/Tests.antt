-- ===== src/Initrd/Tests.antt =====
-- Runs of src/initrd.c on a small archive, and an input at which its theorem applies.
use my_own_os.Prelude.{◌≡◌, ◌⊎◌, refl, true, false, some, [], ◌∷◌, arith}
use my_own_os.Prelude.Outcome.{Outcome, ok, panic, ◌>>=◌, Returns}
use my_own_os.Words.Memory.{Memory, store8, store32}
use my_own_os.Strings.{strcmp}
use my_own_os.Initrd.{
  Drive, blank, new_tree_node, attach_child, add_directory, get_or_create_directory, find_from,
  initrd_finddir, initrd_mkdir, initrd_read,
}
use my_own_os.Initrd.Archive.{
  initialise_initrd, add_file, add_components, add_archived_file, add_files,
}
use my_own_os.Initrd.Mkdir.{IsLinked, IsMade, initrd_mkdir-IsMade}
use my_own_os.Initrd.Read.{IsPart, initialise_initrd-initrd_read}

-- One file "d/a" with the bytes "hey".
abbrev archive : Memory
archive =
    let m = store32 (λ x. 0) 0x1000 1 in
    let m = store8 m 0x1004 0xBF in
    let m = store8 (store8 (store8 m 0x1005 100) 0x1006 47) 0x1007 97 in
    let m = store32 (store32 m 0x1048 4868) 0x104C 3 in
    store8 (store8 (store8 m 0x2304 104) 0x2305 101) 0x2306 121

find_run :
    (initialise_initrd (λ n. true) archive 0x1000 0x2307 >>= λ d.
    ok (initrd_finddir d (initrd_finddir d d.root (100 ∷ [])) (97 ∷ [])))
    ≡ ok 4
unfolding initialise_initrd new_tree_node attach_child add_directory get_or_create_directory
    add_file add_components add_archived_file add_files find_from strcmp store32
find_run = refl

abbrev no_drive : Drive
no_drive = record {
  image = archive;
  location = 0;
  end = 0;
  nodes = λ a. record { fs = blank [] 0; parent = 0; first_child = 0; next_sibling = 0 };
  next = 0;
  room = λ n. true;
  root = 0;
  dev = 0;
}

abbrev drive_or : Drive → Outcome Drive → Drive
drive_or d panic = d
drive_or d (ok e) = e

abbrev mounted : Drive
mounted = drive_or no_drive (initialise_initrd (λ n. true) archive 0x1000 0x2307)

-- Making a directory twice.
mkdir_run :
    (initrd_mkdir mounted.root (some (98 ∷ [])) mounted >>= λ r.
    initrd_mkdir mounted.root (some (98 ∷ [])) r.1 >>= λ s. ok s.0)
    ≡ ok false
unfolding initialise_initrd new_tree_node attach_child add_directory get_or_create_directory
    add_file add_components add_archived_file add_files find_from strcmp store32 initrd_mkdir
mkdir_run = refl

initialise_initrd-initrd_read_example :
    IsPart archive 0x1000 0x2307 4868 3 1 5 (initrd_read mounted 4 1 5)
unfolding initialise_initrd new_tree_node attach_child add_directory get_or_create_directory
    add_file add_components add_archived_file add_files find_from strcmp store32
initialise_initrd-initrd_read_example =
    initialise_initrd-initrd_read (λ n. true) archive 0x1000 0x2307 mounted 4 1 5 refl (omega arith)

abbrev one_root : Drive
one_root = record no_drive {
  nodes = λ a. record {
    fs = record (blank [] 2) { has_mkdir = true };
    parent = 0;
    first_child = 0;
    next_sibling = 0;
  };
  next = 2;
  root = 1;
}

one_root-IsLinked : IsLinked one_root
one_root-IsLinked = record {
  some_next = omega arith;
  first = λ a h. omega arith;
  sibling = λ a h. omega arith;
}

initrd_mkdir-IsMade_example :
    ((true ≡ false) × (initrd_mkdir 1 (some (98 ∷ [])) one_root ≡ panic))
    ⊎ ((true ≡ true)
        × Returns
            (λ r. (r.0 ≡ true) × IsMade one_root 1 (98 ∷ []) r.1)
            (initrd_mkdir 1 (some (98 ∷ [])) one_root))
unfolding find_from
initrd_mkdir-IsMade_example =
    initrd_mkdir-IsMade one_root one_root-IsLinked 1 (omega arith) (omega arith) 98 [] (omega arith)
      refl
