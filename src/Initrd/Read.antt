-- ===== src/Initrd/Read.antt =====
-- Reading a file of the mounted archive of src/initrd.c.
use my_own_os.Prelude.{
  Bool, ℕ, zero, suc, ◌+◌, ◌-◌, ◌≤◌, ◌<◌, ◌≡◌, refl, ◌∙◌, ap, inl, inr, List, arith, ltb, leb,
  if◌then◌else◌, Bool-cases, length, get_or, min,
}
use my_own_os.Prelude.Outcome.{ok, IfOk, IfOk->>=, IfOk-map, IfOk-eq, IfOk-assert}
use my_own_os.Words.Memory.{Memory, load32}
use my_own_os.Initrd.{Drive, nfiles, file_header, bytes, initrd_read}
use my_own_os.Initrd.Archive.{root_name, dev_name, initialise_initrd}
use my_own_os.Initrd.Mounted.{
  InImage, new_tree_node-SameImage, add_directory-SameImage, add_files-InImage,
}

-- What mounting has checked.
record IsMounted (image : Memory) (location end : ℕ) (d : Drive) : Type 0 where
  pub same_image : d.image ≡ image
  pub same_location : d.location ≡ location
  pub same_end : d.end ≡ end
  pub order : location < end
  pub inside : (i : ℕ) → i < nfiles d → InImage d i

initialise_initrd-IsMounted :
    (room : ℕ → Bool) (image : Memory) (location end : ℕ)
    → IfOk (IsMounted image location end) (initialise_initrd room image location end)
unfolding initialise_initrd
initialise_initrd-IsMounted room image location end = IfOk-assert (ltb location end) λ filled.
    (IfOk-assert (leb 4868 (end - location)) λ large.
      (IfOk-assert (leb (load32 image location) 64) λ few.
        (IfOk->>= (new_tree_node-SameImage root_name 2 _) λ (root, d1) s.
          (IfOk->>= (add_directory-SameImage root dev_name _) λ (dev, d2) t.
            IfOk-map (add_files-InImage (nfiles d2) 0 _) λ d3 (u, inside). record {
              same_image = u.image ∙ (t.image ∙ s.image);
              same_location = u.location ∙ (t.location ∙ s.location);
              same_end = u.end ∙ (t.end ∙ s.end);
              order = ground arith;
              inside = λ i h.
                  rw (u.image, u.location, u.end)
                    (inside i (omega arith)
                      (let h' = rw (u.image, u.location) at h in omega (arith, h')));
            }))))

length-bytes : (m : Memory) (a n : ℕ) → length (bytes m a n) ≡ n
length-bytes m a zero = refl
length-bytes m a (suc n) = ap suc (length-bytes m (a + 1) n)

get_or-bytes : (m : Memory) (a n j : ℕ) → j < n → get_or (bytes m a n) j 0 ≡ m (a + j)
get_or-bytes m a zero j h = absurd (omega arith)
get_or-bytes m a (suc n) zero h = ap m (omega arith)
get_or-bytes m a (suc n) (suc j) h = get_or-bytes m (a + 1) n j (omega arith) ∙ ap m (omega arith)

-- The bytes from `offset` on, as many as were asked for and the file has, all of them in the image.
pub record IsPart (image : Memory) (location end start file_length offset size : ℕ) (r : List ℕ)
    : Type 0 where
  pub amount : length r ≡ min size (file_length - offset)
  pub inside :
      (j : ℕ)
      → j < length r
      → (location + start + offset + j < end)
        × (get_or r j 0 ≡ image (location + start + offset + j))

module _ {image : Memory} {location end : ℕ} {d : Drive} (v : IsMounted image location end d)
    (node : ℕ) where
  abbrev start : ℕ
  start = (file_header d (d.nodes node).fs.inode).offset

  abbrev file_length : ℕ
  file_length = (file_header d (d.nodes node).fs.inode).length

  initrd_read-IsPart :
      (offset size : ℕ)
      → (d.nodes node).fs.inode < nfiles d
      → IsPart image location end start file_length offset size (initrd_read d node offset size)
  unfolding initrd_read
  initrd_read-IsPart offset size h = elim (Bool-cases (leb file_length offset)) [
    | inl past ↦ rw past (record { amount = ground arith; inside = λ j l. absurd (omega arith) })
    | inr within ↦
        let bound = v.inside (d.nodes node).fs.inode h in
        let m = d.image in
        let a = d.location + start + offset in
        let n = if ltb (file_length - offset) size then file_length - offset else size in
        let count : n ≡ min size (file_length - offset) = ground arith in
        let fits : n ≤ file_length - offset = ground arith in
        let room : offset < file_length = ground arith in
        rw within (record {
          amount = length-bytes m a n ∙ count;
          inside = λ j l.
              (let l' = rw (length-bytes m a n) at l in
                (
                  omega (arith, bound, v.same_location, v.same_end, v.order, fits, room, l'),
                  get_or-bytes m a n j l' ∙ rw (v.same_image, v.same_location) refl,
                ));
        })
  ]

-- When mounting an archive succeeds, reading any node whose inode is below the number of files,
-- at any offset, gives as many bytes as were asked for and the file has from there on, each the
-- byte of the archive at its place and none behind the archive's end.
pub initialise_initrd-initrd_read :
    (room : ℕ → Bool) (image : Memory) (location end : ℕ) (d : Drive) (node offset size : ℕ)
    → initialise_initrd room image location end ≡ ok d
    → (d.nodes node).fs.inode < nfiles d
    → IsPart image location end
        (file_header d (d.nodes node).fs.inode).offset
        (file_header d (d.nodes node).fs.inode).length
        offset
        size
        (initrd_read d node offset size)
initialise_initrd-initrd_read room image location end d node offset size mounted h =
    initrd_read-IsPart (IfOk-eq (initialise_initrd-IsMounted room image location end) mounted) node
      offset size h
