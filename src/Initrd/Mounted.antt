-- ===== src/Initrd/Mounted.antt =====
-- What mounting the archive of src/initrd.c proves of its file headers, and reads that rely on it.
use my_own_os.Prelude.{
  ℕ, zero, suc, ◌+◌, ◌-◌, ◌≤◌, ◌<◌, ◌≡◌, refl, ◌∙◌, inl, inr, true, not, ◌&&◌, List, [], ◌∷◌, arith,
  ltb, leb, ◌==◌, Bool-cases, length, get_or,
}
use my_own_os.Prelude.Outcome.{
  ◌>>=◌, ◌>>◌, assert, IfOk, stopped, holds, IfOk->>=, IfOk-map, IfOk-assert, IfOk-if,
}
use my_own_os.Strings.{strcmp}
use my_own_os.Fs.{Name, is_directory}
use my_own_os.Initrd.{
  Drive, slash, file_header, find_child, new_tree_node, attach_child, add_directory,
  get_or_create_directory, configure_directory,
}
use my_own_os.Initrd.Archive.{
  add_file, add_components, add_archived_file, add_files, split_component, path_of,
}

-- The tree may grow, the image stays.
pub record SameImage (d d' : Drive) : Type 0 where
  pub image : d'.image ≡ d.image
  pub location : d'.location ≡ d.location
  pub end : d'.end ≡ d.end

SameImage-trans : {d d' d'' : Drive} → SameImage d d' → SameImage d' d'' → SameImage d d''
SameImage-trans s t = record {
  image = t.image ∙ s.image;
  location = t.location ∙ s.location;
  end = t.end ∙ s.end;
}

pub new_tree_node-SameImage :
    (name : Name) (flags : ℕ) (d : Drive) → IfOk (λ r. SameImage d r.1) (new_tree_node name flags d)
unfolding new_tree_node
new_tree_node-SameImage name flags d = IfOk-assert (d.room d.next) λ enough.
    (IfOk-assert (not (d.next == 0)) λ there.
      (IfOk-assert (ltb (length name) 128)
        λ short. holds _ (record { image = refl; location = refl; end = refl })))

attach_child-SameImage :
    (parent child : ℕ) (d : Drive) → IfOk (λ d'. SameImage d d') (attach_child parent child d)
unfolding attach_child
attach_child-SameImage parent child d =
    IfOk-assert (not (parent == 0) && not (child == 0) && ((d.nodes child).parent == 0))
      λ fresh. holds _ (record { image = refl; location = refl; end = refl })

pub add_directory-SameImage :
    (parent : ℕ) (name : Name) (d : Drive)
    → IfOk (λ r. SameImage d r.1) (add_directory parent name d)
unfolding add_directory
add_directory-SameImage parent name d = IfOk->>= (new_tree_node-SameImage name 2 d) λ (a, d1) s.
    (IfOk->>= (attach_child-SameImage parent a (configure_directory a d1)) λ d2 t.
      holds _ (SameImage-trans s (record { image = t.image; location = t.location; end = t.end })))

get_or_create_directory-SameImage :
    (parent : ℕ) (name : Name) (d : Drive)
    → IfOk (λ r. SameImage d r.1) (get_or_create_directory parent name d)
unfolding get_or_create_directory
get_or_create_directory-SameImage parent name d =
    IfOk-if (not (find_child d parent name == 0))
      (λ there.
        IfOk-assert (is_directory (d.nodes (find_child d parent name)).fs)
          λ directory. holds _ (record { image = refl; location = refl; end = refl }))
      (λ missing. add_directory-SameImage parent name d)

add_file-SameImage :
    (directory i : ℕ) (component : Name) (d : Drive)
    → IfOk (λ d'. SameImage d d') (add_file directory i component d)
unfolding add_file
add_file-SameImage directory i component d =
    IfOk-assert (find_child d directory component == 0) λ unique.
      (IfOk->>= (new_tree_node-SameImage component 1 d) λ (file, d1) s.
        IfOk-map (attach_child-SameImage directory file _) λ d2 t.
          SameImage-trans s (record { image = t.image; location = t.location; end = t.end }))

-- The rest of a round, after the checks of the component.
after_component :
    (fuel directory i count : ℕ) (component : Name) (d : Drive)
    → ((directory : ℕ) (rest : List ℕ) (d : Drive)
        → IfOk (λ d'. SameImage d d') (add_components fuel directory i (count + 1) rest d))
    → (rest : List ℕ)
    → IfOk
        (λ d'. SameImage d d')
        (elim rest [
          | [] ↦ add_file directory i component d
          | separator ∷ rest ↦ (do
            assert (not (length rest == 0) && not (get_or rest 0 0 == slash))
            (directory, d) ← get_or_create_directory directory component d
            add_components fuel directory i (count + 1) rest d)
        ])
after_component fuel directory i count component d deeper [] =
    add_file-SameImage directory i component d
after_component fuel directory i count component d deeper (separator ∷ rest) =
    IfOk-assert (not (length rest == 0) && not (get_or rest 0 0 == slash)) λ single.
      (IfOk->>= (get_or_create_directory-SameImage directory component d)
        λ (directory', d1) s. IfOk-map (deeper directory' rest d1) λ d2 t. SameImage-trans s t)

add_components-SameImage :
    (fuel directory i count : ℕ) (cs : List ℕ) (d : Drive)
    → IfOk (λ d'. SameImage d d') (add_components fuel directory i count cs d)
unfolding add_components
add_components-SameImage fuel directory i count [] d =
    holds d (record { image = refl; location = refl; end = refl })
add_components-SameImage zero directory i count (c ∷ cs) d = stopped
add_components-SameImage (suc fuel) directory i count (c ∷ cs) d =
    let (component, rest) = split_component (c ∷ cs) in
    let deeper = λ (directory' : ℕ) (rest' : List ℕ) (d' : Drive).
      add_components-SameImage fuel directory' i (count + 1) rest' d' in
    IfOk-assert (ltb (length component) 128) λ short.
      (IfOk-assert (not (length component == 0)) λ some_component.
        (IfOk-assert
          (not (strcmp component (46 ∷ []) == 0) && not (strcmp component (46 ∷ 46 ∷ []) == 0))
          λ plain.
            (IfOk-assert (leb (count + 1) 32)
              λ few. after_component fuel directory i count component d deeper rest)))

add_archived_file-SameImage :
    (i : ℕ) (d : Drive) → IfOk (λ d'. SameImage d d') (add_archived_file i d)
unfolding add_archived_file
add_archived_file-SameImage i d =
    let path = path_of (file_header d i).name in
    IfOk-assert (ltb 0 (length path) && ltb (length path) 64) λ bounded.
      (IfOk-assert
        (not (get_or path 0 0 == slash) && not (get_or path (length path - 1) 0 == slash))
        λ relative. add_components-SameImage (length path) d.root i 0 path d)

-- The bytes of a file lie in the image.
abbrev pub InImage : Drive → ℕ → Type 0
InImage d i = (file_header d i).offset + (file_header d i).length ≤ d.end - d.location

pub add_files-InImage :
    (k i : ℕ) (d : Drive)
    → IfOk (λ d'. SameImage d d' × ((j : ℕ) → i ≤ j → j < i + k → InImage d j)) (add_files k i d)
unfolding add_files
add_files-InImage zero i d =
    holds d (record { image = refl; location = refl; end = refl }, λ j lo hi. absurd (omega arith))
add_files-InImage (suc k) i d =
    let h = file_header d i in
    IfOk-assert (h.magic == 0xBF) λ magic.
      (IfOk-assert (leb h.offset (d.end - d.location)) λ starts.
        (IfOk-assert (leb h.length (d.end - d.location - h.offset)) λ ends.
          (IfOk->>= (add_archived_file-SameImage i d) λ d1 s.
            IfOk-map (add_files-InImage k (i + 1) d1) λ d2 (t, later). (
              SameImage-trans s t,
              λ j lo hi. elim (Bool-cases (i == j)) [
                | inl here ↦ let e : i ≡ j = ground arith in rw e at (here_InImage d i starts ends)
                | inr other ↦
                    rw (s.image, s.location, s.end) at (later j (ground arith) (omega arith))
              ],
            ))))
  where
    here_InImage :
        (d : Drive) (i : ℕ)
        → leb (file_header d i).offset (d.end - d.location) ≡ true
        → leb (file_header d i).length (d.end - d.location - (file_header d i).offset) ≡ true
        → InImage d i
    here_InImage d i starts ends = ground arith
