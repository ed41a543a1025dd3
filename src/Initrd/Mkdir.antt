-- ===== src/Initrd/Mkdir.antt =====
-- `initrd_mkdir` and `initrd_finddir` of src/initrd.c.
use my_own_os.Prelude.{
  ℕ, zero, suc, ◌<◌, ◌≡◌, ◌≢◌, refl, sym, ◌∙◌, ap, ◌⊎◌, inl, inr, true, false, some, ◌∷◌, arith,
  ltb, lt→ltb, ◌==◌, Bool-cases, length,
}
use my_own_os.Prelude.Outcome.{panic, Returns, returned, Returns->>=}
use my_own_os.Strings.{strcmp, strcmp_refl, strcmp-eq}
use my_own_os.Fs.{Name, is_directory}
use my_own_os.Initrd.{
  Drive, find_from, find_child, new_tree_node, attach_child, add_directory, initrd_mkdir,
}

-- Links stay among the nodes that are there.
pub record IsLinked (d : Drive) : Type 0 where
  pub some_next : 0 < d.next
  pub first : (a : ℕ) → a < d.next → (d.nodes a).first_child < d.next
  pub sibling : (a : ℕ) → a < d.next → (d.nodes a).next_sibling < d.next

-- The scan reads names and siblings alone.
find_from-same :
    (d d' : Drive) (v : IsLinked d)
    → ((a : ℕ)
        → a < d.next
        → ((d'.nodes a).fs.name ≡ (d.nodes a).fs.name)
          × ((d'.nodes a).next_sibling ≡ (d.nodes a).next_sibling))
    → (fuel child : ℕ) (name : Name) → child < d.next
    → find_from fuel d' child name ≡ find_from fuel d child name
unfolding find_from
find_from-same d d' v same zero child name h = refl
find_from-same d d' v same (suc fuel) child name h =
    let (named, linked) = same child h in
    let rest =
      find_from-same d d' v same fuel (d.nodes child).next_sibling name (v.sibling child h) in
    rw (named, linked, rest) refl

-- A directory was made below `parent`.
pub record IsMade (d : Drive) (parent : ℕ) (name : Name) (d' : Drive) : Type 0 where
  pub found : find_child d' parent name ≡ d.next
  pub directory : is_directory (d'.nodes d.next).fs ≡ true
  pub up : ((d'.nodes d.next).fs.parent ≡ parent) × ((d'.nodes d.next).first_child ≡ 0)
  pub others :
      (other : Name) → other ≢ name → find_child d' parent other ≡ find_child d parent other

module _ (d : Drive) (v : IsLinked d) (parent : ℕ) (above : 0 < parent) (below : parent < d.next)
    (c : ℕ) (cs : Name) (short : length (c ∷ cs) < 128) where
  -- What the tree holds afterwards.
  record Nodes (d' : Drive) : Type 0 where
    pub count : d'.next ≡ suc d.next
    pub first : (d'.nodes parent).first_child ≡ d.next
    pub name : (d'.nodes d.next).fs.name ≡ c ∷ cs
    pub sibling : (d'.nodes d.next).next_sibling ≡ (d.nodes parent).first_child
    pub directory : is_directory (d'.nodes d.next).fs ≡ true
    pub up : ((d'.nodes d.next).fs.parent ≡ parent) × ((d'.nodes d.next).first_child ≡ 0)
    pub old :
        (a : ℕ)
        → a < d.next
        → ((d'.nodes a).fs.name ≡ (d.nodes a).fs.name)
          × ((d'.nodes a).next_sibling ≡ (d.nodes a).next_sibling)

  passed :
      {d' : Drive}
      → Nodes d'
      → (k : ℕ) (name : Name) → (strcmp (c ∷ cs) name == 0) ≡ false
      → find_from (suc k) d' d.next name ≡ find_from k d (d.nodes parent).first_child name
  unfolding find_from
  passed {d'} n k name other =
      let next_there : (d.next == 0) ≡ false = let p = v.some_next in ground arith in
      rw (next_there, n.name, other, n.sibling)
        (find_from-same d d' v n.old k (d.nodes parent).first_child name (v.first parent below))

  Nodes-IsMade : (d' : Drive) → Nodes d' → IsMade d parent (c ∷ cs) d'
  unfolding find_from
  Nodes-IsMade d' n =
      let next_there : (d.next == 0) ≡ false = let p = v.some_next in ground arith in
      record {
        found = rw (n.count, n.first, next_there, n.name, strcmp_refl (c ∷ cs)) refl;
        directory = n.directory;
        up = n.up;
        others = λ name ne.
            ap (λ (k : ℕ). find_from k d' (d'.nodes parent).first_child name) n.count
            ∙ (ap (λ (a : ℕ). find_from (suc d.next) d' a name) n.first
                ∙ passed n d.next name (differs name ne));
      }
    where
      differs : (name : Name) → name ≢ c ∷ cs → (strcmp (c ∷ cs) name == 0) ≡ false
      differs name ne = elim (Bool-cases (strcmp (c ∷ cs) name == 0)) [
        | inl same ↦ absurd (ne (sym (strcmp-eq (c ∷ cs) name (ground arith))))
        | inr other ↦ other
      ]

  add_directory-Nodes :
      d.room d.next ≡ true → Returns (λ r. Nodes r.1) (add_directory parent (c ∷ cs) d)
  unfolding add_directory new_tree_node attach_child
  add_directory-Nodes enough =
      let small : ltb (length (c ∷ cs)) 128 ≡ true = lt→ltb _ _ short in
      let self : (d.next == d.next) ≡ true = ground arith in
      let parent_self : (parent == parent) ≡ true = ground arith in
      let parent_other : (parent == d.next) ≡ false = ground arith in
      let next_other : (d.next == parent) ≡ false = ground arith in
      let parent_there : (parent == 0) ≡ false = ground arith in
      let next_there : (d.next == 0) ≡ false = let p = v.some_next in ground arith in
      rw (enough, next_there, small, self, parent_there, next_there)
        (returned _ (record {
          count = omega arith;
          first = rw (parent_self) refl;
          name = rw (next_other, self) refl;
          sibling = rw (next_other, self, parent_other) refl;
          directory = rw (next_other, self) refl;
          up = (rw (next_other, self) refl, rw (next_other, self) refl);
          old = λ a h.
              (let new : (a == d.next) ≡ false = ground arith in
                elim (Bool-cases (a == parent)) [
                  | inl here ↦
                      let e : a ≡ parent = ground arith in
                      rw (e, parent_self, parent_other) (refl, refl)
                  | inr other ↦ rw (other, new) (refl, refl)
                ]);
        }))

  -- In a tree whose links stay among its nodes, for a parent in it and a name that is not empty,
  -- shorter than 128 bytes and no child's: initrd_mkdir stops the kernel where kmalloc finds no
  -- memory, and otherwise returns 0, the name is then found and is a directory without children
  -- below the parent, and every other name is found as before.
  pub initrd_mkdir-IsMade :
      find_child d parent (c ∷ cs) ≡ 0
      → ((d.room d.next ≡ false) × (initrd_mkdir parent (some (c ∷ cs)) d ≡ panic))
        ⊎ ((d.room d.next ≡ true)
            × Returns
                (λ r. (r.0 ≡ true) × IsMade d parent (c ∷ cs) r.1)
                (initrd_mkdir parent (some (c ∷ cs)) d))
  unfolding initrd_mkdir add_directory new_tree_node
  initrd_mkdir-IsMade missing = elim (Bool-cases (d.room d.next)) [
    | inl enough ↦ inr (
      enough,
      rw missing (
          Returns->>= (add_directory-Nodes enough)
            λ (directory, d') n. returned _ (refl, Nodes-IsMade d' n)),
    )
    | inr full ↦ inl (full, rw (missing, full) refl)
  ]
