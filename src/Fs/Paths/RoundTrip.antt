-- ===== src/Fs/Paths/RoundTrip.antt =====
-- `get_path_fs` and `resolve_path_fs` of src/fs.c: the path that is printed leads back to the node.
use my_own_os.Prelude.{
  ℕ, zero, suc, ◌+◌, ◌≡◌, ◌≢◌, refl, sym, subst, ◌∙◌, ap, inl, inr, false, ◌||◌, none, some, List,
  [], ◌∷◌, ◌++◌, map, arith, ltb, ◌==◌, if_true, if_false, Bool-cases, Option-cases, length,
}
use my_own_os.Fs.{Name}
use my_own_os.Strings.{strcmp}
use my_own_os.Fs.Paths.{
  Drivers, slash, dot, dot_dot, finddir_fs, step, ancestors, emit, get_path_fs, resolve_path_fs,
}
use my_own_os.Fs.Paths.Resolve.{IsName, AllNames, slashed, join, follow, resolve_path_fs-absolute}

abbrev pub name_of : Drivers → ℕ → Name
name_of d v = (d.nodes v).name

-- A node below the root is found under its name in its parent.
pub record Linked (d : Drivers) (v : ℕ) : Type 0 where
  pub named : IsName (name_of d v)
  pub not_dot : (strcmp (name_of d v) dot == 0) ≡ false
  pub not_dot_dot : (strcmp (name_of d v) dot_dot == 0) ≡ false
  pub found : finddir_fs d (d.nodes v).parent (name_of d v) ≡ v

abbrev pub IsTree : Drivers → ℕ → Type 0
IsTree d root = (v : ℕ) → v ≢ 0 → v ≢ root → (d.nodes v).parent ≢ 0 → Linked d v

append_nil : (n : Name) → n ≡ n ++ []
append_nil [] = refl
append_nil (c ∷ cs) = ap (λ (z : Name). c ∷ z) (append_nil cs)

some-injective : {a b : List ℕ} → some a ≡ some b → a ≡ b
some-injective e = cc

emit-join :
    (used capacity : ℕ) (ns : List Name) (text : List ℕ)
    → emit used capacity ns ≡ some text
    → text ≡ join ns
unfolding emit join slashed
emit-join used capacity [] text h = cc
emit-join used capacity (n ∷ []) text h =
    elim (Bool-cases (ltb capacity (used + length n + 0 + 1))) [
      | inl full ↦ let bad : none ≡ some text = rw full at h in cc
      | inr room ↦
          let e : some n ≡ some text = rw room at h in sym (some-injective e) ∙ append_nil n
    ]
emit-join used capacity (n ∷ m ∷ ms) text h =
    elim (Bool-cases (ltb capacity (used + length n + 1 + 1))) [
      | inl full ↦ let bad : none ≡ some text = rw full at h in cc
      | inr room ↦
          let e1 = rw room at h in
          elim (Option-cases (emit (used + length n + 1) capacity (m ∷ ms))) [
            | inl stuck ↦ let bad : none ≡ some text = rw stuck at e1 in cc
            | inr (r, e) ↦
                let same : some (n ++ (slash ∷ r)) ≡ some text = rw e at e1 in
                let tail : r ≡ join (m ∷ ms) =
                  emit-join (used + length n + 1) capacity (m ∷ ms) r e in
                sym (some-injective same) ∙ ap (λ (z : Name). n ++ (slash ∷ z)) tail
          ]
    ]

module _ (d : Drivers) (root : ℕ) (good : root ≢ 0) (tree : IsTree d root) where
  step-Linked : (v : ℕ) → Linked d v → step d root (d.nodes v).parent (name_of d v) ≡ v
  unfolding step
  step-Linked v l = if_false _ _ l.not_dot ∙ (if_false _ _ l.not_dot_dot ∙ l.found)

  -- What the collected names lead to.
  ancestors-follow :
      (room node : ℕ) (below r : List ℕ) (target : ℕ)
      → ancestors d room root node below ≡ some r
      → follow d root node (map (name_of d) below) ≡ target
      → AllNames (map (name_of d) below)
      → (follow d root root (map (name_of d) r) ≡ target) × AllNames (map (name_of d) r)
  unfolding ancestors follow
  ancestors-follow zero node below r target h f all = elim (Bool-cases (node == root)) [
    | inl top ↦
        let same : below ≡ r = some-injective (rw top at h) in
        let e : node ≡ root = ground arith in
        (
          subst (λ (z : List ℕ). follow d root root (map (name_of d) z) ≡ target) same (rw e at f),
          subst (λ (z : List ℕ). AllNames (map (name_of d) z)) same all,
        )
    | inr lower ↦ let bad : none ≡ some r = rw lower at h in cc
  ]
  ancestors-follow (suc room) node below r target h f all = elim (Bool-cases (node == root)) [
    | inl top ↦
        let same : below ≡ r = some-injective (rw top at h) in
        let e : node ≡ root = ground arith in
        (
          subst (λ (z : List ℕ). follow d root root (map (name_of d) z) ≡ target) same (rw e at f),
          subst (λ (z : List ℕ). AllNames (map (name_of d) z)) same all,
        )
    | inr lower ↦
        let h1 = sym (if_false _ _ lower) ∙ h in
        elim (Bool-cases ((node == 0) || (d.nodes node).parent == 0)) [
          | inl stuck ↦ let bad : none ≡ some r = sym (if_true _ _ stuck) ∙ h1 in cc
          | inr inside ↦
              let l = tree node (ground arith) (ground arith) (ground arith) in
              let there : (node == 0) ≡ false = ground arith in
              let back = step-Linked node l in
              ancestors-follow room (d.nodes node).parent (node ∷ below) r target
                (sym (if_false _ _ inside) ∙ h1) (rw (back, there) f) (l.named, all)
        ]
  ]

  -- In a tree whose nodes below the root are found in their parents under their names, names that
  -- are not empty, shorter than 128 bytes, without a slash and neither `.` nor `..`: when the
  -- path of a node is printed, resolving the printed text gives that node, from any working
  -- directory.
  pub resolve_path_fs-get_path_fs :
      (working_directory node capacity : ℕ) (text : List ℕ)
      → working_directory ≢ 0
      → get_path_fs d root node capacity ≡ some text
      → resolve_path_fs d root working_directory text ≡ some node
  unfolding get_path_fs follow
  resolve_path_fs-get_path_fs working_directory node capacity text here e =
      elim (Bool-cases ((root == 0) || (node == 0) || ltb capacity 2)) [
        | inl refused ↦ let bad : none ≡ some text = sym (if_true _ _ refused) ∙ e in cc
        | inr served ↦
            let e1 = sym (if_false _ _ served) ∙ e in
            elim (Option-cases (ancestors d 32 root node [])) [
              | inl deep ↦ let bad : none ≡ some text = rw deep at e1 in cc
              | inr (below, chain) ↦
                  let e2 = rw chain at e1 in
                  let names = map (name_of d) below in
                  elim (Option-cases (emit 1 capacity names)) [
                    | inl full ↦ let bad : none ≡ some text = rw full at e2 in cc
                    | inr (written, out) ↦
                        let whole : slash ∷ written ≡ text = some-injective (rw out at e2) in
                        let spelled = emit-join 1 capacity names written out in
                        let (arrives, all) = ancestors-follow 32 node [] below node chain refl tt in
                        subst
                          (λ (z : List ℕ). resolve_path_fs d root working_directory z ≡ some node)
                          (ap (λ (z : List ℕ). slash ∷ z) (sym spelled) ∙ whole)
                          (resolve_path_fs-absolute d root working_directory names good here all
                            ∙ ap some arrives)
                  ]
            ]
      ]
