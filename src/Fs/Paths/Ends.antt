-- ===== src/Fs/Paths/Ends.antt =====
-- The loop of `resolve_path_fs` of src/fs.c ends: each round leaves a shorter path.
use my_own_os.Prelude.{
  ℕ, zero, suc, ◌+◌, ◌≤◌, ◌≡◌, refl, sym, ◌∙◌, subst, ◌||◌, none, some, List, [], ◌∷◌, arith, leb,
  ◌==◌, if◌then◌else◌, if_true, if_false, Bool-cases, Option-cases, inl, inr, length,
}
use my_own_os.Fs.{Name}
use my_own_os.Fs.Paths.{
  Drivers, slash, skip_slashes, component, starts_with_slash, step, walk, resolve_path_fs,
}

length-skip_slashes : (cs : List ℕ) → length (skip_slashes cs) ≤ length cs
unfolding skip_slashes
length-skip_slashes [] = omega arith
length-skip_slashes (c ∷ cs) = elim (Bool-cases (c == slash)) [
  | inl here ↦ rw here (omega (arith, length-skip_slashes cs))
  | inr other ↦ rw other (omega arith)
]

some-injective : {A : Type 0} {a b : A} → some a ≡ some b → a ≡ b
some-injective e = cc

length-component :
    (cs : List ℕ) (n : ℕ) {r : Name × List ℕ} → component cs n ≡ some r → length r.1 ≤ length cs
unfolding component
length-component [] n {r} e =
    subst (λ (z : Name × List ℕ). length z.1 ≤ 0) (some-injective e) (omega arith)
length-component (c ∷ cs) n {r} e = elim (Bool-cases (c == slash)) [
  | inl here ↦
      subst (λ (z : Name × List ℕ). length z.1 ≤ length (c ∷ cs))
        (some-injective (sym (if_true _ _ here) ∙ e)) (omega arith)
  | inr other ↦
      let e1 = sym (if_false _ _ other) ∙ e in
      elim (Bool-cases (leb 128 (n + 1))) [
        | inl long ↦ let bad : none ≡ some r = sym (if_true _ _ long) ∙ e1 in cc
        | inr room ↦
            let e2 = sym (if_false _ _ room) ∙ e1 in
            elim (Option-cases (component cs (n + 1))) [
              | inl stuck ↦ let bad : none ≡ some r = rw stuck at e2 in cc
              | inr (q, found) ↦
                  subst (λ (z : Name × List ℕ). length z.1 ≤ length (c ∷ cs))
                    (some-injective (rw found at e2))
                    (omega (arith, length-component cs (n + 1) found))
            ]
      ]
]

skip_slashes-component :
    (c : ℕ) (cs : List ℕ) {r : Name × List ℕ}
    → component (c ∷ cs) 0 ≡ some r
    → length (skip_slashes r.1) ≤ length cs
unfolding component skip_slashes
skip_slashes-component c cs {r} e = elim (Bool-cases (c == slash)) [
  | inl here ↦
      subst (λ (z : Name × List ℕ). length (skip_slashes z.1) ≤ length cs)
        (some-injective (sym (if_true _ _ here) ∙ e)) (rw here (length-skip_slashes cs))
  | inr other ↦
      let e2 = sym (if_false _ _ other) ∙ e in
      elim (Option-cases (component cs 1)) [
        | inl stuck ↦ let bad : none ≡ some r = rw stuck at e2 in cc
        | inr (q, found) ↦
            subst (λ (z : Name × List ℕ). length (skip_slashes z.1) ≤ length cs)
              (some-injective (rw found at e2))
              (omega (arith, length-component cs 1 found, length-skip_slashes q.1))
      ]
]

module _ (d : Drivers) (root : ℕ) where
  walk_ends :
      (n node : ℕ) (path : List ℕ) → length path ≤ n → (v : ℕ) × (walk d n root node path ≡ some v)
  unfolding walk
  walk_ends n node [] h = (node, refl)
  walk_ends zero node (c ∷ cs) h = absurd (omega arith)
  walk_ends (suc n) node (c ∷ cs) h = elim (Option-cases (component (c ∷ cs) 0)) [
    | inl long ↦ (0, rw long refl)
    | inr (r, found) ↦ elim (Bool-cases (step d root node r.0 == 0)) [
      | inl lost ↦ (0, rw found (if_true _ _ lost))
      | inr there ↦
          let (v, e) =
            walk_ends n (step d root node r.0) (skip_slashes r.1)
              (omega (arith, skip_slashes-component c cs found)) in
          (v, rw found (if_false _ _ there ∙ e))
    ]
  ]

  -- For any path, resolving it ends, with a node or with 0.
  pub resolve_path_fs_ends :
      (working_directory : ℕ) (path : List ℕ)
      → (v : ℕ) × (resolve_path_fs d root working_directory path ≡ some v)
  unfolding resolve_path_fs
  resolve_path_fs_ends working_directory path =
      elim (Bool-cases ((root == 0) || working_directory == 0)) [
        | inl refused ↦ (0, if_true _ _ refused)
        | inr served ↦
            let (v, e) =
              walk_ends (length path) (if starts_with_slash path then root else working_directory)
                (skip_slashes path) (length-skip_slashes path) in
            (v, if_false _ _ served ∙ e)
      ]
