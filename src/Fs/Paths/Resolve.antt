-- ===== src/Fs/Paths/Resolve.antt =====
-- `resolve_path_fs` of src/fs.c on a path that is written from names.
use my_own_os.Prelude.{
  ℕ, zero, suc, ◌+◌, ◌≤◌, ◌<◌, ◌≡◌, ◌≢◌, refl, ◌∙◌, inl, inr, true, false, ◌||◌, some, List, [],
  ◌∷◌, ◌++◌, arith, leb, ◌==◌, ==_false, if◌then◌else◌, if_true, if_false, Bool-cases, length,
  length-append,
}
use my_own_os.Fs.{Name}
use my_own_os.Fs.Paths.{
  Drivers, slash, skip_slashes, component, starts_with_slash, is_empty, step, walk, resolve_path_fs,
}

abbrev pub NoSlash : List ℕ → Type 0
NoSlash [] = Unit {0}
NoSlash (c ∷ cs) = (c ≢ slash) × NoSlash cs

-- A name that a path can spell: not empty, short, and without a slash.
pub record IsName (n : Name) : Type 0 where
  pub filled : is_empty n ≡ false
  pub short : length n < 128
  pub plain : NoSlash n

abbrev pub AllNames : List Name → Type 0
AllNames [] = Unit {0}
AllNames (n ∷ ns) = IsName n × AllNames ns

-- Each name with a slash before it.
unfoldable pub slashed : List Name → List ℕ
slashed [] = []
slashed (n ∷ ns) = slash ∷ (n ++ slashed ns)

-- The names with a slash between them.
unfoldable pub join : List Name → List ℕ
unfolding slashed
join [] = []
join (n ∷ ns) = n ++ slashed ns

-- The specification: the steps that the names take.
unfoldable pub follow : Drivers → ℕ → ℕ → List Name → ℕ
follow d root node [] = node
follow d root node (n ∷ ns) =
    let rest = follow d root (step d root node n) ns in if step d root node n == 0 then 0 else rest

component-name :
    (n : Name) (rest : List ℕ) (used : ℕ)
    → NoSlash n
    → used + length n < 128
    → (is_empty rest || starts_with_slash rest) ≡ true
    → component (n ++ rest) used ≡ some (n, rest)
unfolding component
component-name [] [] used plain short ends = refl
component-name [] (c ∷ cs) used plain short ends = if_true (c == slash) _ ends
component-name (c ∷ cs) rest used plain short ends =
    let other : (c == slash) ≡ false = ==_false plain.0 in
    let room : leb 128 (used + 1) ≡ false = ground arith in
    rw (other, room, component-name cs rest (used + 1) plain.1 (omega arith) ends) refl

slashed-ends : (ns : List Name) → (is_empty (slashed ns) || starts_with_slash (slashed ns)) ≡ true
unfolding slashed
slashed-ends [] = refl
slashed-ends (n ∷ ns) = refl

skip_name : (n : Name) (rest : List ℕ) → IsName n → skip_slashes (n ++ rest) ≡ n ++ rest
unfolding skip_slashes
skip_name [] rest v = cc (v.filled)
skip_name (c ∷ cs) rest v = if_false _ _ (==_false v.plain.0)

skip_slashes-slashed : (ns : List Name) → AllNames ns → skip_slashes (slashed ns) ≡ join ns
unfolding skip_slashes slashed join
skip_slashes-slashed [] all = refl
skip_slashes-slashed (n ∷ ns) all = skip_name n (slashed ns) all.0

skip_slashes-join : (ns : List Name) → AllNames ns → skip_slashes (join ns) ≡ join ns
unfolding join skip_slashes
skip_slashes-join [] all = refl
skip_slashes-join (n ∷ ns) all = skip_name n (slashed ns) all.0

length-slashed : (ns : List Name) → length ns ≤ length (slashed ns)
unfolding slashed
length-slashed [] = omega arith
length-slashed (n ∷ ns) = omega (arith, length-append n (slashed ns), length-slashed ns)

length-join : (ns : List Name) → length ns ≤ suc (length (join ns))
unfolding join
length-join [] = omega arith
length-join (n ∷ ns) = omega (arith, length-append n (slashed ns), length-slashed ns)

module _ (d : Drivers) (root : ℕ) where
  walk-name :
      (n : ℕ) (node : ℕ) (name : Name) (rest : List ℕ)
      → IsName name
      → (is_empty rest || starts_with_slash rest) ≡ true
      → walk d (suc n) root node (name ++ rest) ≡ (
          if step d root node name == 0
          then some 0
          else walk d n root (step d root node name) (skip_slashes rest))
  unfolding walk
  walk-name n node [] rest v ends = cc (v.filled)
  walk-name n node (c ∷ cs) rest v ends =
      rw (component-name (c ∷ cs) rest 0 v.plain (omega (arith, v.short)) ends) refl

  pub walk-join :
      (n : ℕ) (node : ℕ) (ns : List Name)
      → AllNames ns
      → length ns ≤ n
      → walk d n root node (join ns) ≡ some (follow d root node ns)
  unfolding walk join follow
  walk-join n node [] all h = refl
  walk-join zero node (m ∷ ms) all h = absurd (omega arith)
  walk-join (suc n) node (m ∷ ms) all h =
      walk-name n node m (slashed ms) all.0 (slashed-ends ms)
      ∙ elim (Bool-cases (step d root node m == 0)) [
        | inl lost ↦ rw lost refl
        | inr there ↦
            rw (there, skip_slashes-slashed ms all.1)
              (walk-join n (step d root node m) ms all.1 (omega arith))
      ]

  pub resolve_path_fs-absolute :
      (working_directory : ℕ) (ns : List Name)
      → root ≢ 0
      → working_directory ≢ 0
      → AllNames ns
      → resolve_path_fs d root working_directory (slash ∷ join ns) ≡ some (follow d root root ns)
  unfolding resolve_path_fs skip_slashes
  resolve_path_fs-absolute working_directory ns good here all =
      let guard : ((root == 0) || working_directory == 0) ≡ false = ground arith in
      if_false _ _ guard
      ∙ rw (skip_slashes-join ns all)
          (walk-join (suc (length (join ns))) root ns all (omega (arith, length-join ns)))
