-- ===== src/Words/Memory.antt =====
-- Byte memory, and 32-bit words stored in it with the lowest byte first.
use my_own_os.Prelude.{
  ◌⊎◌, inl, inr, ℕ, zero, suc, ◌+◌, ◌*◌, ◌/◌, ◌%◌, ◌≤◌, ◌<◌, ◌≡◌, refl, ◌∙◌, List, [], ◌∷◌, arith,
  ◌==◌, if◌then◌else◌, length, get_or,
}
use my_own_os.Words.{u32_mod}

abbrev pub Memory : Type 0
Memory = ℕ → ℕ

abbrev pub store8 : Memory → ℕ → ℕ → Memory
store8 m a v = λ x. if x == a then v else m x

abbrev pub load32 : Memory → ℕ → ℕ
load32 m a = m a + m (a + 1) * 0x100 + m (a + 2) * 0x10000 + m (a + 3) * 0x1000000

unfoldable pub store32 : Memory → ℕ → ℕ → Memory
store32 m a v =
    store8
      (store8 (store8 (store8 m a (v % 0x100)) (a + 1) (v / 0x100 % 0x100)) (a + 2)
        (v / 0x10000 % 0x100))
      (a + 3) (v / 0x1000000 % 0x100)

-- Words stored one after the other.
unfoldable pub store_words : Memory → ℕ → List ℕ → Memory
store_words m a [] = m
store_words m a (v ∷ vs) = store_words (store32 m a v) (a + 4) vs

-- Every entry fits 32 bits.
abbrev pub AllWords : List ℕ → Type 0
AllWords [] = Unit {0}
AllWords (v ∷ vs) = (v < u32_mod) × AllWords vs

store32-byte_ne : (m : Memory) (a v x : ℕ) → (x < a) → store32 m a v x ≡ m x
unfolding store32
store32-byte_ne m a v x h = ground arith

pub load32-store32_self : (m : Memory) (a v : ℕ) → v < u32_mod → load32 (store32 m a v) a ≡ v
unfolding store32
load32-store32_self m a v h = ground arith

pub load32-store32_below :
    (m : Memory) (a v x : ℕ) → x + 4 ≤ a → load32 (store32 m a v) x ≡ load32 m x
load32-store32_below m a v x h = rw (
  store32-byte_ne m a v x (omega arith),
  store32-byte_ne m a v (x + 1) (omega arith),
  store32-byte_ne m a v (x + 2) (omega arith),
  store32-byte_ne m a v (x + 3) (omega arith),
)

pub load32-store_words_below :
    (m : Memory) (a : ℕ) (vs : List ℕ) (x : ℕ)
    → x + 4 ≤ a
    → load32 (store_words m a vs) x ≡ load32 m x
unfolding store_words
load32-store_words_below m a [] x h = refl
load32-store_words_below m a (v ∷ vs) x h =
    load32-store_words_below (store32 m a v) (a + 4) vs x (omega arith)
    ∙ load32-store32_below m a v x h

-- Reading back the stored words.
pub load32-store_words :
    (m : Memory) (a : ℕ) (vs : List ℕ) (i : ℕ)
    → AllWords vs
    → i < length vs
    → load32 (store_words m a vs) (a + i * 4) ≡ get_or vs i 0
unfolding store_words
load32-store_words m a [] i w h = elim h [ ]
load32-store_words m a (v ∷ vs) zero w h =
    let e : a + zero * 4 ≡ a = omega arith in
    rw e (
      load32-store_words_below (store32 m a v) (a + 4) vs a (omega arith)
      ∙ load32-store32_self m a v w.0)
load32-store_words m a (v ∷ vs) (suc i) w h =
    let e : a + suc i * 4 ≡ a + 4 + i * 4 = omega arith in
    rw e (load32-store_words (store32 m a v) (a + 4) vs i w.1 (omega arith))

-- What a store leaves alone.
abbrev pub IsApart : ℕ → ℕ → ℕ → Type 0
IsApart lo hi x = (x < lo) ⊎ (hi ≤ x)

pub store32-apart : (m : Memory) (a v x : ℕ) → IsApart a (a + 4) x → store32 m a v x ≡ m x
unfolding store32
store32-apart m a v x (inl h) = ground arith
store32-apart m a v x (inr h) = ground arith

-- Two memories agree on the addresses from `lo` up to `hi`.
abbrev pub Agree : Memory → Memory → ℕ → ℕ → Type 0
Agree m m' lo hi = (x : ℕ) → lo ≤ x → x < hi → m' x ≡ m x

pub load32-Agree :
    {m m' : Memory} {lo hi : ℕ} (a : ℕ)
    → Agree m m' lo hi
    → lo ≤ a
    → a + 4 ≤ hi
    → load32 m' a ≡ load32 m a
load32-Agree a g l h = rw (
  g a l (omega arith),
  g (a + 1) (omega arith) (omega arith),
  g (a + 2) (omega arith) (omega arith),
  g (a + 3) (omega arith) (omega arith),
)

pub load32-store32_apart :
    (m : Memory) (a v x : ℕ) → (x + 4 ≤ a) ⊎ (a + 4 ≤ x) → load32 (store32 m a v) x ≡ load32 m x
load32-store32_apart m a v x (inl h) = load32-store32_below m a v x h
load32-store32_apart m a v x (inr h) =
    load32-Agree {m = m} {m' = store32 m a v} {lo = x} {hi = x + 4} x
      (λ y l u. store32-apart m a v y (inr (omega arith))) (omega arith) (omega arith)

-- Two stores within a region.
pub stores-apart :
    (m : Memory) (lo hi a v b u : ℕ)
    → lo ≤ a
    → a + 4 ≤ hi
    → lo ≤ b
    → b + 4 ≤ hi
    → (x : ℕ) → IsApart lo hi x
    → store32 (store32 m a v) b u x ≡ m x
stores-apart m lo hi a v b u la ha lb hb x (inl below) =
    store32-apart (store32 m a v) b u x (inl (omega arith))
    ∙ store32-apart m a v x (inl (omega arith))
stores-apart m lo hi a v b u la ha lb hb x (inr above) =
    store32-apart (store32 m a v) b u x (inr (omega arith))
    ∙ store32-apart m a v x (inr (omega arith))

pub load32-store8_apart :
    (k : Memory) (b v x : ℕ) → (x + 4 ≤ b) ⊎ (b < x) → load32 (store8 k b v) x ≡ load32 k x
load32-store8_apart k b v x (inl h) = ground arith
load32-store8_apart k b v x (inr h) = ground arith
