-- ===== src/OrderedArray.antt =====
-- src/ordered_array.c and src/ordered_array.h: the sorted array of pointers that indexes the free
-- holes of the heap. `S` is the memory that the comparison callback reads, `null` the zero pointer.
-- The backing memory is a list of `max_size` slots; `none` is a null `array` or `less_than`.
-- Not modelled: `create_ordered_array`, which nothing calls.
pub mod Shift
pub mod Sorted
pub mod Insert
pub mod Remove
pub mod Lookup
pub mod Place
pub mod Tests
use my_own_os.Prelude.{
  ℕ, zero, suc, ◌+◌, ◌-◌, ◌*◌, ◌/◌, ◌≡◌, Bool, true, false, not, Option, none, some, List, ltb, leb,
  ◌==◌, if◌then◌else◌, get_or, set, replicate,
}
use my_own_os.Prelude.Outcome.{Outcome, ok, panic, ◌>>=◌, ◌>>◌, assert}

pub record OrderedArray (S A : Type 0) : Type 0 where
  pub array : Option (List A)
  pub size : ℕ
  pub max_size : ℕ
  pub less_than : Option (S → A → A → Bool)
  pub owns_storage : Bool

-- `ASSERT(p != 0)`, and what `p` points to
abbrev pub deref {ℓ} : {A : Type ℓ} → Option A → Outcome A
deref none = panic
deref (some a) = ok a

pub standard_lessthan_predicate : ℕ → ℕ → Bool
standard_lessthan_predicate a b = ltb a b

module _ {A : Type 0} (null : A) where
  -- `while (iterator < size && less_than(array[iterator], item)) iterator++;`, on the rounds left
  pub position : (A → A → Bool) → List A → A → ℕ → ℕ → ℕ
  position lt xs item zero i = i
  position lt xs item (suc k) i =
      let rest = position lt xs item k (i + 1) in if lt (get_or xs i null) item then rest else i

  -- `while (destination > iterator) { array[destination] = array[destination-1]; destination--; }`
  pub shift_back : List A → ℕ → ℕ → List A
  shift_back xs zero destination = xs
  shift_back xs (suc k) destination =
      shift_back (set xs destination (get_or xs (destination - 1) null)) k (destination - 1)

  -- `while (i + 1 < size) { array[i] = array[i+1]; i++; }`
  pub shift_forward : List A → ℕ → ℕ → List A
  shift_forward xs zero i = xs
  shift_forward xs (suc k) i = shift_forward (set xs i (get_or xs (i + 1) null)) k (i + 1)

module _ {S A : Type 0} (null : A) where
  -- `sizeof(type_t)` is 4. The arguments are `addr != 0` and the callback.
  pub place_ordered_array : Bool → ℕ → Option (S → A → A → Bool) → Outcome (OrderedArray S A)
  place_ordered_array addr_ok max_size less_than = do
    assert addr_ok
    assert (ltb 0 max_size)
    assert (leb max_size (0xFFFFFFFF / 4))
    _ ← deref less_than
    ok (record {
      array = some (replicate max_size null);
      size = 0;
      max_size = max_size;
      less_than = less_than;
      owns_storage = false;
    })

  pub insert_ordered_array : S → A → OrderedArray S A → Outcome (OrderedArray S A)
  insert_ordered_array s item a = do
    xs ← deref a.array
    less_than ← deref a.less_than
    assert (ltb a.size a.max_size)
    let iterator = position null (less_than s) xs item a.size 0
    let shifted = shift_back null xs (a.size - iterator) a.size
    ok (record a { array = some (set shifted iterator item); size = a.size + 1 })

  pub lookup_ordered_array : ℕ → OrderedArray S A → Outcome A
  lookup_ordered_array i a = do xs ← deref a.array; assert (ltb i a.size); ok (get_or xs i null)

  pub remove_ordered_array : ℕ → OrderedArray S A → Outcome (OrderedArray S A)
  remove_ordered_array i a = do
    xs ← deref a.array
    assert (ltb i a.size)
    let shifted = shift_forward null xs (a.size - 1 - i) i
    ok (record a { array = some (set shifted (a.size - 1) null); size = a.size - 1 })

-- `kfree` of the storage is the second result: whether the caller's heap gets it back.
pub destroy_ordered_array : {S A : Type 0} → OrderedArray S A → OrderedArray S A × Bool
destroy_ordered_array a = (
  record a { array = none; size = 0; max_size = 0; owns_storage = false },
  elim a.array [ none ↦ false | some _ ↦ a.owns_storage ],
)
