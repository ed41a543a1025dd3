-- ===== src/OrderedArray/Tests.antt =====
-- Runs of src/ordered_array.c on an array of three slots that holds 3 and 7.
use mathlib.Core.List.{Perm}
use my_own_os.Prelude.{ℕ, ◌≡◌, refl, Bool, false, some, [], ◌∷◌, ◌++◌, arith, ltb, take, drop}
use my_own_os.Prelude.Outcome.{ok}
use my_own_os.OrderedArray.{
  OrderedArray, insert_ordered_array, lookup_ordered_array, remove_ordered_array,
}
use my_own_os.OrderedArray.Sorted.{insert_sorted, IsSorted, IsStrictWeak, contents, IsValid}
use my_own_os.OrderedArray.Insert.{insert_ordered_array-refines, insert_ordered_array-IsSorted}
use my_own_os.OrderedArray.Remove.{remove_ordered_array-refines, lookup-remove_ordered_array}

abbrev by_value : Unit {0} → ℕ → ℕ → Bool
by_value s a b = ltb a b

abbrev two_items : OrderedArray (Unit {0}) ℕ
two_items = record {
  array = some (3 ∷ 7 ∷ 0 ∷ []);
  size = 2;
  max_size = 3;
  less_than = some by_value;
  owns_storage = false;
}

abbrev full : OrderedArray (Unit {0}) ℕ
full = record two_items { array = some (3 ∷ 5 ∷ 7 ∷ []); size = 3 }

by_value-IsStrictWeak : IsStrictWeak (by_value tt)
by_value-IsStrictWeak = record {
  asym = λ a b h. ground arith;
  negatively_transitive = λ a b c h k. ground arith;
}

two_items-IsValid : IsValid by_value two_items
two_items-IsValid = record {
  backing = (3 ∷ 7 ∷ 0 ∷ [], refl, refl);
  compares = refl;
  fits = omega arith;
  small = omega arith;
}

full-IsValid : IsValid by_value full
full-IsValid = record {
  backing = (3 ∷ 5 ∷ 7 ∷ [], refl, refl);
  compares = refl;
  fits = omega arith;
  small = omega arith;
}

two_items-IsSorted : IsSorted (by_value tt) (contents two_items)
two_items-IsSorted = ((refl, tt), (tt, tt))

insert_refines_example :
    (b : OrderedArray (Unit {0}) ℕ) × (insert_ordered_array 0 tt 5 two_items ≡ ok b)
    × (contents b ≡ insert_sorted (by_value tt) 5 (contents two_items))
    × IsValid by_value b
insert_refines_example =
    insert_ordered_array-refines 0 by_value tt 5 two_items-IsValid (omega arith)

insert_sorted_example :
    (b : OrderedArray (Unit {0}) ℕ) × (insert_ordered_array 0 tt 5 two_items ≡ ok b)
    × IsSorted (by_value tt) (contents b)
    × Perm (contents b) (5 ∷ contents two_items)
    × IsValid by_value b
insert_sorted_example =
    insert_ordered_array-IsSorted 0 by_value tt 5 two_items-IsValid (omega arith)
      by_value-IsStrictWeak two_items-IsSorted

remove_refines_example :
    (b : OrderedArray (Unit {0}) ℕ) × (remove_ordered_array 0 0 two_items ≡ ok b)
    × (contents b ≡ take 0 (contents two_items) ++ drop 1 (contents two_items))
    × (b.size ≡ 1)
    × IsValid by_value b
remove_refines_example = remove_ordered_array-refines 0 by_value 0 two_items-IsValid (omega arith)

lookup_remove_example :
    (x : ℕ) × (b : OrderedArray (Unit {0}) ℕ) × (lookup_ordered_array 0 0 two_items ≡ ok x)
    × (remove_ordered_array 0 0 two_items ≡ ok b)
    × Perm (contents two_items) (x ∷ contents b)
    × IsSorted (by_value tt) (contents b)
lookup_remove_example =
    lookup-remove_ordered_array 0 by_value 0 two_items-IsValid tt (omega arith) two_items-IsSorted
