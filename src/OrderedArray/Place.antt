-- ===== src/OrderedArray/Place.antt =====
-- `place_ordered_array` of src/ordered_array.c.
use my_own_os.Prelude.{
  ℕ, ◌≤◌, ◌<◌, ◌≡◌, refl, Bool, true, some, [], arith, le→leb, lt→ltb, replicate, length-replicate,
}
use my_own_os.Prelude.Outcome.{Returns, returned, Returns-assert}
use my_own_os.OrderedArray.{OrderedArray, place_ordered_array}
use my_own_os.OrderedArray.Sorted.{IsValid, contents}

-- An array on memory that is there is empty and well formed.
pub place_ordered_array-IsValid :
    {S A : Type 0} (null : A) (lt : S → A → A → Bool) (max_size : ℕ)
    → 0 < max_size
    → max_size ≤ 0x3FFFFFFF
    → Returns
        (λ (a : OrderedArray S A).
          IsValid lt a × (contents a ≡ []) × (a.size ≡ 0) × (a.max_size ≡ max_size))
        (place_ordered_array null true max_size (some lt))
unfolding place_ordered_array
place_ordered_array-IsValid null lt max_size positive bounded =
    Returns-assert _ (lt→ltb 0 max_size positive) (
      Returns-assert _ (le→leb max_size _ bounded) (
        returned _ (
          record {
            backing = (replicate max_size null, refl, length-replicate max_size null);
            compares = refl;
            fits = omega arith;
            small = bounded;
          },
          refl,
          refl,
          refl,
        )))
