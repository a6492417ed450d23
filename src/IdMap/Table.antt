-- ===== src/IdMap/Table.antt =====
-- The load-time id table of turbovec/src/id_map.rs: the sorted ids, the test for a repeat, and
-- `table_contains`, a binary search. The standard library's `sort_unstable` is an insertion sort
-- here, and its `binary_search_by` halves the range that is left.
use turbovec.Common.{
  ℕ, zero, suc, ◌+◌, ◌-◌, ◌/◌, Bool, true, false, ◌||◌, none, some, List, [], ◌∷◌, length,
  get_elem?, ◌==◌, if◌then◌else◌,
}
use Prim.Native.Nat.{compare, Ordering}

-- `sorted.windows(2).any(|w| w[0] == w[1])`
unfoldable pub has_repeat : List ℕ → Bool
has_repeat [] = false
has_repeat (x ∷ []) = false
has_repeat (x ∷ y ∷ xs) = x == y || has_repeat (y ∷ xs)

-- The search keeps to `[base, base + size)`; a range of `size` elements takes at most `size` rounds.
unfoldable pub binary_search : ℕ → List ℕ → ℕ → ℕ → ℕ → Bool
binary_search zero sorted id base size = false
binary_search (suc fuel) sorted id base size =
    let mid = base + size / 2 in
    let below = binary_search fuel sorted id base (size / 2) in
    let above = binary_search fuel sorted id (mid + 1) (size - size / 2 - 1) in
    if size == 0 then false else elim (get_elem? sorted mid) [
      | none ↦ false
      | some probe ↦ elim (compare probe id) [
        | Ordering.lt ↦ above
        | Ordering.eq ↦ true
        | Ordering.gt ↦ below
      ]
    ]

unfoldable pub table_contains : List ℕ → ℕ → Bool
unfolding binary_search
table_contains sorted id = binary_search (suc (length sorted)) sorted id 0 (length sorted)
