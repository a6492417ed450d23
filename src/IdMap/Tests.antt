-- ===== src/IdMap/Tests.antt =====
-- Runs of the id map over a small index, and the theorems at concrete inputs.
use turbovec.Common.{
  All, sort, ℕ, ◌-◌, ◌/◌, ◌≤◌, ◌<◌, ◌≡◌, refl, Bool, true, false, Option, none, some, List, [], ◌∷◌,
  ◌++◌, ◌⊎◌, ◌≢◌, inl, inr, suc, length, length-take, get_elem?, take, ltb, ◌==◌, if◌then◌else◌,
  mem, count, Bool-cases, Option-cases, Distinct, get_lt, ==_iff, arith,
}
use turbovec.Error.{AddError, SearchError, Outcome, ok, err, panic, is_ok}
use turbovec.VectorIndex.{VectorIndex, SearchResults, Allows, swap_remove_at}
use turbovec.IdMap.Table.{has_repeat, table_contains}
use turbovec.IdMap.{
  IdMapIndex, with_inner, from_index_and_ids, from_v7_load, add_with_ids_2d, add_checked,
  commit_ids, batch_addable, all_addable, check_batch, insert_from, extend, present, remove,
  remove_id, contains, ids, try_search_with_allowlist, search_masked, build_mask, translate,
  empty_set, is_some,
}
use turbovec.IdMap.Valid.{
  IsValid, from_index_and_ids-IsValid, from_index_and_ids-Distinct, from_v7_load-IsValid,
}
use turbovec.IdMap.Add
use turbovec.IdMap.Remove
use turbovec.IdMap.Search
use turbovec.IdMap.Contents.{row_of}

-- An index of two columns that stores numbers.
rows_taken : (v : List ℕ) (dim : ℕ) → length (take (length v / dim) v) ≡ length v / dim
rows_taken v dim = grind (arith, length-take (length v / dim) v)

first_true : List Bool → Option ℕ
first_true [] = none
first_true (true ∷ bs) = some 0
first_true (false ∷ bs) = elim (first_true bs) [ none ↦ none | some i ↦ some (suc i) ]

first_true_lem : (bs : List Bool) (i : ℕ) → first_true bs ≡ some i → get_elem? bs i ≡ some true
unfolding first_true
first_true_lem [] i h = absurd (ground arith)
first_true_lem (true ∷ bs) i h = let e : i ≡ 0 = ground arith in rw e
first_true_lem (false ∷ bs) i h = elim (Option-cases (first_true bs)) [
  | inl n ↦ absurd (ground arith)
  | inr (j, f) ↦ let e : i ≡ suc j = ground arith in rw e (first_true_lem bs j f)
]

toy_add : List ℕ → List ℕ → ℕ → List ℕ × Outcome (AddError ℕ) (Unit {0})
toy_add i v dim =
    if dim == 2
    then (i ++ take (length v / dim) v, ok tt)
    else (i, err (AddError.dim_mismatch 2 dim))

toy_add_ok :
    (i v : List ℕ) (dim : ℕ)
    → is_ok (toy_add i v dim).1 ≡ true
    → (toy_add i v dim).0 ≡ i ++ take (length v / dim) v
unfolding toy_add
toy_add_ok i v dim h = ground arith

toy_add_fail :
    (i v : List ℕ) (dim : ℕ) → is_ok (toy_add i v dim).1 ≡ false → (toy_add i v dim).0 ≡ i
unfolding toy_add
toy_add_fail i v dim h = ground arith

toy_remove : List ℕ → ℕ → List ℕ × Outcome (AddError ℕ) ℕ
toy_remove i idx =
    if ltb idx (length i) then (swap_remove_at i idx, ok (length i - 1)) else (i, panic)

toy_remove_lem :
    (i : List ℕ) (idx : ℕ)
    → false ≡ false
    → idx < length i
    → ((toy_remove i idx).1 ≡ ok (length i - 1))
      × ((toy_remove i idx).0 ≡ swap_remove_at i idx)
      × (false ≡ false)
unfolding toy_remove
toy_remove_lem i idx _ h = (ground arith, ground arith, refl)

toy_result : List ℕ → SearchResults ℕ
toy_result slots = record { scores = slots; indices = slots; nq = 1; k = length slots }

toy_search : List ℕ → List ℕ → ℕ → Option (List Bool) → Outcome (SearchError ℕ) (SearchResults ℕ)
toy_search i queries k none = ok (toy_result [])
toy_search i queries k (some mask) =
    if length mask == length i
    then elim (first_true mask) [ none ↦ ok (toy_result []) | some s ↦ ok (toy_result (s ∷ [])) ]
    else err (SearchError.mask_length_mismatch (length i) (length mask))

toy_search_slots :
    (i queries : List ℕ) (k : ℕ) (mask : Option (List Bool)) (r : SearchResults ℕ)
    → toy_search i queries k mask ≡ ok r
    → All (λ slot. (slot < length i) × Allows mask slot) r.indices
unfolding toy_search toy_result
toy_search_slots i queries k none r h = let e : r.indices ≡ [] = ground arith in rw e tt
toy_search_slots i queries k (some mask) r h = elim (Bool-cases (length mask == length i)) [
  | inl same ↦ elim (Option-cases (first_true mask)) [
    | inl n ↦ let e : r.indices ≡ [] = ground (arith, n, same) in rw e tt
    | inr (s, f) ↦
        let e : r.indices ≡ s ∷ [] = ground (arith, f, same) in
        let on = first_true_lem mask s f in
        rw e
          ((omega (arith, get_lt mask s true on, (==_iff (length mask) (length i)).0 same), on), tt)
  ]
  | inr other ↦ absurd (ground (arith, other))
]

abbrev toy : VectorIndex
toy = record {
  Index = List ℕ;
  F32 = ℕ;
  Row = ℕ;
  len = λ i. length i;
  dim_opt = λ i. some 2;
  is_mapped = λ i. false;
  rows = λ i. i;
  encode = λ i v dim. take (length v / dim) v;
  add_2d = toy_add;
  swap_remove = toy_remove;
  try_search_with_mask = toy_search;
  len-rows = λ i. refl;
  length-encode = λ i v dim. rows_taken v dim;
  add_2d-ok = toy_add_ok;
  add_2d-fail = toy_add_fail;
  add_2d-mapped = λ i v dim. refl;
  swap_remove_lem = toy_remove_lem;
  search_slots = toy_search_slots;
}

program : Unit {0}
unfolding toy_add toy_remove toy_search toy_result first_true swap_remove_at sort has_repeat
    table_contains with_inner from_index_and_ids add_with_ids_2d add_checked commit_ids
    batch_addable all_addable check_batch insert_from extend present remove remove_id contains ids
    try_search_with_allowlist search_masked build_mask translate
program = tt

-- Three rows, loaded with their ids: the map is not built.
abbrev loaded : IdMapIndex toy
loaded = record {
  inner = 10 ∷ 11 ∷ 12 ∷ [];
  slot_to_id = 7 ∷ 9 ∷ 5 ∷ [];
  id_to_slot = none;
  sorted_ids = 5 ∷ 7 ∷ 9 ∷ [];
  deferred_added = empty_set;
}

load_run : from_index_and_ids toy (10 ∷ 11 ∷ 12 ∷ []) (7 ∷ 9 ∷ 5 ∷ []) ≡ some loaded
unfolding program
load_run = refl

load_refused : from_index_and_ids toy (10 ∷ 11 ∷ 12 ∷ []) (7 ∷ 9 ∷ 7 ∷ []) ≡ none
unfolding program
load_refused = refl

from_index_and_ids-IsValid_example :
    IsValid toy loaded
    × (loaded.inner ≡ 10 ∷ 11 ∷ 12 ∷ [])
    × (loaded.slot_to_id ≡ 7 ∷ 9 ∷ 5 ∷ [])
    × Distinct (7 ∷ 9 ∷ 5 ∷ [])
from_index_and_ids-IsValid_example =
    from_index_and_ids-IsValid toy (10 ∷ 11 ∷ 12 ∷ []) (7 ∷ 9 ∷ 5 ∷ []) loaded refl load_run

loaded-IsValid : IsValid toy loaded
loaded-IsValid = from_index_and_ids-IsValid_example.0

from_v7_load-IsValid_example :
    ((m : IdMapIndex toy)
      → from_v7_load toy (some (10 ∷ 11 ∷ 12 ∷ [])) (7 ∷ 9 ∷ 5 ∷ []) ≡ some m
      → IsValid toy m
        × (m.inner ≡ 10 ∷ 11 ∷ 12 ∷ [])
        × (m.slot_to_id ≡ 7 ∷ 9 ∷ 5 ∷ [])
        × Distinct (7 ∷ 9 ∷ 5 ∷ []))
    × (Distinct (7 ∷ 9 ∷ 5 ∷ [])
        → is_some (from_v7_load toy (some (10 ∷ 11 ∷ 12 ∷ [])) (7 ∷ 9 ∷ 5 ∷ [])) ≡ true)
from_v7_load-IsValid_example =
    from_v7_load-IsValid toy (10 ∷ 11 ∷ 12 ∷ []) (7 ∷ 9 ∷ 5 ∷ []) refl refl

from_index_and_ids-Distinct_example :
    is_some (from_index_and_ids toy (1 ∷ 2 ∷ []) (4 ∷ 3 ∷ [])) ≡ true
from_index_and_ids-Distinct_example =
    from_index_and_ids-Distinct toy (1 ∷ 2 ∷ []) (4 ∷ 3 ∷ []) refl (refl, (refl, tt)) refl

remove_run :
    ((remove toy loaded 7).0.slot_to_id ≡ 5 ∷ 9 ∷ [])
    × ((remove toy loaded 7).0.inner ≡ 12 ∷ 11 ∷ [])
unfolding program
remove_run = (refl, refl)

add_run :
    (add_with_ids_2d toy loaded (20 ∷ 21 ∷ 22 ∷ 23 ∷ []) 2 (3 ∷ 4 ∷ [])).0.slot_to_id
    ≡ 7 ∷ 9 ∷ 5 ∷ 3 ∷ 4 ∷ []
unfolding program
add_run = refl

add_present :
    (add_with_ids_2d toy loaded (20 ∷ 21 ∷ []) 2 (9 ∷ [])).1 ≡ err (AddError.id_already_present 9)
unfolding program
add_present = refl

search_run :
    (try_search_with_allowlist toy loaded [] 1 (some (5 ∷ 5 ∷ []))).1
    ≡ ok (record { scores = 2 ∷ []; ids = 5 ∷ []; nq = 1; k = 1 })
unfolding program
search_run = refl

add_with_ids_2d-IsValid_example :
    IsValid toy (add_with_ids_2d toy loaded (20 ∷ 21 ∷ 22 ∷ 23 ∷ []) 2 (3 ∷ 4 ∷ [])).0
add_with_ids_2d-IsValid_example =
    Add.add_with_ids_2d-IsValid toy loaded (20 ∷ 21 ∷ 22 ∷ 23 ∷ []) 2 (3 ∷ 4 ∷ []) loaded-IsValid

add_with_ids_2d-Taken_example :
    Add.Taken toy loaded
      (add_with_ids_2d toy loaded (20 ∷ 21 ∷ 22 ∷ 23 ∷ []) 2 (3 ∷ 4 ∷ [])).0
      (20 ∷ 21 ∷ 22 ∷ 23 ∷ [])
      2
      (3 ∷ 4 ∷ [])
unfolding program
add_with_ids_2d-Taken_example =
    Add.add_with_ids_2d-Taken toy loaded (20 ∷ 21 ∷ 22 ∷ 23 ∷ []) 2 (3 ∷ 4 ∷ []) loaded-IsValid refl

add_with_ids_2d-Untouched_example :
    Add.Untouched toy loaded (add_with_ids_2d toy loaded (20 ∷ 21 ∷ []) 1 (3 ∷ 4 ∷ [])).0
unfolding program
add_with_ids_2d-Untouched_example =
    Add.add_with_ids_2d-Untouched toy loaded (20 ∷ 21 ∷ []) 1 (3 ∷ 4 ∷ []) loaded-IsValid refl

add_with_ids_2d-addable_example :
    (add_with_ids_2d toy loaded (20 ∷ 21 ∷ []) 2 (3 ∷ [])).1
    ≡ (toy_add (10 ∷ 11 ∷ 12 ∷ []) (20 ∷ 21 ∷ []) 2).1
unfolding program
add_with_ids_2d-addable_example =
    Add.add_with_ids_2d-addable toy loaded (20 ∷ 21 ∷ []) 2 (3 ∷ []) loaded-IsValid (omega arith)
      refl refl refl

add_with_ids_2d-not_addable_example :
    ((id : ℕ) × (add_with_ids_2d toy loaded (20 ∷ 21 ∷ []) 2 (9 ∷ [])
        ≡ (loaded, err (AddError.id_already_present id)))
      × (mem (9 ∷ []) id ≡ true)
      × (mem (7 ∷ 9 ∷ 5 ∷ []) id ≡ true))
    ⊎ ((id : ℕ) × (add_with_ids_2d toy loaded (20 ∷ 21 ∷ []) 2 (9 ∷ [])
          ≡ (loaded, err (AddError.duplicate_id_in_batch id)))
        × (2 ≤ count (9 ∷ []) id))
unfolding program
add_with_ids_2d-not_addable_example =
    Add.add_with_ids_2d-not_addable toy loaded (20 ∷ 21 ∷ []) 2 (9 ∷ []) loaded-IsValid
      (omega arith) refl refl refl

remove-IsValid_example : IsValid toy (remove toy loaded 7).0
remove-IsValid_example = Remove.remove-IsValid toy loaded loaded-IsValid 7

remove-mem_example : (remove toy loaded 7).1 ≡ ok (mem (7 ∷ 9 ∷ 5 ∷ []) 7)
remove-mem_example = Remove.remove-mem toy loaded loaded-IsValid 7

row_of-remove_example :
    row_of toy (remove toy loaded 7).0 5 ≡ (if 5 == 7 then none else row_of toy loaded 5)
row_of-remove_example = Remove.row_of-remove toy loaded loaded-IsValid 7 5

contains-mem_example :
    ((contains toy loaded 9).1 ≡ mem (7 ∷ 9 ∷ 5 ∷ []) 9)
    × IsValid toy (contains toy loaded 9).0
    × ((j : ℕ) → row_of toy (contains toy loaded 9).0 j ≡ row_of toy loaded j)
contains-mem_example = Remove.contains-mem toy loaded loaded-IsValid 9

row_of-add_with_ids_2d_example :
    row_of toy (add_with_ids_2d toy loaded (20 ∷ 21 ∷ []) 2 (3 ∷ [])).0 3
    ≡ (if mem (7 ∷ 9 ∷ 5 ∷ []) 3 then row_of toy loaded 3 else some 20)
unfolding program
row_of-add_with_ids_2d_example =
    Remove.row_of-add_with_ids_2d toy loaded (20 ∷ 21 ∷ []) 2 (3 ∷ []) loaded-IsValid refl 3

try_search_with_allowlist-ids_example :
    All (λ id. (mem (5 ∷ 5 ∷ []) id ≡ true) × (mem (7 ∷ 9 ∷ 5 ∷ []) id ≡ true)) (5 ∷ [])
try_search_with_allowlist-ids_example =
    Search.try_search_with_allowlist-ids toy loaded [] 1 loaded-IsValid (5 ∷ 5 ∷ [])
      (record { scores = 2 ∷ []; ids = 5 ∷ []; nq = 1; k = 1 }) search_run

try_search_with_allowlist-unknown_example :
    (j : ℕ) × ((try_search_with_allowlist toy loaded [] 1 (some (5 ∷ 8 ∷ []))).1
      ≡ err (SearchError.unknown_id j))
    × (mem (5 ∷ 8 ∷ []) j ≡ true)
    × (mem (7 ∷ 9 ∷ 5 ∷ []) j ≡ false)
try_search_with_allowlist-unknown_example =
    Search.try_search_with_allowlist-unknown toy loaded [] 1 loaded-IsValid (5 ∷ 8 ∷ []) 8 refl refl

toy_calm : (mask : List Bool) → toy_search (10 ∷ 11 ∷ 12 ∷ []) [] 1 (some mask) ≢ panic
unfolding toy_search
toy_calm mask = ground arith

try_search_with_allowlist-ne-panic_example :
    (try_search_with_allowlist toy loaded [] 1 (some (5 ∷ 7 ∷ []))).1 ≢ panic
try_search_with_allowlist-ne-panic_example =
    Search.try_search_with_allowlist-ne-panic toy loaded [] 1 loaded-IsValid (5 ∷ 7 ∷ []) toy_calm
