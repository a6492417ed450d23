-- ===== src/IdMap.antt =====
-- turbovec/src/id_map.rs: `IdMapIndex`, the index addressed by external ids, over the operations of
-- `VectorIndex`. A `HashMap` is a function to `Option`, a `HashSet` a function to `Bool`; a `OnceLock`
-- is an `Option`. Calls run one at a time, so the locks are not modelled.
pub mod Table
mod Sorted
mod Slots
mod Valid
mod Add
mod Contents
mod Remove
mod Search
mod Tests
use turbovec.Common.{
  sort, ℕ, zero, suc, ◌+◌, ◌-◌, ◌/◌, ◌%◌, Bool, true, false, not, ◌&&◌, ◌||◌, Option, none, some,
  List, [], ◌∷◌, ◌++◌, length, get_elem?, set, take, replicate, ◌==◌, if◌then◌else◌,
}
use turbovec.Error.{AddError, SearchError, Outcome, ok, err, panic}
use turbovec.VectorIndex.{VectorIndex, SearchResults}
use Table.{table_contains, has_repeat}

abbrev pub SlotMap : Type 0
SlotMap = ℕ → Option ℕ

abbrev pub IdSet : Type 0
IdSet = ℕ → Bool

abbrev pub insert : SlotMap → ℕ → ℕ → SlotMap
insert t id slot j = if j == id then some slot else t j

abbrev pub erase : SlotMap → ℕ → SlotMap
erase t id j = if j == id then none else t j

abbrev pub add_id : IdSet → ℕ → IdSet
add_id s id j = j == id || s j

-- Ids are given slots from `slot` on: the loops that fill the map.
unfoldable pub insert_from : SlotMap → ℕ → List ℕ → SlotMap
insert_from t slot [] = t
insert_from t slot (id ∷ ids) = insert_from (insert t id slot) (suc slot) ids

-- `added.extend(ids)`
unfoldable pub extend : IdSet → List ℕ → IdSet
extend s [] = s
extend s (id ∷ ids) = extend (add_id s id) ids

abbrev pub empty_map : SlotMap
empty_map id = none

abbrev pub empty_set : IdSet
empty_set id = false

-- The validation loop of an add; `present` is the presence check of the window.
unfoldable pub check_batch : {F : Type 0} → (ℕ → Bool) → IdSet → List ℕ → Option (AddError F)
check_batch present seen [] = none
check_batch present seen (id ∷ ids) =
    let rest = check_batch present (add_id seen id) ids in
    if present id
    then some (AddError.id_already_present id)
    else if seen id
    then some (AddError.duplicate_id_in_batch id)
    else rest

-- `ids.iter().all(|&id| seen.insert(id) && !present(id))`
unfoldable pub all_addable : (ℕ → Bool) → IdSet → List ℕ → Bool
all_addable present seen [] = true
all_addable present seen (id ∷ ids) =
    (not (seen id) && not (present id)) && all_addable present (add_id seen id) ids

abbrev pub is_some {ℓ} : {A : Type ℓ} → Option A → Bool
is_some none = false
is_some (some a) = true

module _ (V : VectorIndex) where
  pub record IdMapIndex : Type 0 where
    pub inner : V.Index
    pub slot_to_id : List ℕ
    pub id_to_slot : Option SlotMap
    pub sorted_ids : List ℕ
    pub deferred_added : IdSet

-- `IdSearchResults`
pub record IdSearchResults (F : Type 0) : Type 0 where
  pub scores : List F
  pub ids : List ℕ
  pub nq : ℕ
  pub k : ℕ

-- The slots of an allowlist's ids are set in the mask, which starts all false. An unknown id is an
-- error; a slot past the mask is a panic.
unfoldable pub build_mask :
    {F : Type 0} → SlotMap → List Bool → List ℕ → Outcome (SearchError F) (List Bool)
build_mask t mask [] = ok mask
build_mask t mask (id ∷ ids) = elim (t id) [
  | none ↦ err (SearchError.unknown_id id)
  | some slot ↦ elim (get_elem? mask slot) [
    | none ↦ panic
    | some b ↦ build_mask t (set mask slot true) ids
  ]
]

-- `slot_to_id[slot]` for each slot of a result; out of bounds is a panic.
unfoldable pub translate : List ℕ → List ℕ → Option (List ℕ)
translate slot_to_id [] = some []
translate slot_to_id (slot ∷ slots) = elim (get_elem? slot_to_id slot) [
  | none ↦ none
  | some id ↦ elim (translate slot_to_id slots) [ none ↦ none | some ids ↦ some (id ∷ ids) ]
]

module _ (V : VectorIndex) where
  -- What `new` and `new_lazy` put round a fresh index.
  unfoldable pub with_inner : V.Index → IdMapIndex V
  with_inner inner = record {
    inner = inner;
    slot_to_id = [];
    id_to_slot = some empty_map;
    sorted_ids = [];
    deferred_added = empty_set;
  }

  -- `none` stands for the `InvalidData` error.
  unfoldable pub from_index_and_ids : V.Index → List ℕ → Option (IdMapIndex V)
  from_index_and_ids inner slot_to_id =
      if length slot_to_id == V.len inner
      then if has_repeat (sort slot_to_id)
        then none
        else some (record {
          inner = inner;
          slot_to_id = slot_to_id;
          id_to_slot = none;
          sorted_ids = sort slot_to_id;
          deferred_added = empty_set;
        })
      else none

  -- The ids are those of the file, and `inner` is what `TurboQuantIndex::from_v7` makes of it, if it does not
  -- fail; `none` stands for either error.
  unfoldable pub from_v7_load : Option V.Index → List ℕ → Option (IdMapIndex V)
  from_v7_load none slot_to_id = none
  from_v7_load (some inner) slot_to_id =
      if has_repeat (sort slot_to_id)
      then none
      else some (record {
        inner = inner;
        slot_to_id = slot_to_id;
        id_to_slot = none;
        sorted_ids = sort slot_to_id;
        deferred_added = empty_set;
      })

  -- `ids`: the map, built from `slot_to_id` on first use; the load-time tables are then freed.
  unfoldable pub ids : IdMapIndex V → IdMapIndex V × SlotMap
  ids m = elim m.id_to_slot [
    | some t ↦ (m, t)
    | none ↦
        let t : SlotMap = insert_from empty_map 0 m.slot_to_id in
        (record m { id_to_slot = some t; sorted_ids = []; deferred_added = empty_set }, t)
  ]

  -- The presence check of an add: the tables of the deferred window, or the map.
  unfoldable pub present : IdMapIndex V → ℕ → Bool
  present m id = elim m.id_to_slot [
    | none ↦ table_contains m.sorted_ids id || m.deferred_added id
    | some t ↦ is_some (t id)
  ]

  -- The end of an add, once the inner index has taken the vectors.
  unfoldable pub commit_ids : IdMapIndex V → ℕ → List ℕ → IdMapIndex V
  commit_ids m base_slot new_ids = elim m.id_to_slot [
    | none ↦ record m {
      deferred_added = extend m.deferred_added new_ids;
      slot_to_id = m.slot_to_id ++ new_ids;
    }
    | some t ↦ record m {
      id_to_slot = some (insert_from t base_slot new_ids);
      slot_to_id = m.slot_to_id ++ new_ids;
    }
  ]

  unfoldable pub add_checked :
      IdMapIndex V → List V.F32 → ℕ → List ℕ → IdMapIndex V × Outcome (AddError V.F32) (Unit {0})
  add_checked m vectors dim new_ids =
      let base_slot = V.len m.inner in
      let (inner', r) = V.add_2d m.inner vectors dim in
      let m' : IdMapIndex V = record m { inner = inner' } in
      elim r [
        | ok _ ↦ (commit_ids m' base_slot new_ids, ok tt)
        | err e ↦ (m', err e)
        | panic ↦ (m', panic)
      ]

  unfoldable pub add_with_ids_2d :
      IdMapIndex V → List V.F32 → ℕ → List ℕ → IdMapIndex V × Outcome (AddError V.F32) (Unit {0})
  add_with_ids_2d m vectors dim new_ids =
      if dim == 0
      then (m, err AddError.zero_dim)
      else if length vectors % dim == 0
      then if length new_ids == length vectors / dim
        then elim (check_batch {F = V.F32} (present m) empty_set new_ids) [
          | some e ↦ (m, err e)
          | none ↦ add_checked m vectors dim new_ids
        ]
        else (m, err (AddError.ids_count_mismatch (length vectors / dim) (length new_ids)))
      else (m, err (AddError.vector_buffer_not_multiple_of_dim (length vectors) dim))

  -- `none` for the dim is the `expect` panic.
  unfoldable pub add_with_ids :
      IdMapIndex V → List V.F32 → List ℕ → IdMapIndex V × Outcome (AddError V.F32) (Unit {0})
  add_with_ids m vectors new_ids = elim (V.dim_opt m.inner) [
    | none ↦ (m, panic)
    | some dim ↦ add_with_ids_2d m vectors dim new_ids
  ]

  unfoldable pub batch_addable : IdMapIndex V → List ℕ → Bool
  batch_addable m new_ids = all_addable (present m) empty_set new_ids

  -- The table half of a removal, after the inner index has moved `last` into `slot`.
  unfoldable pub remove_id : IdMapIndex V → SlotMap → ℕ → ℕ → Option (IdMapIndex V)
  remove_id m t id slot =
      let last = length m.slot_to_id - 1 in
      if slot == last
      then some (record m { id_to_slot = some (erase t id); slot_to_id = take last m.slot_to_id })
      else elim (get_elem? m.slot_to_id last) [
        | none ↦ none
        | some moved_id ↦ some (record m {
          id_to_slot = some (insert (erase t id) moved_id slot);
          slot_to_id = take last (set m.slot_to_id slot moved_id);
        })
      ]

  unfoldable pub remove : IdMapIndex V → ℕ → IdMapIndex V × Outcome (AddError V.F32) Bool
  remove m id =
      let (m1, t) = ids m in
      elim (t id) [
        | none ↦ (m1, ok false)
        | some slot ↦
            let (inner', r) = V.swap_remove m1.inner slot in
            let m2 : IdMapIndex V = record m1 { inner = inner' } in
            elim r [
              | ok _ ↦ elim (remove_id m2 t id slot) [
                | none ↦ (m2, panic)
                | some m3 ↦ (m3, ok true)
              ]
              | err e ↦ (m2, err e)
              | panic ↦ (m2, panic)
            ]
      ]

  unfoldable pub contains : IdMapIndex V → ℕ → IdMapIndex V × Bool
  contains m id = let (m1, t) = ids m in (m1, is_some (t id))

  abbrev pub len : IdMapIndex V → ℕ
  len m = length m.slot_to_id

  -- The search under a mask, with its slots turned into ids.
  unfoldable pub search_masked :
      IdMapIndex V
      → List V.F32
      → ℕ
      → Option (List Bool)
      → Outcome (SearchError V.F32) (IdSearchResults V.F32)
  search_masked m queries k mask = elim (V.try_search_with_mask m.inner queries k mask) [
    | ok res ↦ elim (translate m.slot_to_id res.indices) [
      | none ↦ panic
      | some found ↦ ok (record { scores = res.scores; ids = found; nq = res.nq; k = res.k })
    ]
    | err e ↦ err e
    | panic ↦ panic
  ]

  -- The map is looked at only if there is an allowlist with an id in it.
  unfoldable pub try_search_with_allowlist :
      IdMapIndex V
      → List V.F32
      → ℕ
      → Option (List ℕ)
      → IdMapIndex V × Outcome (SearchError V.F32) (IdSearchResults V.F32)
  try_search_with_allowlist m queries k none = (m, search_masked m queries k none)
  try_search_with_allowlist m queries k (some []) = (m, err SearchError.allowlist_empty)
  try_search_with_allowlist m queries k (some (id ∷ rest)) =
      let (m1, t) = ids m in
      elim (build_mask {F = V.F32} t (replicate (V.len m.inner) false) (id ∷ rest)) [
        | ok mask ↦ (m1, search_masked m1 queries k (some mask))
        | err e ↦ (m1, err e)
        | panic ↦ (m1, panic)
      ]
