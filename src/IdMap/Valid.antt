-- ===== src/IdMap/Valid.antt =====
-- The invariant of `IdMapIndex`, and that loads, adds and removals keep it.
use turbovec.Common.{
  sort, IsSorted, sort-IsSorted, mem-sort, ℕ, ◌+◌, ◌≡◌, refl, ap, sym, ◌∙◌, Bool, true, false, ◌||◌,
  Option, none, some, List, [], ◌++◌, inl, inr, length, length-append, ◌==◌, mem, mem-append, Fresh,
  Distinct, Fresh-append, Fresh-under, Bool-cases, Option-cases, arith,
}
use mathlib.Core.List.{append-nil}
use turbovec.VectorIndex.{VectorIndex}
use turbovec.IdMap.{
  SlotMap, IdMapIndex, empty_map, empty_set, insert_from, check_batch, is_some, with_inner,
  from_index_and_ids, from_v7_load, ids, present, commit_ids,
}
use turbovec.IdMap.Table.{has_repeat, table_contains}
use turbovec.IdMap.Sorted.{table_contains-mem, has_repeat-sort}
use turbovec.IdMap.Slots.{
  Inverse, Inverse-nil, Inverse-insert_from, is_some-mem, extend-mem, check_batch-Fresh,
}

-- The map inverts the ids by slot; while it is not built, the ids are distinct and the load-time table
-- and the set of later additions together hold exactly the live ids.
abbrev pub Agrees : Option SlotMap → List ℕ → List ℕ → (ℕ → Bool) → Type 0
Agrees (some t) slots sorted added = Inverse t slots
Agrees none slots sorted added =
    Distinct slots × IsSorted sorted × ((id : ℕ) → (mem sorted id || added id) ≡ mem slots id)

module _ (V : VectorIndex) where
  pub record IsValid (m : IdMapIndex V) : Type 0 where
    pub sized : length m.slot_to_id ≡ V.len m.inner
    pub writable : V.is_mapped m.inner ≡ false
    pub agrees : Agrees m.id_to_slot m.slot_to_id m.sorted_ids m.deferred_added

  pub present-mem : (m : IdMapIndex V) → IsValid m → (id : ℕ) → present V m id ≡ mem m.slot_to_id id
  unfolding present
  present-mem m v id = go m.id_to_slot v.agrees
    where
      go :
          (o : Option SlotMap)
          → Agrees o m.slot_to_id m.sorted_ids m.deferred_added
          → elim o as (λ _. Bool) [
            | none ↦ table_contains m.sorted_ids id || m.deferred_added id
            | some t ↦ is_some (t id)
          ]
            ≡ mem m.slot_to_id id
      go none (d, s, w) = rw (table_contains-mem m.sorted_ids id s) (w id)
      go (some t) inv = is_some-mem t m.slot_to_id inv id

  Inverse-collect :
      (slots : List ℕ) → Distinct slots → Inverse (insert_from empty_map 0 slots) slots
  Inverse-collect slots d = Inverse-insert_from slots empty_map [] Inverse-nil d

  -- A map that is built on first use inverts the ids, and nothing else of the index changes.
  pub ids_lem :
      (m : IdMapIndex V)
      → IsValid m
      → Inverse (ids V m).1 m.slot_to_id
        × ((ids V m).0.slot_to_id ≡ m.slot_to_id)
        × ((ids V m).0.inner ≡ m.inner)
        × ((ids V m).0.id_to_slot ≡ some (ids V m).1)
  unfolding ids
  ids_lem m v = elim (Option-cases m.id_to_slot) [
    | inl e ↦
        let a : Agrees none m.slot_to_id m.sorted_ids m.deferred_added = rw e at v.agrees in
        rw (e, ids) (Inverse-collect m.slot_to_id a.0, refl, refl, refl)
    | inr (t, e) ↦
        let a : Agrees (some t) m.slot_to_id m.sorted_ids m.deferred_added = rw e at v.agrees in
        rw (e, ids) (a, refl, refl, e)
  ]

  pub ids-IsValid : (m : IdMapIndex V) → IsValid m → IsValid (ids V m).0
  ids-IsValid m v =
      let (inv, slots, inner, built) = ids_lem m v in
      record {
        sized = rw (slots, inner) v.sized;
        writable = rw inner v.writable;
        agrees = rw (built, slots) inv;
      }

  pub with_inner-IsValid :
      (i : V.Index) → V.len i ≡ 0 → V.is_mapped i ≡ false → IsValid (with_inner V i)
  unfolding with_inner
  with_inner-IsValid i h w = record { sized = sym h; writable = w; agrees = Inverse-nil }

  from_index_and_ids_lem :
      (i : V.Index) (slots : List ℕ)
      → V.is_mapped i ≡ false
      → ((m : IdMapIndex V)
          → from_index_and_ids V i slots ≡ some m
          → IsValid m × (m.inner ≡ i) × (m.slot_to_id ≡ slots) × Distinct slots)
        × (Distinct slots → length slots ≡ V.len i → is_some (from_index_and_ids V i slots) ≡ true)
  unfolding from_index_and_ids
  from_index_and_ids_lem i slots w = elim (Bool-cases (length slots == V.len i)) [
    | inl e ↦ elim (Bool-cases (has_repeat (sort slots))) [
      | inl r ↦
          rw (e, r)
            (
              λ m h. absurd (ground arith),
              λ d _. absurd (ground (arith, (has_repeat-sort slots).1 d)),
            )
      | inr r ↦
          let d = (has_repeat-sort slots).0 r in
          let fresh : IdMapIndex V = record {
            inner = i;
            slot_to_id = slots;
            id_to_slot = none;
            sorted_ids = sort slots;
            deferred_added = empty_set;
          } in
          let valid : IsValid fresh = record {
            sized = ground arith;
            writable = w;
            agrees = (d, sort-IsSorted slots, λ id. ground (arith, mem-sort slots id));
          } in
          rw (e, r) (λ m h. let q : fresh ≡ m = cc in rw (← q) (valid, refl, refl, d), λ _ _. refl)
    ]
    | inr e ↦ rw e (λ m h. absurd (ground arith), λ d q. absurd (ground arith))
  ]

  -- Over an inner index that is not mapped, a table of ids that `from_index_and_ids` accepts holds no id twice, and
  -- the index it yields is well formed over that table and that inner index.
  pub from_index_and_ids-IsValid :
      (i : V.Index) (slots : List ℕ) (m : IdMapIndex V)
      → V.is_mapped i ≡ false
      → from_index_and_ids V i slots ≡ some m
      → IsValid m × (m.inner ≡ i) × (m.slot_to_id ≡ slots) × Distinct slots
  from_index_and_ids-IsValid i slots m w h = (from_index_and_ids_lem i slots w).0 m h

  -- Over an inner index that is not mapped, `from_index_and_ids` refuses no table that has an id for each row and holds no id twice.
  pub from_index_and_ids-Distinct :
      (i : V.Index) (slots : List ℕ)
      → V.is_mapped i ≡ false
      → Distinct slots
      → length slots ≡ V.len i
      → is_some (from_index_and_ids V i slots) ≡ true
  from_index_and_ids-Distinct i slots w = (from_index_and_ids_lem i slots w).1

  sized_load :
      (i : V.Index) (slots : List ℕ)
      → length slots ≡ V.len i
      → from_v7_load V (some i) slots ≡ from_index_and_ids V i slots
  unfolding from_index_and_ids from_v7_load
  sized_load i slots h =
      let whole : (length slots == V.len i) ≡ true = ground (arith, h) in rw whole refl

  -- Where a file has an id for each row of the inner index it gives, which is not mapped: its load
  -- succeeds exactly when it holds no id twice, and the loaded index is then well formed over the
  -- file's table and that inner index.
  pub from_v7_load-IsValid :
      (i : V.Index) (slots : List ℕ)
      → V.is_mapped i ≡ false
      → length slots ≡ V.len i
      → ((m : IdMapIndex V)
          → from_v7_load V (some i) slots ≡ some m
          → IsValid m × (m.inner ≡ i) × (m.slot_to_id ≡ slots) × Distinct slots)
        × (Distinct slots → is_some (from_v7_load V (some i) slots) ≡ true)
  from_v7_load-IsValid i slots w h =
      let same = sized_load i slots h in
      let both = from_index_and_ids_lem i slots w in
      (λ m e. both.0 m (sym same ∙ e), λ d. ap is_some same ∙ both.1 d h)

  -- The ids of a batch go behind the others, in either window.
  pub commit_ids-IsValid :
      (m : IdMapIndex V) (inner' : V.Index) (new_ids : List ℕ)
      → IsValid m
      → Fresh new_ids m.slot_to_id
      → V.len inner' ≡ V.len m.inner + length new_ids
      → V.is_mapped inner' ≡ false
      → IsValid (commit_ids V (record m { inner = inner' }) (V.len m.inner) new_ids)
        × ((commit_ids V (record m { inner = inner' }) (V.len m.inner) new_ids).slot_to_id
            ≡ m.slot_to_id ++ new_ids)
        × ((commit_ids V (record m { inner = inner' }) (V.len m.inner) new_ids).inner ≡ inner')
  unfolding commit_ids
  commit_ids-IsValid m inner' new_ids v f n w =
      let size : length (m.slot_to_id ++ new_ids) ≡ V.len inner' =
        omega (arith, length-append m.slot_to_id new_ids, v.sized) in
      elim (Option-cases m.id_to_slot) [
        | inl e ↦
            let a : Agrees none m.slot_to_id m.sorted_ids m.deferred_added = rw e at v.agrees in
            rw (e, commit_ids)
              (
                record {
                  sized = size;
                  writable = w;
                  agrees = rw e (
                    Fresh-append m.slot_to_id new_ids [] a.0 f,
                    a.1,
                    λ id. ground (
                      arith,
                      a.2 id,
                      extend-mem new_ids m.deferred_added id,
                      mem-append m.slot_to_id new_ids id,
                    ),
                  );
                },
                refl,
                refl,
              )
        | inr (t, e) ↦
            let a : Agrees (some t) m.slot_to_id m.sorted_ids m.deferred_added = rw e at v.agrees in
            rw (e, commit_ids)
              (
                record {
                  sized = size;
                  writable = w;
                  agrees = rw (← v.sized) (Inverse-insert_from new_ids t m.slot_to_id a f);
                },
                refl,
                refl,
              )
      ]

  pub batch-Fresh :
      (m : IdMapIndex V) (new_ids : List ℕ)
      → IsValid m
      → check_batch {F = V.F32} (present V m) empty_set new_ids ≡ none
      → Fresh new_ids m.slot_to_id
  batch-Fresh m new_ids v c =
      let (f, absent) =
        check_batch-Fresh {F = V.F32} (present V m) new_ids [] empty_set (λ a. refl) c in
      rw append-nil at
        (Fresh-under new_ids [] m.slot_to_id f (λ a h. sym (present-mem m v a) ∙ absent a h))
