-- ===== src/IdMap/Remove.antt =====
-- `remove` and `contains` of turbovec/src/id_map.rs, and what an add does to the rows stored by id.
use turbovec.Common.{
  ℕ, ◌-◌, ◌<◌, ◌≡◌, sym, ap, ◌∙◌, true, false, none, some, List, ◌≢◌, inl, inr, length, length-take,
  length-set, get_elem?, set, take, ◌==◌, if◌then◌else◌, mem, get_of_lt, get_lt, Bool-cases,
  Option-cases, arith,
}
use turbovec.Error.{ok, is_ok}
use turbovec.VectorIndex.{VectorIndex, swap_remove_at}
use turbovec.IdMap.{
  IdMapIndex, SlotMap, insert, erase, ids, remove_id, remove, contains, add_with_ids_2d,
}
use turbovec.IdMap.Slots.{Inverse, Inverse-pop, Inverse-swap, is_some-mem}
use turbovec.IdMap.Valid.{IsValid, ids_lem, ids-IsValid}
use turbovec.IdMap.Add.{add_with_ids_2d-Taken}
use turbovec.IdMap.Contents.{
  find, row_at, row_of, find-Inverse, find_absent, row_at-append, row_at-pop, row_at-swap,
}

module _ (V : VectorIndex) where
  rows_length : (m : IdMapIndex V) → IsValid V m → length (V.rows m.inner) ≡ length m.slot_to_id
  rows_length m v = sym (V.len-rows m.inner) ∙ sym v.sized

  -- What the two halves of a removal leave: a well-formed index whose rows are the old ones, but for
  -- the id that is gone.
  abbrev Removed : IdMapIndex V → ℕ → IdMapIndex V → Type 0
  Removed m id m' =
      IsValid V m' × ((j : ℕ) → row_of V m' j ≡ (if j == id then none else row_of V m j))

  Removed-swap :
      (m : IdMapIndex V) (t : SlotMap) (inner' : V.Index) (id slot moved : ℕ)
      → IsValid V m
      → Inverse t m.slot_to_id
      → t id ≡ some slot
      → V.rows inner' ≡ swap_remove_at (V.rows m.inner) slot
      → V.len inner' ≡ V.len m.inner - 1
      → V.is_mapped inner' ≡ false
      → slot ≢ length m.slot_to_id - 1
      → get_elem? m.slot_to_id (length m.slot_to_id - 1) ≡ some moved
      → Removed m id (record m {
        inner = inner';
        id_to_slot = some (insert (erase t id) moved slot);
        slot_to_id = take (length m.slot_to_id - 1) (set m.slot_to_id slot moved);
      })
  Removed-swap m t inner' id slot moved v inv at rows len w ne last =
      let slots = m.slot_to_id in
      let after = Inverse-swap t slots id slot moved inv at ne last in
      (
        record {
          sized = omega (
            arith,
            length-take (length slots - 1) (set slots slot moved),
            length-set slots slot moved,
            v.sized,
            len,
          );
          writable = w;
          agrees = after;
        },
        λ j.
            let after_find = find-Inverse _ _ after in
            rw (after_find j, rows, find-Inverse t slots inv j)
              (row_at-swap t slots (V.rows m.inner) id slot inv at (rows_length m v) moved ne last
                j),
      )

  Removed-pop :
      (m : IdMapIndex V) (t : SlotMap) (inner' : V.Index) (id slot : ℕ)
      → IsValid V m
      → Inverse t m.slot_to_id
      → t id ≡ some slot
      → V.rows inner' ≡ swap_remove_at (V.rows m.inner) slot
      → V.len inner' ≡ V.len m.inner - 1
      → V.is_mapped inner' ≡ false
      → slot ≡ length m.slot_to_id - 1
      → Removed m id (record m {
        inner = inner';
        id_to_slot = some (erase t id);
        slot_to_id = take (length m.slot_to_id - 1) m.slot_to_id;
      })
  Removed-pop m t inner' id slot v inv at rows len w last =
      let slots = m.slot_to_id in
      let after = Inverse-pop t slots id inv (at ∙ ap some last) in
      (
        record {
          sized = omega (arith, length-take (length slots - 1) slots, v.sized, len);
          writable = w;
          agrees = after;
        },
        λ j.
            let after_find = find-Inverse _ _ after in
            rw (after_find j, rows, find-Inverse t slots inv j)
              (row_at-pop t slots (V.rows m.inner) id slot inv at (rows_length m v) last j),
      )

  length-swap_remove_at :
      {R : Type 0} (rows : List R) (k : ℕ)
      → k < length rows
      → length (swap_remove_at rows k) ≡ length rows - 1
  unfolding swap_remove_at
  length-swap_remove_at rows k h =
      let (last, e) = get_of_lt rows (length rows - 1) (omega arith) in
      rw (e, swap_remove_at)
        (omega (arith, length-take (length rows - 1) (set rows k last), length-set rows k last))

  Removed-ids :
      (m : IdMapIndex V) (id : ℕ) (m' : IdMapIndex V)
      → IsValid V m
      → Removed (ids V m).0 id m'
      → Removed m id m'
  Removed-ids m id m' v (valid, rows) =
      let (inv, slots, inner, built) = ids_lem V m v in (valid, λ j. rw (slots, inner) at (rows j))

  remove_id_lem :
      (m : IdMapIndex V) (t : SlotMap) (id slot : ℕ)
      → IsValid V m
      → Inverse t m.slot_to_id
      → t id ≡ some slot
      → (m' : IdMapIndex V) × (remove_id V
            (record m { inner = (V.swap_remove m.inner slot).0 })
            t
            id
            slot
          ≡ some m')
        × Removed m id m'
  unfolding remove_id
  remove_id_lem m t id slot v inv at =
      let slots = m.slot_to_id in
      let inside : slot < length slots = get_lt slots slot id ((inv id slot).0 at) in
      let (done, rows, w) = V.swap_remove_lem m.inner slot v.writable (omega (arith, v.sized)) in
      let inner' = (V.swap_remove m.inner slot).0 in
      let len : V.len inner' ≡ V.len m.inner - 1 = omega (
        arith,
        V.len-rows inner',
        V.len-rows m.inner,
        ap length rows,
        v.sized,
        length-swap_remove_at (V.rows m.inner) slot (omega (arith, V.len-rows m.inner, v.sized)),
      ) in
      let (moved, last) = get_of_lt slots (length slots - 1) (omega arith) in
      elim (Bool-cases (slot == length slots - 1)) [
        | inl e ↦ (_, rw e, Removed-pop m t inner' id slot v inv at rows len w (ground arith))
        | inr e ↦ (
          _,
          rw (e, last),
          Removed-swap m t inner' id slot moved v inv at rows len w (ground arith) last,
        )
      ]

  remove_lem :
      (m : IdMapIndex V) (id : ℕ)
      → IsValid V m
      → ((remove V m id).1 ≡ ok (mem m.slot_to_id id)) × Removed m id (remove V m id).0
  unfolding remove
  remove_lem m id v =
      let v1 = ids-IsValid V m v in
      let (inv, slots, inner, built) = ids_lem V m v in
      let m1 = (ids V m).0 in
      let t = (ids V m).1 in
      let inv1 : Inverse t m1.slot_to_id = rw slots inv in
      let known = is_some-mem t m.slot_to_id inv id in
      elim (Option-cases (t id)) [
        | inl e ↦
            let absent : mem m1.slot_to_id id ≡ false = rw slots (sym known ∙ rw e) in
            rw (e, remove)
              (
                ap ok (sym (sym known ∙ rw e)),
                Removed-ids m id m1 v (
                  v1,
                  λ j. elim (Bool-cases (j == id)) [
                    | inl q ↦
                        let same : j ≡ id = ground arith in
                        rw (q, same, find_absent m1.slot_to_id id absent)
                    | inr q ↦ rw q
                  ],
                ),
              )
        | inr (slot, e) ↦
            let (m', step, removed) = remove_id_lem m1 t id slot v1 inv1 e in
            let inside : slot < length m1.slot_to_id =
              get_lt m1.slot_to_id slot id ((inv1 id slot).0 e) in
            let (done, rows, w) =
              V.swap_remove_lem m1.inner slot v1.writable (omega (arith, v1.sized)) in
            rw (e, done, step, remove)
              (ap ok (sym (sym known ∙ rw e)), Removed-ids m id m' v removed)
      ]

  module _ (m : IdMapIndex V) (v : IsValid V m) (id : ℕ) where
    -- A removal from a well-formed index leaves a well-formed index.
    pub remove-IsValid : IsValid V (remove V m id).0
    remove-IsValid = (remove_lem m id v).1.0

    -- On a well-formed index a removal never panics, and answers whether the id was there.
    pub remove-mem : (remove V m id).1 ≡ ok (mem m.slot_to_id id)
    remove-mem = (remove_lem m id v).0

    -- On a well-formed index a removal takes away the row of that id, and leaves every other id its row.
    pub row_of-remove :
        (j : ℕ) → row_of V (remove V m id).0 j ≡ (if j == id then none else row_of V m j)
    row_of-remove = (remove_lem m id v).1.1

    -- On a well-formed index `contains` answers whether the table of slots holds the id; it leaves a
    -- well-formed index, in which every id has its row.
    pub contains-mem :
        ((contains V m id).1 ≡ mem m.slot_to_id id)
        × IsValid V (contains V m id).0
        × ((j : ℕ) → row_of V (contains V m id).0 j ≡ row_of V m j)
    unfolding contains
    contains-mem =
        let (inv, slots, inner, built) = ids_lem V m v in
        (is_some-mem (ids V m).1 m.slot_to_id inv id, ids-IsValid V m v, λ j. rw (slots, inner))

  -- On a well-formed index an add that succeeds leaves every id of the index its row, and gives any
  -- other id the row of its first place in the batch, or none if it is not there.
  pub row_of-add_with_ids_2d :
      (m : IdMapIndex V) (vectors : List V.F32) (dim : ℕ) (new_ids : List ℕ)
      → IsValid V m
      → is_ok (add_with_ids_2d V m vectors dim new_ids).1 ≡ true
      → (id : ℕ)
      → row_of V (add_with_ids_2d V m vectors dim new_ids).0 id ≡ (
          if mem m.slot_to_id id
          then row_of V m id
          else row_at (find new_ids id) (V.encode m.inner vectors dim))
  row_of-add_with_ids_2d m vectors dim new_ids v h id =
      let (slots, rows) = add_with_ids_2d-Taken V m vectors dim new_ids v h in
      rw (slots, rows)
        (row_at-append m.slot_to_id new_ids (V.rows m.inner) (V.encode m.inner vectors dim) id
          (rows_length m v))
