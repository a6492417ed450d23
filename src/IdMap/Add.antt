-- ===== src/IdMap/Add.antt =====
-- `add_with_ids_2d` of turbovec/src/id_map.rs: all of a batch or none of it.
use turbovec.Common.{
  ℕ, ◌+◌, ◌/◌, ◌%◌, ◌≤◌, ◌<◌, ◌≡◌, refl, sym, ap, ◌∙◌, true, false, List, [], ◌++◌, ◌⊎◌, inl, inr,
  length, length-append, ◌==◌, mem, Fresh, Bool-cases, Option-cases, count, arith,
}
use turbovec.Error.{AddError, Outcome, ok, err, panic, is_ok}
use turbovec.VectorIndex.{VectorIndex}
use turbovec.IdMap.{
  IdMapIndex, empty_set, check_batch, present, add_checked, add_with_ids_2d, batch_addable,
}
use turbovec.IdMap.Slots.{check_batch-some, all_addable-check_batch}
use turbovec.IdMap.Valid.{IsValid, commit_ids-IsValid, batch-Fresh, present-mem}

module _ (V : VectorIndex) where
  abbrev pub Taken : IdMapIndex V → IdMapIndex V → List V.F32 → ℕ → List ℕ → Type 0
  Taken m m' vectors dim new_ids =
      (m'.slot_to_id ≡ m.slot_to_id ++ new_ids)
      × (V.rows m'.inner ≡ V.rows m.inner ++ V.encode m.inner vectors dim)

  abbrev pub Untouched : IdMapIndex V → IdMapIndex V → Type 0
  Untouched m m' =
      (m'.slot_to_id ≡ m.slot_to_id)
      × (V.rows m'.inner ≡ V.rows m.inner)
      × ((id : ℕ) → present V m' id ≡ present V m id)

  Outcome-cases :
      (r : Outcome (AddError V.F32) (Unit {0}))
      → ((r ≡ ok tt) ⊎ ((e : AddError V.F32) × (r ≡ err e))) ⊎ (r ≡ panic)
  Outcome-cases (ok tt) = inl (inl refl)
  Outcome-cases (err e) = inl (inr (e, refl))
  Outcome-cases panic = inr refl

  len_of_rows : (i j : V.Index) → V.rows i ≡ V.rows j → V.len i ≡ V.len j
  len_of_rows i j e = V.len-rows i ∙ ap length e ∙ sym (V.len-rows j)

  -- The inner index fails: its rows and the tables are as they were.
  inner_failed :
      (m : IdMapIndex V) (inner' : V.Index)
      → IsValid V m
      → V.rows inner' ≡ V.rows m.inner
      → V.is_mapped inner' ≡ V.is_mapped m.inner
      → IsValid V (record m { inner = inner' }) × Untouched m (record m { inner = inner' })
  unfolding present
  inner_failed m inner' v e w = (
    record {
      sized = v.sized ∙ sym (len_of_rows inner' m.inner e);
      writable = w ∙ v.writable;
      agrees = v.agrees;
    },
    (refl, e, λ id. refl),
  )

  abbrev Result :
      IdMapIndex V
      → List V.F32
      → ℕ
      → List ℕ
      → IdMapIndex V × Outcome (AddError V.F32) (Unit {0})
      → Type 0
  Result m vectors dim new_ids r =
      IsValid V r.0
      × (is_ok r.1 ≡ true → Taken m r.0 vectors dim new_ids)
      × (is_ok r.1 ≡ false → Untouched m r.0)

  refused :
      (m : IdMapIndex V) (vectors : List V.F32) (dim : ℕ) (new_ids : List ℕ) (e : AddError V.F32)
      → IsValid V m
      → Result m vectors dim new_ids (m, err e)
  refused m vectors dim new_ids e v = (v, λ h. absurd (ground arith), λ _. (refl, refl, λ id. refl))

  add_checked_lem :
      (m : IdMapIndex V) (vectors : List V.F32) (dim : ℕ) (new_ids : List ℕ)
      → IsValid V m
      → Fresh new_ids m.slot_to_id
      → length new_ids ≡ length vectors / dim
      → Result m vectors dim new_ids (add_checked V m vectors dim new_ids)
  unfolding add_checked
  add_checked_lem m vectors dim new_ids v f n =
      let inner' = (V.add_2d m.inner vectors dim).0 in
      let w = V.add_2d-mapped m.inner vectors dim in
      elim (Outcome-cases (V.add_2d m.inner vectors dim).1) [
        | inl (inl e) ↦
            let grown = V.add_2d-ok m.inner vectors dim (rw e) in
            let size : V.len inner' ≡ V.len m.inner + length new_ids = omega (
              arith,
              V.len-rows inner',
              V.len-rows m.inner,
              ap length grown,
              length-append (V.rows m.inner) (V.encode m.inner vectors dim),
              V.length-encode m.inner vectors dim,
              n,
            ) in
            let (valid, slots, inner) =
              commit_ids-IsValid V m inner' new_ids v f size (w ∙ v.writable) in
            rw (e, add_checked) (valid, λ _. (slots, rw inner grown), λ h. absurd (ground arith))
        | inl (inr (x, e)) ↦
            let (valid, same) =
              inner_failed m inner' v (V.add_2d-fail m.inner vectors dim (rw e)) w in
            rw (e, add_checked) (valid, λ h. absurd (ground arith), λ _. same)
        | inr e ↦
            let (valid, same) =
              inner_failed m inner' v (V.add_2d-fail m.inner vectors dim (rw e)) w in
            rw (e, add_checked) (valid, λ h. absurd (ground arith), λ _. same)
      ]

  add_lem :
      (m : IdMapIndex V) (vectors : List V.F32) (dim : ℕ) (new_ids : List ℕ)
      → IsValid V m
      → Result m vectors dim new_ids (add_with_ids_2d V m vectors dim new_ids)
  unfolding add_with_ids_2d
  add_lem m vectors dim new_ids v = elim (Bool-cases (dim == 0)) [
    | inl z ↦ rw (z, add_with_ids_2d) (refused m vectors dim new_ids AddError.zero_dim v)
    | inr z ↦ elim (Bool-cases (length vectors % dim == 0)) [
      | inr d ↦
          rw (z, d, add_with_ids_2d)
            (refused m vectors dim new_ids
              (AddError.vector_buffer_not_multiple_of_dim (length vectors) dim) v)
      | inl d ↦ elim (Bool-cases (length new_ids == length vectors / dim)) [
        | inr n ↦
            rw (z, d, n, add_with_ids_2d)
              (refused m vectors dim new_ids
                (AddError.ids_count_mismatch (length vectors / dim) (length new_ids)) v)
        | inl n ↦ elim (Option-cases (check_batch {F = V.F32} (present V m) empty_set new_ids)) [
          | inl c ↦
              rw (z, d, n, c, add_with_ids_2d)
                (add_checked_lem m vectors dim new_ids v (batch-Fresh V m new_ids v c)
                  (ground arith))
          | inr (x, c) ↦ rw (z, d, n, c, add_with_ids_2d) (refused m vectors dim new_ids x v)
        ]
      ]
    ]
  ]

  module _ (m : IdMapIndex V) (vectors : List V.F32) (dim : ℕ) (new_ids : List ℕ)
      (v : IsValid V m) where
    -- Whatever an add to a well-formed index comes back with, the index is well formed after it.
    pub add_with_ids_2d-IsValid : IsValid V (add_with_ids_2d V m vectors dim new_ids).0
    add_with_ids_2d-IsValid = (add_lem m vectors dim new_ids v).0

    -- On a well-formed index, a batch that is taken is taken whole: its ids and its rows go behind the others, in order.
    pub add_with_ids_2d-Taken :
        is_ok (add_with_ids_2d V m vectors dim new_ids).1 ≡ true
        → Taken m (add_with_ids_2d V m vectors dim new_ids).0 vectors dim new_ids
    add_with_ids_2d-Taken = (add_lem m vectors dim new_ids v).1

    -- On a well-formed index, an add that fails, by an error or a panic of the inner index, changes no id and no row.
    pub add_with_ids_2d-Untouched :
        is_ok (add_with_ids_2d V m vectors dim new_ids).1 ≡ false
        → Untouched m (add_with_ids_2d V m vectors dim new_ids).0
    add_with_ids_2d-Untouched = (add_lem m vectors dim new_ids v).2

    module _ (pos : 0 < dim) (whole : length vectors % dim ≡ 0)
        (sized : length new_ids ≡ length vectors / dim) where
      -- On a well-formed index, where the dim is positive and the vectors and ids match it in number, a
      -- batch that `batch_addable` accepts gets the inner index's answer.
      pub add_with_ids_2d-addable :
          batch_addable V m new_ids ≡ true
          → (add_with_ids_2d V m vectors dim new_ids).1 ≡ (V.add_2d m.inner vectors dim).1
      unfolding add_with_ids_2d batch_addable add_checked
      add_with_ids_2d-addable h =
          let c = (all_addable-check_batch {F = V.F32} (present V m) new_ids empty_set).0 h in
          elim (Outcome-cases (V.add_2d m.inner vectors dim).1) [
            | inl (inl e) ↦ ground (arith, c, e, pos, whole, sized)
            | inl (inr (x, e)) ↦ ground (arith, c, e, pos, whole, sized)
            | inr e ↦ ground (arith, c, e, pos, whole, sized)
          ]

      -- On a well-formed index, where the dim is positive and the vectors and ids match it in number, a
      -- batch that `batch_addable` rejects is refused for an id that is in the index, or that the batch holds twice, and
      -- nothing changes.
      pub add_with_ids_2d-not_addable :
          batch_addable V m new_ids ≡ false
          → ((id : ℕ) × (add_with_ids_2d V m vectors dim new_ids
                ≡ (m, err (AddError.id_already_present id)))
              × (mem new_ids id ≡ true)
              × (mem m.slot_to_id id ≡ true))
            ⊎ ((id : ℕ) × (add_with_ids_2d V m vectors dim new_ids
                  ≡ (m, err (AddError.duplicate_id_in_batch id)))
                × (2 ≤ count new_ids id))
      unfolding add_with_ids_2d batch_addable
      add_with_ids_2d-not_addable h =
          elim (Option-cases (check_batch {F = V.F32} (present V m) empty_set new_ids)) [
            | inl c ↦ absurd (
                ground (
                  arith,
                  (all_addable-check_batch {F = V.F32} (present V m) new_ids empty_set).1 c,
                ))
            | inr (x, c) ↦
                elim (check_batch-some (present V m) new_ids [] empty_set x (λ a. refl) c) [
                  | inl (id, e, i, p) ↦ inl (
                    id,
                    ground (arith, c, e, pos, whole, sized),
                    i,
                    sym (present-mem V m v id) ∙ p,
                  )
                  | inr (id, e, two) ↦ inr (id, ground (arith, c, e, pos, whole, sized), two)
                ]
          ]
