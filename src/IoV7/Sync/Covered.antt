-- ===== src/IoV7/Sync/Covered.antt =====
-- What the header of a plan of turbovec/src/io_v7.rs carries, and which units the plan writes.
use turbovec.Common.{
  ℕ, ◌+◌, ◌*◌, ◌/◌, ◌%◌, ◌<◌, ◌≡◌, sym, ap, ◌∙◌, Option, none, some, List, [], ◌∷◌, ◌++◌, length,
  All, min, ltb, Bool-cases, Option-cases, inl, inr, arith,
}
use mathlib.Core.List.{flatten, append-nil}
use turbovec.Pack.Geometry.{block}
use turbovec.IoV7.Geo.{max_ops, hdr_at}
use turbovec.IoV7.Header.{SyncSource, geo_of, Delta, header_slot}
use turbovec.IoV7.Sync.{
  SyncCursor, SyncPlan, Batch, plan_incremental, plan_delta, plan_groups, plan_units, plan_batch,
  wiped, carried_slots,
}
use turbovec.IoV7.Sync.Chosen.{Covered, covered_lem}
use turbovec.IoV7.Sync.Grouped.{all_slots, all_slots-push_slots_nil, Owned, push_slots-Owned}

-- The last write of some batches is a header with these redo groups and this delta.
abbrev pub EndsWithHeader : SyncSource → ℕ → List Batch → List (ℕ × List ℕ) → Delta → Type 0
EndsWithHeader src gen batches groups delta =
    (front : Batch) × (flatten batches
      ≡ front
        ++ (hdr_at (geo_of src) (gen % 2), header_slot src gen src.n_vectors groups delta) ∷ [])

-- The last write of a plan is the header of its generation. Its redo groups hold the slots that the plan calls
-- carried, each slot in the group of its block, and no dirty slot of a block that stays whole is
-- forgotten: a fresh one has a redo op in the header, a pending one has an op or its unit is named by
-- the header's delta; and a unit that the delta names among the old ones holds no fresh slot and none
-- with an op.
pub plan_incremental-Covered :
    (src : SyncSource) (cursor : SyncCursor) (pending fresh : List ℕ) (clear_target : Option ℕ)
    (plan : SyncPlan)
    → plan_incremental src cursor pending fresh clear_target ≡ some plan
    → (groups : List (ℕ × List ℕ)) × (delta : Delta) × EndsWithHeader src
        (cursor.gen + 1)
        plan.batches
        groups
        delta
      × (plan.carried ≡ all_slots groups)
      × All Owned groups
      × ((s : ℕ)
          → s < min (cursor.n_synced / block) (src.n_vectors / block) * block
          → Covered
              (min (cursor.n_synced / block) (src.n_vectors / block))
              pending
              fresh
              (all_slots groups)
              delta.mat
              s)
unfolding plan_incremental plan_delta plan_groups plan_batch flatten
plan_incremental-Covered src cursor pending fresh clear_target plan h =
    let blocks = min (cursor.n_synced / block) (src.n_vectors / block) in
    let groups = plan_groups src cursor pending fresh in
    let slots : all_slots groups ≡ carried_slots blocks pending fresh =
      all_slots-push_slots_nil blocks pending fresh in
    let units = (plan_units src cursor pending fresh).1 in
    let final = plan_batch src cursor pending fresh in
    let wipe : ℕ → ℕ × List ℕ =
      λ used. (hdr_at (geo_of src) ((cursor.gen + 1) % 2), wiped src (cursor.gen + 1) used) in
    let ends : (plan.batches
          ≡ elim clear_target [ some used ↦ (wipe used ∷ []) ∷ final ∷ [] | none ↦ final ∷ [] ])
        → EndsWithHeader src (cursor.gen + 1) plan.batches groups
            (plan_delta src cursor pending fresh) =
      λ same. elim (Option-cases clear_target) [
        | inl c ↦
            let one : plan.batches ≡ final ∷ [] = cc (same, c) in
            (units, ap flatten one ∙ append-nil final)
        | inr (used, c) ↦
            let two : plan.batches ≡ (wipe used ∷ []) ∷ final ∷ [] = cc (same, c) in
            (wipe used ∷ units, ap flatten two ∙ ap (◌∷◌ (wipe used)) (append-nil final))
      ] in
    elim (Bool-cases (ltb max_ops (length (carried_slots blocks pending fresh)))) [
      | inl e ↦ absurd (ground (arith, e))
      | inr e ↦
          let same : plan.carried ≡ carried_slots blocks pending fresh = cc (e, h) in
          (
            groups,
            plan_delta src cursor pending fresh,
            ends (cc (e, h)),
            same ∙ sym slots,
            push_slots-Owned (carried_slots blocks pending fresh) [] tt,
            λ s l. rw slots (covered_lem blocks pending fresh s (ground arith)),
          )
    ]
