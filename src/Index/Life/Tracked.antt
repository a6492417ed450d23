-- ===== src/Index/Life/Tracked.antt =====
-- What holds of an index of turbovec/src/lib.rs through adds, removals and syncs.
use turbovec.Common.{
  ℕ, suc, ◌-◌, ◌/◌, ◌≤◌, ◌<◌, ◌≡◌, ◌≢◌, refl, sym, ap, ◌∙◌, subst, inl, inr, true, false, ◌||◌,
  Option, none, some, List, [], ◌∷◌, ◌++◌, length, length-append, get_elem?, get-append, mem,
  mem-append, ltb, lt→ltb, ◌==◌, ==_iff, if◌then◌else◌, Bool-cases, arith,
}
use mathlib.Core.List.{append-nil}
use turbovec.Error.{ok, is_ok}
use turbovec.IoV7.Sync.{SyncCursor}
use turbovec.VectorIndex.{swap_remove_at}
use turbovec.Index.{Kernel, TurboQuantIndex, packed, is_some, sync_watermark, watermark_of}
use turbovec.Index.Grow.{State, encoded, add_2d}
use turbovec.Index.Shrink.{insert, mark_dirty, marked, removed, swap_remove}
use turbovec.Index.Shrink.Closed.{close_hole-swap_remove_at, get-close_hole}
use turbovec.Index.Shrink.Captured.{IsCaptured}
use turbovec.Index.Shrink.Kept.{removed-IsCaptured}
use turbovec.Index.Shrink.Live.{append-IsCaptured}
use turbovec.Index.Valid.{IsValid, contents}
use turbovec.Index.Valid.Batch.{fresh_rows}
use turbovec.Index.Valid.Rows.{length-contents}
use turbovec.Index.Valid.Taken.{add_2d-IsTaken}
use turbovec.Index.Valid.Removed.{swap_remove-cases, swap_remove-contents}

mem-insert : (xs : List ℕ) (s a : ℕ) → mem (insert xs s) a ≡ false → (mem xs a ≡ false) × (a ≢ s)
mem-insert xs s a h = elim (Bool-cases (mem xs s)) [
  | inl e ↦
      let out : mem xs a ≡ false = rw e at h in
      (out, λ same. absurd (cc (ap (mem xs) same, e, out)))
  | inr e ↦
      let both : (mem xs a || mem (s ∷ []) a) ≡ false =
        sym (mem-append xs (s ∷ []) a) ∙ (rw e at h) in
      ground (arith, both)
]

unbound : (o : Option SyncCursor) → is_some o ≡ false → watermark_of o ≡ 0
unbound none h = refl
unbound (some c) h = absurd (cc h)

module _ {F Row : Type 0} where
  mark_dirty-mem :
      (t : TurboQuantIndex F Row) (slot : ℕ) (fresh : List ℕ) (s : ℕ)
      → s < sync_watermark t
      → mem (mark_dirty t slot fresh) s ≡ false
      → (mem fresh s ≡ false) × (s ≢ slot)
  mark_dirty-mem t slot fresh s low h = elim (Bool-cases (ltb slot (sync_watermark t))) [
    | inl e ↦ mem-insert fresh slot s (rw e at h)
    | inr e ↦ (rw e at h, λ same. absurd (ground (arith, low, same, e)))
  ]

  -- The slots that the marks of a removal leave out were out before, and are not the two it touched.
  marked-mem :
      (t : TurboQuantIndex F Row) (idx last s : ℕ)
      → s < sync_watermark t
      → mem (marked t idx last) s ≡ false
      → (mem t.sync_fresh s ≡ false) × (s ≢ idx) × (s ≢ last)
  marked-mem t idx last s low h = elim (Bool-cases (is_some t.sync_cursor)) [
    | inr e ↦ absurd (omega (arith, low, unbound t.sync_cursor e))
    | inl e ↦
        let first = mark_dirty t idx t.sync_fresh in
        let here : mem (if last == idx then first else mark_dirty t last first) s ≡ false =
          rw e at h in
        elim (Bool-cases (last == idx)) [
          | inl same ↦
              let one = mark_dirty-mem t idx t.sync_fresh s low (rw same at here) in
              (one.0, one.1, λ f. one.1 (f ∙ (==_iff last idx).0 same))
          | inr other ↦
              let two = mark_dirty-mem t last first s low (rw other at here) in
              let one = mark_dirty-mem t idx t.sync_fresh s low two.0 in (one.0, one.1, two.1)
        ]
  ]

module _ {A : Type 0} where
  -- A removal leaves the places before the last one that it does not name.
  get-swap_remove_at :
      (xs : List A) (idx last s : ℕ)
      → length xs ≡ suc last
      → idx ≤ last
      → s < last
      → s ≢ idx
      → get_elem? (swap_remove_at xs idx) s ≡ get_elem? xs s
  get-swap_remove_at xs idx last s size inside low other =
      let same =
        ap (λ l. get_elem? l s) (sym (close_hole-swap_remove_at xs idx last size inside)) in
      same ∙ get-close_hole xs idx last s size ∙ ground (arith, low, other)

module _ (K : Kernel) where
  -- The index is valid, its captures hold, and a slot of the synced whole blocks that is not marked
  -- has the row and the scale that the last sync wrote.
  pub record IsTracked (t : State K) (old : ℕ → Option (K.Row × K.F32)) : Type 0 where
    pub valid : IsValid K.zero_row t
    pub captured : IsCaptured (packed t) t.capture_buf t.captures
    pub unmarked :
        (s : ℕ)
        → s < sync_watermark t
        → mem t.sync_fresh s ≡ false
        → (s < t.n_vectors) × (get_elem? (contents t) s ≡ old s)

  pub adds-IsTracked :
      (t : State K) (old : ℕ → Option (K.Row × K.F32)) (v : List K.F32) (dim : ℕ)
      → IsTracked t old
      → IsTracked (add_2d K t v dim).0 old
  adds-IsTracked t old v dim h =
      let d = add_2d-IsTaken K t v dim h.valid in
      let u = (add_2d K t v dim).0 in
      let kept = d.journal_kept in
      let same_cursor : u.sync_cursor ≡ t.sync_cursor = ap (λ j. j.0) kept in
      let same_fresh : u.sync_fresh ≡ t.sync_fresh = ap (λ j. j.3) kept in
      let same_buf : u.capture_buf ≡ t.capture_buf = ap (λ j. j.4) kept in
      let same_captures : u.captures ≡ t.captures = ap (λ j. j.5) kept in
      let (more, front) = d.front in
      let size = length-contents K t h.valid in
      let size2 = length-contents K u d.valid in
      let grown : (extra : List (K.Row × K.F32)) × (contents u ≡ contents t ++ extra) =
        elim (Bool-cases (is_ok (add_2d K t v dim).1)) [
          | inl e ↦ (fresh_rows K (length v / dim) (encoded K t v (length v / dim) dim), d.taken e)
          | inr e ↦ ([], d.refused e ∙ sym (append-nil (contents t)))
        ] in
      let (extra, whole) = grown in
      record {
        valid = d.valid;
        captured =
            subst (λ rows. IsCaptured rows u.capture_buf u.captures) (sym front)
              (subst (λ buf. IsCaptured (packed t ++ more) buf u.captures) (sym same_buf)
                (subst (λ cs. IsCaptured (packed t ++ more) t.capture_buf cs) (sym same_captures)
                  (append-IsCaptured (packed t) more t.capture_buf t.captures h.captured)));
        unmarked = λ s low out.
            let low2 : s < sync_watermark t = subst (λ c. s < watermark_of c) same_cursor low in
            let out2 : mem t.sync_fresh s ≡ false = subst (λ f. mem f s ≡ false) same_fresh out in
            let (inside, same) = h.unmarked s low2 out2 in
            let near : ltb s (length (contents t)) ≡ true =
              lt→ltb s (length (contents t)) (omega (arith, inside, size)) in
            (
              omega (arith, inside, size, size2, ap length whole, length-append (contents t) extra),
              ap (λ l. get_elem? l s) whole ∙ get-append (contents t) extra s ∙ rw near same,
            );
      }

  removed-IsTracked :
      (t : State K) (old : ℕ → Option (K.Row × K.F32)) (idx : ℕ)
      → t.mapped ≡ none
      → idx < t.n_vectors
      → swap_remove K.zero_row t idx ≡ (removed K.zero_row t idx, ok (t.n_vectors - 1))
      → IsTracked t old
      → IsTracked (removed K.zero_row t idx) old
  removed-IsTracked t old idx free inside run h =
      let z = K.zero_row in
      let u = removed z t idx in
      let last = t.n_vectors - 1 in
      let done = swap_remove-contents z t idx h.valid free inside in
      let ap_run : (swap_remove z t idx).0 ≡ u = ap (λ r. r.0) run in
      let whole : contents u ≡ swap_remove_at (contents t) idx =
        subst (λ w. contents w ≡ swap_remove_at (contents t) idx) ap_run done.2 in
      let size : length (contents t) ≡ suc last =
        omega (arith, length-contents K t h.valid, inside) in
      record {
        valid = subst (λ w. IsValid z w) ap_run done.1;
        captured = removed-IsCaptured z t idx (h.valid.stored free) inside h.captured;
        unmarked = λ s low out.
            let (out2, other, before) = marked-mem t idx last s low out in
            let (near, same) = h.unmarked s low out2 in
            let below : s < last = ground (arith, near, before) in
            (
              below,
              ap (λ l. get_elem? l s) whole
                  ∙ get-swap_remove_at (contents t) idx last s size (omega (arith, inside)) below
                      other
                  ∙ same,
            );
      }

  pub removes-IsTracked :
      (t : State K) (old : ℕ → Option (K.Row × K.F32)) (idx : ℕ)
      → IsTracked t old
      → IsTracked (swap_remove K.zero_row t idx).0 old
  removes-IsTracked t old idx h = elim (swap_remove-cases K.zero_row t idx h.valid) [
    | inl run ↦ subst (λ r. IsTracked r.0 old) (sym run) h
    | inr (free, inside, run) ↦
        subst (λ r. IsTracked r.0 old) (sym run) (removed-IsTracked t old idx free inside run h)
  ]
