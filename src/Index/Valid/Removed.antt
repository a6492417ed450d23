-- ===== src/Index/Valid/Removed.antt =====
-- `swap_remove` of turbovec/src/lib.rs keeps an index valid and moves the last row into the hole.
use turbovec.Common.{
  ℕ, suc, ◌-◌, ◌≤◌, ◌<◌, ◌≡◌, ◌≢◌, refl, sym, ap, ◌∙◌, subst, inl, inr, ◌⊎◌, Bool, true, false, not,
  Option, none, some, List, length, take, ltb, if◌then◌else◌, Bool-cases, Option-cases, lt→ltb,
  ltb→lt, arith,
}
use turbovec.Error.{AddError, Outcome, ok, panic}
use turbovec.VectorIndex.{swap_remove_at}
use turbovec.Index.Cache.{BlockedCache, blocks_for, build}
use turbovec.Index.{TurboQuantIndex, is_some, packed, packed_of}
use turbovec.Index.Shrink.{close_hole, close_rows, close_cache, move_last, removed, swap_remove}
use turbovec.Index.Shrink.Closed.{length-close_hole, move_last-build}
use turbovec.Index.Valid.{IsStored, IsValid, contents, pairs}
use turbovec.Index.Valid.Added.{take-build}
use turbovec.Index.Valid.Pairs.{close_hole-pairs}

module _ {Row : Type 0} (z : Row) where
  closed_cache :
      (cache : BlockedCache Row) (rows : List Row) (idx last : ℕ)
      → cache ≡ build z rows (suc last)
      → length rows ≡ suc last
      → idx ≤ last
      → move_last cache z idx last ≡ build z (close_hole rows idx last) last
  closed_cache cache rows idx last e h inside =
      ap (λ c. move_last c z idx last) e
      ∙ ap (λ lanes. record { lanes = lanes; n_blocks = blocks_for last })
          (move_last-build z rows idx last h inside)

  -- Whichever layout is live, it then holds the rows with the hole closed.
  closed_rows :
      (p : Option (List Row)) (b : Option (BlockedCache Row)) (idx last : ℕ)
      → length (packed_of (suc last) p b) ≡ suc last
      → idx ≤ last
      → ((c : BlockedCache Row) → b ≡ some c → c ≡ build z (packed_of (suc last) p b) (suc last))
      → packed_of last (close_rows p idx last) (close_cache b z idx last)
        ≡ close_hole (packed_of (suc last) p b) idx last
  closed_rows (some rows) b idx last h inside cache = refl
  closed_rows none none idx last h inside cache = absurd (omega (arith, h))
  closed_rows none (some c) idx last h inside cache =
      let rows = take (suc last) c.lanes in
      ap (λ d. take last d.lanes) (closed_cache c rows idx last (cache c refl) h inside)
      ∙ take-build z (close_hole rows idx last) last (length-close_hole rows idx last h)

  closed_rows_at :
      (p : Option (List Row)) (b : Option (BlockedCache Row)) (n idx last : ℕ)
      → n ≡ suc last
      → length (packed_of n p b) ≡ n
      → idx ≤ last
      → ((c : BlockedCache Row) → b ≡ some c → c ≡ build z (packed_of n p b) n)
      → packed_of last (close_rows p idx last) (close_cache b z idx last)
        ≡ close_hole (packed_of n p b) idx last
  closed_rows_at p b n idx last e h inside cache =
      rw e (closed_rows p b idx last (rw e at h) inside (λ c f. let g = cache c f in rw e at g))

  closed_built :
      (b : Option (BlockedCache Row)) (rows : List Row) (idx last : ℕ)
      → length rows ≡ suc last
      → idx ≤ last
      → ((c : BlockedCache Row) → b ≡ some c → c ≡ build z rows (suc last))
      → (c : BlockedCache Row) → close_cache b z idx last ≡ some c
      → c ≡ build z (close_hole rows idx last) last
  closed_built none rows idx last h inside cache c e = absurd (cc e)
  closed_built (some d) rows idx last h inside cache c e =
      let same : move_last d z idx last ≡ c = cc e in
      sym same ∙ closed_cache d rows idx last (cache d refl) h inside

same_either {ℓ} : {A : Type ℓ} {a : A} (b : Bool) → (if b then a else a) ≡ a
same_either true = refl
same_either false = refl

module _ {F Row : Type 0} (z : Row) where
  pub removed-packed :
      (t : TurboQuantIndex F Row) (idx : ℕ)
      → idx < t.n_vectors
      → IsStored z t
      → packed (removed z t idx) ≡ close_hole (packed t) idx (t.n_vectors - 1)
  removed-packed t idx inside s =
      let n = t.n_vectors in
      let last = n - 1 in
      let size : n ≡ suc last = omega (arith, inside) in
      closed_rows_at z t.packed_codes t.blocked n idx last size s.rows (omega (arith, inside))
        s.cache

  removed-IsStored :
      (t : TurboQuantIndex F Row) (idx : ℕ)
      → idx < t.n_vectors
      → IsStored z t
      → IsStored z (removed z t idx)
  removed-IsStored t idx inside s =
      let n = t.n_vectors in
      let last = n - 1 in
      let rows = packed t in
      let size : n ≡ suc last = omega (arith, inside) in
      let moved = removed-packed t idx inside s in
      record {
        rows = ap length moved ∙ length-close_hole rows idx last (s.rows ∙ size);
        scales = length-close_hole t.scales idx last (s.scales ∙ size);
        cache = λ c e.
            closed_built z t.blocked rows idx last (s.rows ∙ size) (omega (arith, inside))
              (λ d f. s.cache d f ∙ ap (build z rows) size) c e
            ∙ ap (λ rs. build z rs last) (sym moved);
      }

  removed-IsValid :
      (t : TurboQuantIndex F Row) (idx : ℕ)
      → t.dim ≢ none
      → idx < t.n_vectors
      → t.mapped ≡ none
      → IsValid z t
      → IsValid z (removed z t idx)
  removed-IsValid t idx known inside free v = record {
    bits = v.bits;
    dims = v.dims;
    lazy = λ e. absurd (known e);
    rotated = v.rotated;
    coded = v.coded;
    stored = λ f. removed-IsStored t idx inside (v.stored free);
    image = λ m e. absurd (cc (free, e));
  }

  swap_remove-removed :
      (t : TurboQuantIndex F Row) (idx d : ℕ)
      → t.dim ≡ some d
      → t.mapped ≡ none
      → idx < t.n_vectors
      → swap_remove z t idx ≡ (removed z t idx, ok (t.n_vectors - 1))
  unfolding swap_remove
  swap_remove-removed t idx d known free inside =
      let bound : ltb idx t.n_vectors ≡ true = lt→ltb idx t.n_vectors inside in
      let done : TurboQuantIndex F Row × Outcome (AddError F) ℕ =
        (removed z t idx, ok (t.n_vectors - 1)) in
      let checked : Option ℕ → TurboQuantIndex F Row × Outcome (AddError F) ℕ =
        λ o. elim o [ none ↦ (t, panic) | some dim ↦ done ] in
      ap
        (λ m.
          if is_some m
          then (t, panic)
          else if not (ltb idx t.n_vectors)
          then (t, panic)
          else checked t.dim)
        free
      ∙ ap (λ b. if not b then (t, panic) else checked t.dim) bound
      ∙ ap checked known

  known_dim :
      (t : TurboQuantIndex F Row) (idx : ℕ)
      → IsValid z t
      → idx < t.n_vectors
      → (d : ℕ) × (t.dim ≡ some d)
  known_dim t idx v inside = elim (Option-cases t.dim) [
    | inl e ↦ absurd (omega (arith, v.lazy e, inside))
    | inr (d, e) ↦ (d, e)
  ]

  -- On a valid index that is not a mapped image, a removal in bounds returns the number of the last
  -- row, keeps the index valid, and does to the rows and their scales what `Vec::swap_remove` does.
  pub swap_remove-contents :
      (t : TurboQuantIndex F Row) (idx : ℕ)
      → IsValid z t
      → t.mapped ≡ none
      → idx < t.n_vectors
      → ((swap_remove z t idx).1 ≡ ok (t.n_vectors - 1))
        × IsValid z (swap_remove z t idx).0
        × (contents (swap_remove z t idx).0 ≡ swap_remove_at (contents t) idx)
        × ((swap_remove z t idx).0.mapped ≡ none)
  swap_remove-contents t idx v free inside =
      let (d, known) = known_dim t idx v inside in
      let s = v.stored free in
      let last = t.n_vectors - 1 in
      let size : t.n_vectors ≡ suc last = omega (arith, inside) in
      let plain : (u : TurboQuantIndex F Row)
          → u.mapped ≡ none
          → contents u ≡ pairs (packed u) u.scales =
        λ u e. ap (λ o. elim o [ some image ↦ image | none ↦ pairs (packed u) u.scales ]) e in
      subst
        (λ r.
          (r.1 ≡ ok last)
          × IsValid z r.0
          × (contents r.0 ≡ swap_remove_at (contents t) idx)
          × (r.0.mapped ≡ none))
        (sym (swap_remove-removed t idx d known free inside))
        (
          refl,
          removed-IsValid t idx (λ e. cc (known, e)) inside free v,
          plain (removed z t idx) free
              ∙ ap (λ rs. pairs rs (close_hole t.scales idx last)) (removed-packed t idx inside s)
              ∙ close_hole-pairs (packed t) t.scales idx last (s.rows ∙ size) (s.scales ∙ size)
                  (omega (arith, inside))
              ∙ ap (λ c. swap_remove_at c idx) (sym (plain t free)),
          free,
        )

  -- A removal panics and leaves the index as it was, or it is one of a row of an index in memory.
  pub swap_remove-cases :
      (t : TurboQuantIndex F Row) (idx : ℕ)
      → IsValid z t
      → (swap_remove z t idx ≡ (t, panic))
        ⊎ ((t.mapped ≡ none)
            × (idx < t.n_vectors)
            × (swap_remove z t idx ≡ (removed z t idx, ok (t.n_vectors - 1))))
  unfolding swap_remove
  swap_remove-cases t idx v = elim (Option-cases t.mapped) [
    | inr (m, e) ↦ inl (
        ap
          (λ o.
            if is_some o
            then (t, panic)
            else if not (ltb idx t.n_vectors)
            then (t, panic)
            else elim t.dim [
              | none ↦ (t, panic)
              | some dim ↦ (removed z t idx, ok (t.n_vectors - 1))
            ])
          e)
    | inl free ↦ elim (Bool-cases (ltb idx t.n_vectors)) [
      | inl low ↦
          let inside = ltb→lt idx t.n_vectors low in
          let (d, known) = known_dim t idx v inside in
          inr (free, inside, swap_remove-removed t idx d known free inside)
      | inr outside ↦ inl (rw outside (same_either (is_some t.mapped)))
    ]
  ]

  pub swap_remove-IsValid :
      (t : TurboQuantIndex F Row) (idx : ℕ) → IsValid z t → IsValid z (swap_remove z t idx).0
  swap_remove-IsValid t idx v = elim (swap_remove-cases t idx v) [
    | inl run ↦ subst (λ r. IsValid z r.0) (sym run) v
    | inr (free, inside, run) ↦ (swap_remove-contents t idx v free inside).1
  ]
