-- ===== src/Index/Shrink/Kept.antt =====
-- A removal of turbovec/src/lib.rs keeps its captures in step with the rows.
use turbovec.Common.{
  ℕ, suc, ◌-◌, ◌*◌, ◌<◌, ◌≡◌, refl, sym, ap, ◌∙◌, subst, inl, inr, Bool, true, false, ◌&&◌, Option,
  none, some, List, [], length, get_elem?, get_of_lt, ltb, ltb→lt, if◌then◌else◌, Bool-cases,
  Option-cases, arith,
}
use mathlib.Core.Path.{ap₂}
use turbovec.IoV7.Geo.{max_ops}
use turbovec.Index.{TurboQuantIndex, packed, packed_of, is_some, is_none, sync_watermark}
use turbovec.Index.Cache.{BlockedCache, blocks_for, build}
use turbovec.Index.Cache.Rebuilt.{get-build}
use turbovec.Pack.Geometry.{block}
use turbovec.Index.Valid.{IsStored}
use turbovec.Index.Valid.Removed.{removed-packed}
use turbovec.Index.Shrink.{capture_at, removed, find_capture}
use turbovec.Index.Shrink.Captured.{IsCaptured}
use turbovec.Index.Shrink.Moved.{IsPlaceFor, capture_step-IsCaptured}

placed :
    {Row : Type 0} (g : Bool) (p : Option (List Row)) (buf : List Row) (captures : List (ℕ × ℕ))
    (idx off : ℕ)
    → (if g && is_none p
        then elim (find_capture captures idx) [
          | some o ↦ some o
          | none ↦ if ltb (length buf) max_ops then some (length buf) else none
        ]
        else none)
      ≡ some off
    → (p ≡ none) × IsPlaceFor buf captures idx off
placed false p buf captures idx off h = absurd (cc h)
placed true (some rows) buf captures idx off h = absurd (cc h)
placed true none buf captures idx off h = (
  refl,
  elim (Option-cases (find_capture captures idx)) [
    | inr (o, e) ↦ inl (e ∙ (rw e at h))
    | inl e ↦
        let end : (if ltb (length buf) max_ops then some (length buf) else none) ≡ some off =
          rw e at h in
        elim (Bool-cases (ltb (length buf) max_ops)) [
          | inl room ↦
              let same : some (length buf) ≡ some off = rw room at end in
              inr (cc same, ltb→lt (length buf) max_ops room)
          | inr full ↦ let never : none ≡ some off = rw full at end in absurd (cc never)
        ]
  ],
)

module _ {F Row : Type 0} (z : Row) where
  -- With the packed rows dropped, the cache has the last row.
  last_lane :
      (t : TurboQuantIndex F Row)
      → IsStored z t
      → 0 < t.n_vectors
      → t.packed_codes ≡ none
      → (c : BlockedCache Row) × (t.blocked ≡ some c)
        × (get_elem? c.lanes (t.n_vectors - 1) ≡ get_elem? (packed t) (t.n_vectors - 1))
  last_lane t s pos unpacked = elim (Option-cases t.blocked) [
    | inl e ↦
        let nothing : packed t ≡ [] = ap₂ (packed_of t.n_vectors) unpacked e in
        absurd (omega (arith, s.rows, ap length nothing, pos))
    | inr (c, e) ↦
        let last = t.n_vectors - 1 in
        let at = get-build z (packed t) t.n_vectors last s.rows in
        let (a, f) = get_of_lt (packed t) last (omega (arith, s.rows, pos)) in
        let inside : ltb last (blocks_for t.n_vectors * block) ≡ true = ground (arith, pos) in
        let whole : get_elem? (build z (packed t) t.n_vectors).lanes last
            ≡ get_elem? (packed t) last =
          at ∙ rw (inside, f) refl in
        (c, e, ap (λ d. get_elem? d.lanes last) (s.cache c e) ∙ whole)
  ]

  capture_at-IsPlaceFor :
      (t : TurboQuantIndex F Row) (idx off : ℕ)
      → capture_at t idx ≡ some off
      → (t.packed_codes ≡ none) × IsPlaceFor t.capture_buf t.captures idx off
  capture_at-IsPlaceFor t idx off h =
      placed (is_some t.sync_cursor && ltb idx (sync_watermark t)) t.packed_codes t.capture_buf
        t.captures idx off h

  -- A removal from a valid index leaves every capture with the row that its slot now holds, on places
  -- of the arena that no other capture has, and the arena within the ops that a header can carry.
  pub removed-IsCaptured :
      (t : TurboQuantIndex F Row) (idx : ℕ)
      → IsStored z t
      → idx < t.n_vectors
      → IsCaptured (packed t) t.capture_buf t.captures
      → IsCaptured
          (packed (removed z t idx))
          (removed z t idx).capture_buf
          (removed z t idx).captures
  removed-IsCaptured t idx s inside v =
      let rows = packed t in
      let last = t.n_vectors - 1 in
      let size : length rows ≡ suc last = omega (arith, s.rows, inside) in
      subst (λ rs. IsCaptured rs (removed z t idx).capture_buf (removed z t idx).captures)
        (sym (removed-packed z t idx inside s))
        (capture_step-IsCaptured rows t.capture_buf t.captures idx last size v (capture_at t idx)
          t.blocked (omega (arith, inside))
          (λ off e.
            let (unpacked, place) = capture_at-IsPlaceFor t idx off e in
            (place, last_lane t s (omega (arith, inside)) unpacked)))
