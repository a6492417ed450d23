-- ===== src/Index/Shrink/Closed.antt =====
-- What a removal of turbovec/src/lib.rs leaves in the rows, the scales and the cache.
use turbovec.Common.{
  ℕ, suc, ◌-◌, ◌*◌, ◌≤◌, ◌≡◌, refl, inl, inr, ◌&&◌, none, some, List, length, get_elem?, set, take,
  length-take, length-set, get-take, get-set, same_places, ltb, ◌==◌, if◌then◌else◌, Bool-cases,
  Option-cases, get_of_lt, get_lt, get_none, arith,
}
use turbovec.Pack.Geometry.{block}
use turbovec.VectorIndex.{swap_remove_at}
use turbovec.Index.Cache.{blocks_for, copy_within, build}
use turbovec.Index.Cache.Rebuilt.{get-build, get-copy_within, length-resize}
use turbovec.Index.Shrink.{close_hole, move_last}

module _ {A : Type 0} where
  pub length-copy_within : (xs : List A) (src dst : ℕ) → length (copy_within xs src dst) ≡ length xs
  length-copy_within xs src dst = elim (Option-cases (get_elem? xs src)) [
    | inl e ↦ rw (copy_within, e) refl
    | inr (a, e) ↦ rw (copy_within, e) (length-set xs dst a)
  ]

  pub length-close_hole :
      (xs : List A) (idx last : ℕ) → length xs ≡ suc last → length (close_hole xs idx last) ≡ last
  length-close_hole xs idx last h =
      let moved = length-copy_within xs last idx in
      elim (Bool-cases (idx == last)) [
        | inl e ↦ rw e (omega (arith, h, length-take last xs))
        | inr e ↦ rw e (omega (arith, h, moved, length-take last (copy_within xs last idx)))
      ]

  pub get-close_hole :
      (xs : List A) (idx last i : ℕ)
      → length xs ≡ suc last
      → get_elem? (close_hole xs idx last) i
        ≡ (if ltb i last then (if i == idx then get_elem? xs last else get_elem? xs i) else none)
  get-close_hole xs idx last i h =
      let copied = get-copy_within xs last idx i (omega (arith, h)) in
      elim (Bool-cases (idx == last)) [
        | inl e ↦ rw e (ground (arith, get-take last xs i, e))
        | inr e ↦ rw e (ground (arith, get-take last (copy_within xs last idx) i, copied, h))
      ]

  swapped :
      (xs : List A) (idx last : ℕ) (a : A)
      → length xs ≡ suc last
      → get_elem? xs last ≡ some a
      → swap_remove_at xs idx ≡ take last (set xs idx a)
  unfolding swap_remove_at
  swapped xs idx last a h e =
      let end : length xs - 1 ≡ last = omega (arith, h) in rw (swap_remove_at, end, e, end) refl

  -- On the rows it is what `Vec::swap_remove` does.
  pub close_hole-swap_remove_at :
      (xs : List A) (idx last : ℕ)
      → length xs ≡ suc last
      → idx ≤ last
      → close_hole xs idx last ≡ swap_remove_at xs idx
  close_hole-swap_remove_at xs idx last h inside =
      let (a, e) = get_of_lt xs last (omega (arith, h)) in
      rw (swapped xs idx last a h e) (
        same_places (close_hole xs idx last) (take last (set xs idx a)) (λ i. ground (
          arith,
          get-close_hole xs idx last i h,
          get-take last (set xs idx a) i,
          get-set xs idx a i,
          e,
          h,
        )))

module _ {Row : Type 0} (z : Row) where
  pub move_last-build :
      (rows : List Row) (idx last : ℕ)
      → length rows ≡ suc last
      → idx ≤ last
      → (move_last (build z rows (suc last)) z idx last).lanes
        ≡ (build z (close_hole rows idx last) last).lanes
  move_last-build rows idx last h inside =
      let old = (build z rows (suc last)).lanes in
      let wide : length old ≡ blocks_for (suc last) * block =
        omega
          (arith, length-resize z ((blocks_for (suc last) - 0) * block) (take (suc last) rows)) in
      let moved = if idx == last then old else copy_within old last idx in
      same_places (take (blocks_for last * block) (set moved last z))
        (build z (close_hole rows idx last) last).lanes
        (λ i.
          let copied = get-copy_within old last idx i (omega (arith, wide)) in
          let cut = get-take (blocks_for last * block) (set moved last z) i in
          let zeroed = get-set moved last z i in
          let here = get-build z rows (suc last) i h in
          let end = get-build z rows (suc last) last h in
          let closed = get-close_hole rows idx last i h in
          let after =
            get-build z (close_hole rows idx last) last i (length-close_hole rows idx last h) in
          let (a, e) = get_of_lt rows last (omega (arith, h)) in
          let size : length moved ≡ length old = elim (Bool-cases (idx == last)) [
            | inl same ↦ rw same refl
            | inr other ↦ rw other (length-copy_within old last idx)
          ] in
          let content : get_elem? moved i
              ≡ (if (i == idx) && ltb i (length old) then get_elem? old last else get_elem? old i) =
            elim (Bool-cases (idx == last)) [
              | inl same ↦ rw same (ground (arith, same))
              | inr other ↦ rw other copied
            ] in
          elim (Option-cases (get_elem? rows i)) [
            | inl f ↦
                let past = get_none rows i f in
                ground
                  (arith, wide, cut, zeroed, size, content, here, end, closed, after, e, f, past, h)
            | inr (b, f) ↦
                let near = get_lt rows i b f in
                ground
                  (arith, wide, cut, zeroed, size, content, here, end, closed, after, e, f, near, h)
          ])
