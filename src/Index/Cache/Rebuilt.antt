-- ===== src/Index/Cache/Rebuilt.antt =====
-- The upkeep of the blocked cache of turbovec/src/lib.rs gives what a repack of all rows gives.
use turbovec.Common.{
  ℕ, suc, ◌+◌, ◌-◌, ◌*◌, ◌/◌, ◌≤◌, ◌<◌, ◌≡◌, refl, ap, ◌∙◌, inl, inr, ◌&&◌, not, Option, none, some,
  List, [], ◌∷◌, ◌++◌, length, get_elem?, set, take, drop, replicate, length-take, length-append,
  length-replicate, length-set, get-take, get-drop, get-append, get-replicate, get-set, same_places,
  ltb→lt, ltb, ◌==◌, if◌then◌else◌, Bool-cases, Option-cases, get_of_lt, get_lt, get_none, take_all,
  arith,
}
use turbovec.Pack.Geometry.{block}
use turbovec.Index.Cache.{
  blocks_for, resize, copy_within, write_rows, repack_block_range, build, append_lanes,
}

abbrev pub filled {ℓ} : {A : Type ℓ} → A → Option A → Option A
filled z none = some z
filled z (some a) = some a

module _ {A : Type 0} where
  pub length-resize : (z : A) (n : ℕ) (xs : List A) → length (resize z n xs) ≡ n
  length-resize z n xs = omega (
    arith,
    length-append (take n xs) (replicate (n - length xs) z),
    length-take n xs,
    length-replicate (n - length xs) z,
  )

  pub get-resize :
      (z : A) (n : ℕ) (xs : List A) (i : ℕ)
      → get_elem? (resize z n xs) i ≡ (if ltb i n then filled z (get_elem? xs i) else none)
  get-resize z n xs i =
      let front = get-append (take n xs) (replicate (n - length xs) z) i in
      let cut = get-take n xs i in
      let tail = get-replicate (n - length xs) z (i - length (take n xs)) in
      let size = length-take n xs in
      elim (Option-cases (get_elem? xs i)) [
        | inl e ↦
            let short = get_none xs i e in rw e (ground (arith, front, cut, tail, size, short, e))
        | inr (a, e) ↦
            let inside = get_lt xs i a e in rw e (ground (arith, front, cut, tail, size, inside, e))
      ]

  pub get-write_rows :
      (lanes : List A) (v : ℕ) (rows : List A) (i : ℕ)
      → v + length rows ≤ length lanes
      → get_elem? (write_rows lanes v rows) i ≡ (
          if not (ltb i v) && ltb i (v + length rows)
          then get_elem? rows (i - v)
          else get_elem? lanes i)
  get-write_rows lanes v [] i h = ground arith
  get-write_rows lanes v (row ∷ rows) i h =
      let rest =
        get-write_rows (set lanes v row) (suc v) rows i
          (omega (arith, h, length-set lanes v row)) in
      let here = get-set lanes v row i in
      elim (Bool-cases (ltb v i)) [
        | inl above ↦
            let one : i - v ≡ suc (i - suc v) = ground (arith, above) in
            rw one (ground (arith, rest, here, above))
        | inr below ↦ elim (Bool-cases (i == v)) [
          | inl at ↦
              let zero_off : i - v ≡ 0 = ground (arith, at) in
              rw zero_off (ground (arith, rest, here, at, h))
          | inr off ↦ ground (arith, rest, here, below, off)
        ]
      ]

module _ {Row : Type 0} (z : Row) where
  pub get-build :
      (rows : List Row) (n : ℕ) (i : ℕ)
      → length rows ≡ n
      → get_elem? (build z rows n).lanes i
        ≡ (if ltb i (blocks_for n * block) then filled z (get_elem? rows i) else none)
  get-build rows n i h =
      let whole : take n rows ≡ rows = take_all n rows (omega (arith, h)) in
      let size : (blocks_for n - 0) * block ≡ blocks_for n * block = omega arith in
      rw (whole, size) (get-resize z (blocks_for n * block) rows i)

  -- Lane writes behind the rows.
  pub append_lanes-build :
      (rows fresh : List Row) (n : ℕ)
      → length rows ≡ n
      → append_lanes z (build z rows n).lanes n fresh
        ≡ (build z (rows ++ fresh) (n + length fresh)).lanes
  append_lanes-build rows fresh n h =
      same_places (append_lanes z (build z rows n).lanes n fresh)
        (build z (rows ++ fresh) (n + length fresh)).lanes
        (λ i.
          let total = blocks_for (n + length fresh) * block in
          let old = (build z rows n).lanes in
          let size = length-resize z total old in
          let wrote = get-write_rows (resize z total old) n fresh i (omega (arith, size)) in
          let before = get-resize z total old i in
          let here = get-build rows n i h in
          let both = get-append rows fresh i in
          let after =
            get-build (rows ++ fresh) (n + length fresh) i
              (omega (arith, length-append rows fresh, h)) in
          elim (Option-cases (get_elem? rows i)) [
            | inl e ↦
                let far = get_none rows i e in
                let same : get_elem? fresh (i - n) ≡ get_elem? fresh (i - length rows) =
                  rw h refl in
                elim (Option-cases (get_elem? fresh (i - n))) [
                  | inl g ↦
                      let past = get_none fresh (i - n) g in
                      ground (arith, wrote, before, here, both, after, e, far, h, g, past, same)
                  | inr (r, g) ↦
                      let inside = get_lt fresh (i - n) r g in
                      ground (arith, wrote, before, here, both, after, e, far, h, g, inside, same)
                ]
            | inr (r, e) ↦
                let near = get_lt rows i r e in
                ground (arith, size, wrote, before, here, both, after, e, near, h)
          ])

  -- The tail blocks again, from the packed rows.
  pub patch-build :
      (rows fresh : List Row) (n m : ℕ)
      → length rows ≡ n
      → length fresh ≡ m
      → take (n / block * block) (build z rows n).lanes
          ++ repack_block_range z (rows ++ fresh) (n + m) (n / block) (blocks_for (n + m))
        ≡ (build z (rows ++ fresh) (n + m)).lanes
  patch-build rows fresh n m h k =
      let all = rows ++ fresh in
      let cut = n / block * block in
      let total = blocks_for (n + m) * block in
      let size : length all ≡ n + m = omega (arith, length-append rows fresh, h, k) in
      let whole : take (n + m) all ≡ all = take_all (n + m) all (omega (arith, size)) in
      let wide : length (take cut (build z rows n).lanes) ≡ cut = omega (
        arith,
        length-take cut (build z rows n).lanes,
        length-resize z ((blocks_for n - 0) * block) (take n rows),
      ) in
      same_places
        (take cut (build z rows n).lanes
          ++ repack_block_range z all (n + m) (n / block) (blocks_for (n + m)))
        (build z all (n + m)).lanes
        (λ i.
          let front =
            get-append (take cut (build z rows n).lanes)
              (repack_block_range z all (n + m) (n / block) (blocks_for (n + m))) i in
          let kept = get-take cut (build z rows n).lanes i in
          let here = get-build rows n i h in
          let after = get-build all (n + m) i size in
          let both = get-append rows fresh i in
          elim (Bool-cases (ltb i cut)) [
            | inl low ↦
                let (r, e) = get_of_lt rows i (omega (arith, h, ltb→lt i cut low)) in
                let near = get_lt rows i r e in
                ground (arith, wide, front, kept, here, after, both, low, e, near, h)
            | inr high ↦
                let tail =
                  get-resize z ((blocks_for (n + m) - n / block) * block)
                    (drop (n / block * block) (take (n + m) all)) (i - cut) in
                let place : cut + (i - cut) ≡ i = ground (arith, high) in
                let at : get_elem? (drop cut (take (n + m) all)) (i - cut) ≡ get_elem? all i =
                  rw whole (get-drop cut all (i - cut) ∙ ap (get_elem? all) place) in
                let tests : ltb (i - cut) ((blocks_for (n + m) - n / block) * block) ≡ ltb i total =
                  ground (arith, high) in
                ground (arith, wide, front, after, tail, at, tests, high)
          ])

module _ {A : Type 0} where
  pub get-copy_within :
      (xs : List A) (src dst : ℕ) (i : ℕ)
      → src < length xs
      → get_elem? (copy_within xs src dst) i
        ≡ (if (i == dst) && ltb i (length xs) then get_elem? xs src else get_elem? xs i)
  get-copy_within xs src dst i h =
      let (a, e) = get_of_lt xs src h in rw (copy_within, e) (get-set xs dst a i)
