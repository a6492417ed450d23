-- ===== src/Index/Validate/Scan.antt =====
-- The chunked scan of turbovec/src/encode.rs finds what a scan from left to right finds.
use turbovec.Common.{
  ℕ, zero, suc, ◌+◌, ◌*◌, ◌/◌, ◌%◌, ◌≤◌, ◌<◌, ◌≡◌, ◌≢◌, refl, sym, ap, ◌∙◌, inl, inr, Bool, false,
  Option, none, some, List, [], ◌∷◌, ◌++◌, All, length, length-take, length-drop, get_elem?, take,
  drop, take-append-drop, ◌==◌, if◌then◌else◌, Bool-cases, Option-cases, ==_iff, div_of_row,
  mod_of_row, arith,
}
use turbovec.Index.Chunks.{chunks, minimum, minimum_first}
use turbovec.Index.Validate.{
  validate_chunk, shift, first_invalid_in_chunk, chunk_hits, first_invalid, par_first_invalid_coord,
}

shift-shift : (m n : ℕ) (o : Option ℕ) → shift m (shift n o) ≡ shift (m + n) o
shift-shift m n none = refl
shift-shift m n (some i) = ap some (omega arith)

shift-zero : (o : Option ℕ) → shift 0 o ≡ o
shift-zero none = refl
shift-zero (some i) = ap some (omega arith)

abbrev or_then : Option ℕ → Option ℕ → Option ℕ
or_then none q = q
or_then (some i) q = some i

shift-or_then : (m : ℕ) (p q : Option ℕ) → shift m (or_then p q) ≡ or_then (shift m p) (shift m q)
shift-or_then m none q = refl
shift-or_then m (some i) q = refl

some_inj : {a b : ℕ} → some a ≡ some b → a ≡ b
some_inj h = cc

none_ne : (j : ℕ) → none ≢ some j
none_ne j h = cc

next_piece :
    {F : Type 0} (c ci : ℕ) (chunk left : List F) (o : Option ℕ)
    → ((j : ℕ) → o ≡ some j → length chunk ≡ c)
    → shift (suc ci * c) o ≡ shift (ci * c) (shift (length chunk) o)
next_piece c ci chunk left none full = refl
next_piece c ci chunk left (some i) full = ap some (omega (arith, full i refl))

module _ {F : Type 0} (valid : F → Bool) where
  split_scan :
      (xs ys : List F)
      → first_invalid_in_chunk valid (xs ++ ys)
        ≡ or_then
            (first_invalid_in_chunk valid xs)
            (shift (length xs) (first_invalid_in_chunk valid ys))
  split_scan [] ys = sym (shift-zero (first_invalid_in_chunk valid ys))
  split_scan (x ∷ xs) ys =
      let one : 1 + length xs ≡ suc (length xs) = omega arith in
      elim (Bool-cases (valid x)) [
        | inl e ↦
            rw
              (
                e,
                split_scan xs ys,
                shift-or_then 1 (first_invalid_in_chunk valid xs)
                    (shift (length xs) (first_invalid_in_chunk valid ys)),
                shift-shift 1 (length xs) (first_invalid_in_chunk valid ys),
                one,
              )
              refl
        | inr e ↦ rw e refl
      ]

  hits_above :
      (c ci : ℕ) (cs : List (List F)) (m : ℕ)
      → m ≤ ci * c
      → All (λ y. m ≤ y) (chunk_hits valid c ci cs)
  hits_above c ci [] m h = tt
  hits_above c ci (chunk ∷ rest) m h =
      let above = hits_above c (suc ci) rest m (omega (arith, h)) in
      elim (Option-cases (first_invalid_in_chunk valid chunk)) [
        | inl e ↦ rw (All, chunk_hits, e) above
        | inr (j, e) ↦ rw (All, chunk_hits, e) (omega (arith, h), above)
      ]

  pub first_invalid_lt :
      (xs : List F) (j : ℕ) → first_invalid_in_chunk valid xs ≡ some j → j < length xs
  first_invalid_lt [] j h = absurd (ground arith)
  first_invalid_lt (x ∷ xs) j h = elim (Bool-cases (valid x)) [
    | inl e ↦ elim (Option-cases (first_invalid_in_chunk valid xs)) [
      | inl n ↦ absurd (none_ne j (rw (first_invalid_in_chunk, e, n) at h))
      | inr (i, f) ↦
          let at : some (1 + i) ≡ some j = rw (first_invalid_in_chunk, e, f) at h in
          omega (arith, some_inj at, first_invalid_lt xs i f)
    ]
    | inr e ↦ omega (arith, some_inj (rw (first_invalid_in_chunk, e) at h))
  ]

  -- The pieces of a list are read from the front, each starting where the last one ended.
  pieces :
      (c fuel ci : ℕ) (xs : List F)
      → 0 < c
      → length xs ≤ fuel
      → minimum (chunk_hits valid c ci (chunks c fuel xs))
        ≡ shift (ci * c) (first_invalid_in_chunk valid xs)
  pieces c zero ci [] pos fits = refl
  pieces c zero ci (x ∷ xs) pos fits = absurd (omega (arith, fits))
  pieces c (suc fuel) ci [] pos fits = refl
  pieces c (suc fuel) ci (x ∷ xs) pos fits =
      let chunk = take c (x ∷ xs) in
      let left = drop c (x ∷ xs) in
      let inner : minimum (chunk_hits valid c (suc ci) (chunks c fuel left))
          ≡ shift (suc ci * c) (first_invalid_in_chunk valid left) =
        pieces c fuel (suc ci) left pos (omega (arith, length-drop c (x ∷ xs), fits)) in
      let whole : first_invalid_in_chunk valid (x ∷ xs)
          ≡ or_then (first_invalid_in_chunk valid chunk)
              (shift (length chunk) (first_invalid_in_chunk valid left)) =
        ap (first_invalid_in_chunk valid) (sym (take-append-drop c (x ∷ xs)))
        ∙ split_scan chunk left in
      elim (Option-cases (first_invalid_in_chunk valid chunk)) [
        | inl e ↦
            let rest : minimum (chunk_hits valid c ci (chunk ∷ chunks c fuel left))
                ≡ shift (suc ci * c) (first_invalid_in_chunk valid left) =
              rw (chunk_hits, e) inner in
            rest
            ∙ next_piece c ci chunk left (first_invalid_in_chunk valid left) (λ j f.
              omega
                (arith, first_invalid_lt left j f, length-take c (x ∷ xs), length-drop c (x ∷ xs)))
            ∙ rw (whole, e) refl
        | inr (j, e) ↦
            let bound = first_invalid_lt chunk j e in
            let above =
              hits_above c (suc ci) (chunks c fuel left) (ci * c + j)
                (omega (arith, bound, length-take c (x ∷ xs))) in
            let first : minimum (chunk_hits valid c ci (chunk ∷ chunks c fuel left))
                ≡ some (ci * c + j) =
              rw (chunk_hits, e)
                (minimum_first (ci * c + j) (chunk_hits valid c (suc ci) (chunks c fuel left))
                  above) in
            first ∙ rw (whole, e) refl
      ]

  -- The scan in chunks finds what the scan from the left finds.
  pub first_invalid_lem : (xs : List F) → first_invalid valid xs ≡ first_invalid_in_chunk valid xs
  unfolding first_invalid
  first_invalid_lem xs =
      pieces validate_chunk (length xs) 0 xs (omega arith) (omega arith)
      ∙ shift-zero (first_invalid_in_chunk valid xs)

  -- A scan from left to right that counts rows and columns.
  unfoldable pub scan_rows : ℕ → ℕ → ℕ → List F → Option (ℕ × ℕ × F)
  scan_rows dim row col [] = none
  scan_rows dim row col (x ∷ xs) =
      let wrap = suc col == dim in
      let rest = scan_rows dim (if wrap then suc row else row) (if wrap then 0 else suc col) xs in
      if valid x then rest else some (row, col, x)

  abbrev located : ℕ → ℕ → List F → Option ℕ → Option (ℕ × ℕ × F)
  located dim start xs none = none
  located dim start xs (some i) = elim (get_elem? xs i) [
    | none ↦ none
    | some x ↦ some ((start + i) / dim, (start + i) % dim, x)
  ]

  located_tail :
      (dim start : ℕ) (x : F) (xs : List F) (o : Option ℕ)
      → located dim start (x ∷ xs) (shift 1 o) ≡ located dim (suc start) xs o
  located_tail dim start x xs none = refl
  located_tail dim start x xs (some i) =
      let at : start + (1 + i) ≡ suc start + i = omega arith in
      let one : 1 + i ≡ suc i = omega arith in
      elim (Option-cases (get_elem? xs i)) [
        | inl e ↦ rw (one, located, e) refl
        | inr (y, e) ↦ rw (one, located, e) (ap (λ at. some (at / dim, at % dim, y)) at)
      ]

  scan_rows-located :
      (dim row col : ℕ) (xs : List F)
      → col < dim
      → scan_rows dim row col xs
        ≡ located dim (row * dim + col) xs (first_invalid_in_chunk valid xs)
  unfolding scan_rows
  scan_rows-located dim row col [] h = refl
  scan_rows-located dim row col (x ∷ xs) h =
      let row2 = if suc col == dim then suc row else row in
      let col2 = if suc col == dim then 0 else suc col in
      let next : row2 * dim + col2 ≡ suc (row * dim + col) = elim (Bool-cases (suc col == dim)) [
        | inl e ↦ rw e (omega (arith, (==_iff (suc col) dim).0 e))
        | inr e ↦ rw e (omega arith)
      ] in
      let inside : col2 < dim = ground (arith, h) in
      let rest = scan_rows-located dim row2 col2 xs inside in
      elim (Bool-cases (valid x)) [
        | inl e ↦ rw e (
            rest
            ∙ ap (λ start. located dim start xs (first_invalid_in_chunk valid xs)) next
            ∙ sym (located_tail dim (row * dim + col) x xs (first_invalid_in_chunk valid xs)))
        | inr e ↦
            let here : row * dim + col + 0 ≡ row * dim + col = omega arith in
            rw (e, here, div_of_row row col dim h, mod_of_row row col dim h) refl
      ]

  reported :
      (values : List F) (dim : ℕ) (o : Option ℕ)
      → 0 < dim
      → elim o [
        | none ↦ none
        | some first ↦ elim (get_elem? values first) [
          | none ↦ none
          | some x ↦ if dim == 0 then some (0, first, x) else some (first / dim, first % dim, x)
        ]
      ]
        ≡ located dim 0 values o
  reported values dim none h = refl
  reported values dim (some i) h =
      let columns : (dim == 0) ≡ false = ground (arith, h) in
      let zero_add : 0 + i ≡ i = omega arith in
      elim (Option-cases (get_elem? values i)) [
        | inl e ↦ rw (located, e) refl
        | inr (y, e) ↦ rw (located, e, columns, zero_add) refl
      ]

  -- However long the batch, and however it falls into chunks, the scan reports the vector, the
  -- coordinate and the value that a scan from left to right stops at, for rows of at least one
  -- column.
  pub par_first_invalid_coord_lem :
      (values : List F) (dim : ℕ)
      → 0 < dim
      → par_first_invalid_coord valid values dim ≡ scan_rows dim 0 0 values
  unfolding par_first_invalid_coord
  par_first_invalid_coord_lem values dim h =
      let origin : 0 * dim + 0 ≡ 0 = omega arith in
      rw
        (
          par_first_invalid_coord,
          first_invalid_lem values,
          scan_rows-located dim 0 0 values h,
          origin,
        )
        (reported values dim (first_invalid_in_chunk valid values) h)
