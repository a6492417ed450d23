-- ===== src/IoV7/Image.antt =====
-- The bytes of a file, and the positioned writes of `run_sync` of turbovec/src/io_v7.rs: a write past
-- the end leaves zeros in between, as a seek does.
use turbovec.Common.{
  ℕ, zero, suc, ◌+◌, ◌-◌, ◌≤◌, ◌<◌, ◌≡◌, refl, ap, none, List, [], ◌∷◌, ◌++◌, ◌⊎◌, inl, inr, length,
  length-append, length-take, length-drop, length-replicate, get_elem?, take, drop,
  drop-append_exact, replicate, arith, sym, ◌∙◌,
}

unfoldable pub write_at : List ℕ → ℕ → List ℕ → List ℕ
write_at file off bytes =
    take off (file ++ replicate (off - length file) 0) ++ (bytes ++ drop (off + length bytes) file)

abbrev pub slice : List ℕ → ℕ → ℕ → List ℕ
slice file from size = take size (drop from file)

pub length-write_at :
    (file : List ℕ) (off : ℕ) (bytes : List ℕ)
    → (off + length bytes ≤ length (write_at file off bytes))
      × (length file ≤ length (write_at file off bytes))
unfolding write_at
length-write_at file off bytes =
    let front = file ++ replicate (off - length file) 0 in
    let a = length-append (take off front) (bytes ++ drop (off + length bytes) file) in
    let b = length-append bytes (drop (off + length bytes) file) in
    let c = length-drop (off + length bytes) file in
    let d = length-take off front in
    let e = length-append file (replicate (off - length file) 0) in
    let f = length-replicate {A = ℕ} (off - length file) 0 in
    (omega (arith, a, b, c, d, e, f), omega (arith, a, b, c, d, e, f))

-- A write makes a file no longer than its own end.
pub length-write_at_le :
    (file : List ℕ) (off : ℕ) (bytes : List ℕ) (bound : ℕ)
    → length file ≤ bound
    → off + length bytes ≤ bound
    → length (write_at file off bytes) ≤ bound
unfolding write_at
length-write_at_le file off bytes bound h k =
    let front = file ++ replicate (off - length file) 0 in
    omega (
      arith,
      length-append (take off front) (bytes ++ drop (off + length bytes) file),
      length-append bytes (drop (off + length bytes) file),
      length-drop (off + length bytes) file,
      length-take off front,
      length-append file (replicate (off - length file) 0),
    )

module _ {ℓ} {A : Type ℓ} where
  pub get-append_left :
      (xs ys : List A) (i : ℕ) → i < length xs → get_elem? (xs ++ ys) i ≡ get_elem? xs i
  get-append_left [] ys i h = absurd (omega arith)
  get-append_left (x ∷ xs) ys zero h = refl
  get-append_left (x ∷ xs) ys (suc i) h = get-append_left xs ys i (omega arith)

  pub get-append_right :
      (xs ys : List A) (i : ℕ) → get_elem? (xs ++ ys) (length xs + i) ≡ get_elem? ys i
  get-append_right [] ys i = let e : 0 + i ≡ i = omega arith in rw e
  get-append_right (x ∷ xs) ys i =
      let e : suc (length xs) + i ≡ suc (length xs + i) = omega arith in
      rw e (get-append_right xs ys i)

  pub get-take : (n : ℕ) (xs : List A) (i : ℕ) → i < n → get_elem? (take n xs) i ≡ get_elem? xs i
  get-take zero xs i h = absurd (omega arith)
  get-take (suc n) [] i h = refl
  get-take (suc n) (x ∷ xs) zero h = refl
  get-take (suc n) (x ∷ xs) (suc i) h = get-take n xs i (omega arith)

  pub get-drop : (n : ℕ) (xs : List A) (i : ℕ) → get_elem? (drop n xs) i ≡ get_elem? xs (n + i)
  get-drop zero xs i = let e : 0 + i ≡ i = omega arith in rw e
  get-drop (suc n) [] i = refl
  get-drop (suc n) (x ∷ xs) i =
      let e : suc n + i ≡ suc (n + i) = omega arith in rw e (get-drop n xs i)

  pub take_ext :
      (n : ℕ) (xs ys : List A)
      → ((i : ℕ) → i < n → get_elem? xs i ≡ get_elem? ys i)
      → take n xs ≡ take n ys
  take_ext zero xs ys h = refl
  take_ext (suc n) [] [] h = refl
  take_ext (suc n) [] (y ∷ ys) h = absurd (ground (arith, h 0 (omega arith)))
  take_ext (suc n) (x ∷ xs) [] h = absurd (ground (arith, h 0 (omega arith)))
  take_ext (suc n) (x ∷ xs) (y ∷ ys) h =
      let e : x ≡ y = let s = h 0 (omega arith) in cc in
      let es = take_ext n xs ys (λ i lt. h (suc i) (omega arith)) in rw (e, es)

  pub get_past : (xs : List A) (i : ℕ) → length xs ≤ i → get_elem? xs i ≡ none
  get_past [] i h = refl
  get_past (x ∷ xs) zero h = absurd (omega arith)
  get_past (x ∷ xs) (suc i) h = get_past xs i (omega arith)

-- A slice depends on the bytes in it only.
pub slice_ext :
    (xs ys : List ℕ) (from size : ℕ)
    → ((i : ℕ) → from ≤ i → i < from + size → get_elem? xs i ≡ get_elem? ys i)
    → slice xs from size ≡ slice ys from size
slice_ext xs ys from size h =
    take_ext size (drop from xs) (drop from ys) (λ i lt.
      rw (get-drop from xs i, get-drop from ys i) (h (from + i) (omega arith) (omega arith)))

module _ (file : List ℕ) (off : ℕ) (bytes : List ℕ) where
  front_length : length (take off (file ++ replicate (off - length file) 0)) ≡ off
  front_length = omega (
    arith,
    length-take off (file ++ replicate (off - length file) 0),
    length-append file (replicate (off - length file) 0),
    length-replicate {A = ℕ} (off - length file) 0,
  )

  -- What was written is there.
  pub drop-write_at : drop off (write_at file off bytes) ≡ bytes ++ drop (off + length bytes) file
  unfolding write_at
  drop-write_at =
      let front = take off (file ++ replicate (off - length file) 0) in
      rw front_length at (drop-append_exact front (bytes ++ drop (off + length bytes) file))

  -- A write changes no byte of the file outside its own range.
  pub get-write_at_apart :
      (i : ℕ)
      → (i < off) ⊎ (off + length bytes ≤ i)
      → i < length file
      → get_elem? (write_at file off bytes) i ≡ get_elem? file i
  unfolding write_at
  get-write_at_apart i (inl lt) h =
      let front = file ++ replicate (off - length file) 0 in
      rw (
        get-append_left (take off front) (bytes ++ drop (off + length bytes) file) i
            (omega (arith, front_length)),
        get-take off front i lt,
        get-append_left file (replicate (off - length file) 0) i h,
      )
  get-write_at_apart i (inr ge) h =
      let front = take off (file ++ replicate (off - length file) 0) in
      let tail = drop (off + length bytes) file in
      let j = i - (off + length bytes) in
      let e : i ≡ length front + (length bytes + j) = omega (arith, front_length) in
      let e' : i ≡ off + length bytes + j = omega arith in
      ap (get_elem? (front ++ (bytes ++ tail))) e
      ∙ get-append_right front (bytes ++ tail) (length bytes + j)
      ∙ get-append_right bytes tail j
      ∙ get-drop (off + length bytes) file j
      ∙ ap (get_elem? file) (sym e')
