-- ===== src/IdMap/Sorted.antt =====
-- The sorted table answers for the list that it was sorted from.
use turbovec.Common.{
  All, sort, IsSorted, sort-IsSorted, count-sort, ℕ, zero, suc, ◌+◌, ◌-◌, ◌/◌, ◌≤◌, ◌<◌, ◌≡◌, refl,
  true, false, some, List, [], ◌∷◌, ◌↔◌, inl, inr, length, get_elem?, ◌==◌, mem, mem_of_get,
  get_of_mem, get_of_lt, get_lt, count, Distinct, Fresh-of_count, count_of_Fresh, Bool-cases, arith,
}
use turbovec.IdMap.Table.{has_repeat, binary_search, table_contains}

-- In a sorted list what comes later is no smaller.
get_of_All : (P : ℕ → Type 0) (xs : List ℕ) (i a : ℕ) → All P xs → get_elem? xs i ≡ some a → P a
get_of_All P [] i a h g = absurd (ground arith)
get_of_All P (x ∷ xs) zero a (h, hs) g = let e : x ≡ a = ground arith in rw (← e) h
get_of_All P (x ∷ xs) (suc i) a (h, hs) g = get_of_All P xs i a hs g

IsSorted-mono :
    (xs : List ℕ) (i j a b : ℕ)
    → IsSorted xs
    → get_elem? xs i ≡ some a
    → get_elem? xs j ≡ some b
    → i ≤ j
    → a ≤ b
IsSorted-mono [] i j a b s g h le = absurd (ground arith)
IsSorted-mono (x ∷ xs) zero zero a b s g h le = ground arith
IsSorted-mono (x ∷ xs) zero (suc j) a b (s, ss) g h le =
    let e : x ≡ a = ground arith in rw (← e) (get_of_All (λ y. x ≤ y) xs j b s h)
IsSorted-mono (x ∷ xs) (suc i) zero a b s g h le = absurd (omega arith)
IsSorted-mono (x ∷ xs) (suc i) (suc j) a b (s, ss) g h le =
    IsSorted-mono xs i j a b ss g h (omega arith)

binary_search_sound :
    (fuel : ℕ) (xs : List ℕ) (id base size : ℕ)
    → binary_search fuel xs id base size ≡ true
    → mem xs id ≡ true
unfolding binary_search
binary_search_sound zero xs id base size h = absurd (ground arith)
binary_search_sound (suc fuel) xs id base size h = ground (
  arith,
  mem_of_get xs (base + size / 2) id,
  binary_search_sound fuel xs id base (size / 2),
  binary_search_sound fuel xs id (base + size / 2 + 1) (size - size / 2 - 1),
)

binary_search_complete :
    (fuel : ℕ) (xs : List ℕ) (id base size i : ℕ)
    → IsSorted xs
    → size < fuel
    → base + size ≤ length xs
    → get_elem? xs i ≡ some id
    → base ≤ i
    → i < base + size
    → binary_search fuel xs id base size ≡ true
unfolding binary_search
binary_search_complete zero xs id base size i s f b g lo hi = absurd (omega arith)
binary_search_complete (suc fuel) xs id base size i s f b g lo hi =
    let mid = base + size / 2 in
    let (probe, at) = get_of_lt xs mid (omega arith) in
    ground (
      arith,
      at,
      IsSorted-mono xs i mid id probe s g at,
      IsSorted-mono xs mid i probe id s at g,
      binary_search_complete fuel xs id base (size / 2) i s,
      binary_search_complete fuel xs id (mid + 1) (size - size / 2 - 1) i s,
    )

-- The table, a sorted list, is asked by a binary search, which finds exactly its members.
pub table_contains-mem : (xs : List ℕ) (id : ℕ) → IsSorted xs → table_contains xs id ≡ mem xs id
unfolding table_contains
table_contains-mem xs id s = elim (Bool-cases (mem xs id)) [
  | inl e ↦
      let (i, g) = get_of_mem xs id e in
      rw e (
        binary_search_complete (suc (length xs)) xs id 0 (length xs) i s (omega arith) (omega arith)
          g (omega arith) (omega (arith, get_lt xs i id g)))
  | inr e ↦ elim (Bool-cases (binary_search (suc (length xs)) xs id 0 (length xs))) [
    | inl found ↦
        absurd (ground (arith, binary_search_sound (suc (length xs)) xs id 0 (length xs) found))
    | inr missed ↦ rw (e, missed)
  ]
]

count_below : (a b : ℕ) (xs : List ℕ) → a < b → All (λ y. b ≤ y) xs → count xs a ≡ 0
count_below a b [] h k = refl
count_below a b (x ∷ xs) h (k, ks) = ground (arith, count_below a b xs h ks)

has_repeat-count : (xs : List ℕ) → IsSorted xs → has_repeat xs ≡ false → (a : ℕ) → count xs a ≤ 1
unfolding has_repeat
has_repeat-count [] s h a = omega arith
has_repeat-count (x ∷ []) s h a = ground arith
has_repeat-count (x ∷ y ∷ xs) ((le, les), (s, ss)) h a =
    ground (arith, has_repeat-count (y ∷ xs) (s, ss) (ground arith) a, count_below x y xs)

repeated : (xs : List ℕ) → has_repeat xs ≡ true → (a : ℕ) × (2 ≤ count xs a)
unfolding has_repeat
repeated [] h = absurd (ground arith)
repeated (x ∷ []) h = absurd (ground arith)
repeated (x ∷ y ∷ xs) h = elim (Bool-cases (x == y)) [
  | inl e ↦ (x, ground arith)
  | inr e ↦ let (a, two) = repeated (y ∷ xs) (ground arith) in (a, omega arith)
]

-- The test on the sorted copy finds a repeat exactly when the ids are not distinct.
pub has_repeat-sort : (xs : List ℕ) → (has_repeat (sort xs) ≡ false) ↔ Distinct xs
has_repeat-sort xs = (
  λ h.
      Fresh-of_count xs []
        λ a. omega (arith, count-sort xs a, has_repeat-count (sort xs) (sort-IsSorted xs) h a),
  λ d. elim (Bool-cases (has_repeat (sort xs))) [
    | inl e ↦
        let (a, two) = repeated (sort xs) e in
        absurd (omega (arith, count-sort xs a, count_of_Fresh xs [] (λ b. omega arith) d a))
    | inr e ↦ e
  ],
)
