-- ===== src/IdMap/Contents.antt =====
-- An `IdMapIndex` seen as a finite map from ids to stored rows: what adds and removals do to it. The
-- view reads `slot_to_id` and the rows of the inner index, and not the tables.
use turbovec.Common.{
  ℕ, zero, suc, ◌+◌, ◌-◌, ◌<◌, ◌≡◌, refl, ap, ◌∙◌, true, false, Option, none, some, List, [], ◌∷◌,
  ◌++◌, ◌≢◌, inl, inr, length, get_elem?, set, ltb, ◌==◌, if◌then◌else◌, mem, mem_of_get,
  get_of_mem, get_of_lt, get_lt, Bool-cases, Option-cases, arith,
}
use turbovec.VectorIndex.{VectorIndex, swap_remove_at}
use turbovec.IdMap.{IdMapIndex, SlotMap, insert, erase}
use turbovec.IdMap.Slots.{Inverse, get_take, get_set, get_append_left, get_append_right}

-- The first slot that holds the id.
abbrev pub find : List ℕ → ℕ → Option ℕ
find [] a = none
find (x ∷ xs) a =
    if a == x then some 0 else elim (find xs a) [ none ↦ none | some i ↦ some (suc i) ]

abbrev pub row_at : {R : Type 0} → Option ℕ → List R → Option R
row_at none rows = none
row_at (some slot) rows = get_elem? rows slot

-- The row stored under an id.
abbrev pub row_of : (V : VectorIndex) → IdMapIndex V → ℕ → Option V.Row
row_of V m id = row_at (find m.slot_to_id id) (V.rows m.inner)

find_get : (xs : List ℕ) (a i : ℕ) → find xs a ≡ some i → get_elem? xs i ≡ some a
find_get [] a i h = absurd (ground arith)
find_get (x ∷ xs) a i h = elim (Bool-cases (a == x)) [
  | inl e ↦ let z : i ≡ 0 = ground arith in rw z (ground arith)
  | inr e ↦ elim (Option-cases (find xs a)) [
    | inl n ↦ absurd (ground arith)
    | inr (j, f) ↦ let z : i ≡ suc j = ground arith in rw z (find_get xs a j f)
  ]
]

get_find : (xs : List ℕ) (a i : ℕ) → get_elem? xs i ≡ some a → find xs a ≢ none
get_find [] a i h = absurd (ground arith)
get_find (x ∷ xs) a zero h = ground arith
get_find (x ∷ xs) a (suc i) h = ground (arith, get_find xs a i h)

pub find-Inverse : (t : SlotMap) (xs : List ℕ) → Inverse t xs → (a : ℕ) → find xs a ≡ t a
find-Inverse t xs inv a = elim (Option-cases (find xs a)) [
  | inl n ↦ elim (Option-cases (t a)) [
    | inl e ↦ rw (n, e)
    | inr (i, e) ↦ absurd (get_find xs a i ((inv a i).0 e) n)
  ]
  | inr (j, f) ↦ rw (f, (inv a j).1 (find_get xs a j f))
]

pub find_absent : (xs : List ℕ) (a : ℕ) → mem xs a ≡ false → find xs a ≡ none
find_absent [] a h = refl
find_absent (x ∷ xs) a h = ground (arith, find_absent xs a)

find-mem : (xs : List ℕ) (a i : ℕ) → find xs a ≡ some i → mem xs a ≡ true
find-mem xs a i h = mem_of_get xs i a (find_get xs a i h)

find-append :
    (xs ys : List ℕ) (a : ℕ)
    → find (xs ++ ys) a ≡ (
        if mem xs a
        then find xs a
        else elim (find ys a) [ none ↦ none | some i ↦ some (length xs + i) ])
find-append [] ys a = elim (Option-cases (find ys a)) [
  | inl n ↦ rw n
  | inr (i, e) ↦ rw e (ap some (omega arith))
]
find-append (x ∷ xs) ys a = ground (arith, find-append xs ys a)

-- Rows put behind the others under new ids: the old ids keep theirs.
pub row_at-append :
    {R : Type 0} (slots new_ids : List ℕ) (rows more : List R) (id : ℕ)
    → length rows ≡ length slots
    → row_at (find (slots ++ new_ids) id) (rows ++ more)
      ≡ (if mem slots id then row_at (find slots id) rows else row_at (find new_ids id) more)
row_at-append slots new_ids rows more id e = elim (Bool-cases (mem slots id)) [
  | inl m ↦
      let (i, g) = get_of_mem slots id m in
      elim (Option-cases (find slots id)) [
        | inl n ↦ absurd (get_find slots id i g n)
        | inr (j, f) ↦
            rw (find-append, m, f)
              (get_append_left rows more j
                (omega (arith, get_lt slots j id (find_get slots id j f))))
      ]
  | inr m ↦ elim (Option-cases (find new_ids id)) [
    | inl n ↦ rw (find-append, m, n)
    | inr (j, f) ↦ rw (find-append, m, f, ← e) (get_append_right rows more j)
  ]
]

-- What `swap_remove` leaves in each slot.
pub get-swap_remove_at :
    {R : Type 0} (rows : List R) (k i : ℕ)
    → k < length rows
    → get_elem? (swap_remove_at rows k) i ≡ (
        if ltb i (length rows - 1)
        then (if i == k then get_elem? rows (length rows - 1) else get_elem? rows i)
        else none)
unfolding swap_remove_at
get-swap_remove_at rows k i h =
    let (last, e) = get_of_lt rows (length rows - 1) (omega arith) in
    rw (e, swap_remove_at)
      (get_take (set rows k last) (length rows - 1) i ∙ ground (arith, get_set rows k last i h))

-- The map after a removal reads the rows that `swap_remove` leaves as the map before it did, but for
-- the id that is gone.
module _ {R : Type 0} (t : SlotMap) (slots : List ℕ) (rows : List R) (id slot : ℕ)
    (inv : Inverse t slots) (at : t id ≡ some slot) (e : length rows ≡ length slots) where
  pub row_at-pop :
      slot ≡ length slots - 1
      → (j : ℕ)
      → row_at (erase t id j) (swap_remove_at rows slot)
        ≡ (if j == id then none else row_at (t j) rows)
  row_at-pop last j =
      let lt = get_lt slots slot id ((inv id slot).0 at) in
      elim (Option-cases (t j)) [
        | inl n ↦ ground (arith, n)
        | inr (s, f) ↦ ground (
          arith,
          f,
          get-swap_remove_at rows slot s,
          get_lt slots s j ((inv j s).0 f),
          inv id s,
          inv j s,
        )
      ]

  pub row_at-swap :
      (moved : ℕ)
      → slot ≢ length slots - 1
      → get_elem? slots (length slots - 1) ≡ some moved
      → (j : ℕ)
      → row_at (insert (erase t id) moved slot j) (swap_remove_at rows slot)
        ≡ (if j == id then none else row_at (t j) rows)
  row_at-swap moved ne last j =
      let lt = get_lt slots slot id ((inv id slot).0 at) in
      let back : t moved ≡ some (length slots - 1) = (inv moved (length slots - 1)).1 last in
      elim (Option-cases (t j)) [
        | inl n ↦ ground (arith, n, back, at)
        | inr (s, f) ↦ ground (
          arith,
          f,
          back,
          at,
          get-swap_remove_at rows slot s,
          get-swap_remove_at rows slot slot,
          get_lt slots s j ((inv j s).0 f),
          inv id s,
          inv j s,
          inv moved s,
          inv j (length slots - 1),
        )
      ]
