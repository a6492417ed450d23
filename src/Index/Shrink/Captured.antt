-- ===== src/Index/Shrink/Captured.antt =====
-- The captures of turbovec/src/lib.rs: what `swap_remove` keeps for the next sync is what the slot holds.
use turbovec.Common.{
  ℕ, suc, ◌-◌, ◌≤◌, ◌<◌, ◌≡◌, ◌≢◌, sym, ◌∙◌, subst, inl, inr, true, ◌||◌, some, List, [], ◌∷◌, All,
  length, length-append, length-set, get_elem?, get-append, get-set, ◌==◌, if◌then◌else◌,
  Bool-cases, arith,
}
use turbovec.IoV7.Geo.{max_ops}
use turbovec.Index.Shrink.{find_capture, retire, write_capture}

-- No two entries share a place in the arena.
abbrev pub Apart : List (ℕ × ℕ) → Type 0
Apart [] = Unit
Apart ((s, off) ∷ rest) = All (λ e. e.1 ≢ off) rest × Apart rest

module _ {Row : Type 0} where
  -- The entry names a row of the index, and its place in the arena holds that row.
  abbrev pub Holds : List Row → List Row → ℕ × ℕ → Type 0
  Holds rows buf e = (e.0 < length rows) × (get_elem? buf e.1 ≡ get_elem? rows e.0)

  -- What the journal keeps in step with the rows.
  pub record IsCaptured (rows buf : List Row) (captures : List (ℕ × ℕ)) : Type 0 where
    pub hold : All (Holds rows buf) captures
    pub apart : Apart captures
    pub bound : length buf ≤ max_ops

pub retire-All :
    (P : ℕ × ℕ → Type 0) (captures : List (ℕ × ℕ)) (idx last : ℕ)
    → All P captures
    → All P (retire captures idx last)
retire-All P [] idx last h = tt
retire-All P ((s, off) ∷ rest) idx last (h, hs) = elim (Bool-cases ((s == idx) || (s == last))) [
  | inl e ↦ rw (All, retire, e) (retire-All P rest idx last hs)
  | inr e ↦ rw (All, retire, e) (h, retire-All P rest idx last hs)
]

pub retire-kept :
    (captures : List (ℕ × ℕ)) (idx last : ℕ)
    → All (λ e. (e.0 ≢ idx) × (e.0 ≢ last)) (retire captures idx last)
retire-kept [] idx last = tt
retire-kept ((s, off) ∷ rest) idx last = elim (Bool-cases ((s == idx) || (s == last))) [
  | inl e ↦ rw (All, retire, e) (retire-kept rest idx last)
  | inr e ↦ rw (All, retire, e) (ground (arith, e), retire-kept rest idx last)
]

pub retire-Apart :
    (captures : List (ℕ × ℕ)) (idx last : ℕ) → Apart captures → Apart (retire captures idx last)
retire-Apart [] idx last h = tt
retire-Apart ((s, off) ∷ rest) idx last (h, hs) = elim (Bool-cases ((s == idx) || (s == last))) [
  | inl e ↦ rw (Apart, retire, e) (retire-Apart rest idx last hs)
  | inr e ↦
      rw (Apart, retire, e)
        (retire-All (λ e. e.1 ≢ off) rest idx last h, retire-Apart rest idx last hs)
]

pub find-All :
    (P : ℕ × ℕ → Type 0) (captures : List (ℕ × ℕ)) (idx off : ℕ)
    → All P captures
    → find_capture captures idx ≡ some off
    → (s : ℕ) × P (s, off)
find-All P [] idx off h e = absurd (cc e)
find-All P ((s, o) ∷ rest) idx off (h, hs) e = elim (Bool-cases (s == idx)) [
  | inl same ↦
      let place : o ≡ off = cc (rw (find_capture, same) at e) in (s, subst (λ x. P (s, x)) place h)
  | inr other ↦ find-All P rest idx off hs (rw (find_capture, other) at e)
]

-- The place that a slot's old entry had is free once the entry is retired.
pub found-free :
    (captures : List (ℕ × ℕ)) (idx last off : ℕ)
    → Apart captures
    → find_capture captures idx ≡ some off
    → All (λ e. e.1 ≢ off) (retire captures idx last)
found-free [] idx last off h e = tt
found-free ((s, o) ∷ rest) idx last off (h, hs) e = elim (Bool-cases (s == idx)) [
  | inl same ↦
      let place : o ≡ off = cc (rw (find_capture, same) at e) in
      let gone : ((s == idx) || (s == last)) ≡ true = ground (arith, same) in
      subst (λ x. All (λ f. f.1 ≢ x) (retire ((s, o) ∷ rest) idx last)) place
        (rw (All, retire, gone) (retire-All (λ f. f.1 ≢ o) rest idx last h))
  | inr other ↦
      let later : find_capture rest idx ≡ some off = rw (find_capture, other) at e in
      let free = found-free rest idx last off hs later in
      let (t, distinct) = find-All (λ f. f.1 ≢ o) rest idx off h later in
      elim (Bool-cases ((s == idx) || (s == last))) [
        | inl gone ↦ rw (All, retire, gone) free
        | inr kept ↦ rw (All, retire, kept) (λ same. distinct (sym same), free)
      ]
]

module _ {Row : Type 0} where
  pub get-write_capture :
      (buf : List Row) (off i : ℕ) (row : Row)
      → off ≤ length buf
      → i ≢ off
      → i < length buf
      → get_elem? (write_capture buf (some off) (some row)) i ≡ get_elem? buf i
  get-write_capture buf off i row h other inside = elim (Bool-cases (off == length buf)) [
    | inl e ↦ rw e (ground (arith, get-append buf (row ∷ []) i, inside))
    | inr e ↦ rw e (ground (arith, get-set buf off row i, other))
  ]

  pub wrote-capture :
      (buf : List Row) (off : ℕ) (row : Row)
      → off ≤ length buf
      → get_elem? (write_capture buf (some off) (some row)) off ≡ some row
  wrote-capture buf off row h = elim (Bool-cases (off == length buf)) [
    | inl e ↦
        let at : off - length buf ≡ 0 = ground (arith, e) in
        rw e (get-append buf (row ∷ []) off ∙ rw at (ground (arith, e)))
    | inr e ↦ rw e (ground (arith, get-set buf off row off, e, h))
  ]

  pub length-write_capture :
      (buf : List Row) (off : ℕ) (row : Row)
      → length (write_capture buf (some off) (some row))
        ≡ (if off == length buf then suc (length buf) else length buf)
  length-write_capture buf off row = elim (Bool-cases (off == length buf)) [
    | inl e ↦ rw e (omega (arith, length-append buf (row ∷ [])))
    | inr e ↦ rw e (length-set buf off row)
  ]
