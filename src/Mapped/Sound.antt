-- ===== src/Mapped/Sound.antt =====
-- What holds of the page cache of turbovec/src/mapped.rs, and one round of its loop.
use turbovec.Common.{
  ℕ, ◌+◌, ◌-◌, ◌≡◌, ◌≢◌, refl, sym, ◌∙◌, subst, inl, inr, Bool, false, ◌||◌, List, [], ◌∷◌, mem,
  ◌==◌, ==_iff, Bool-cases, arith,
}
use turbovec.Mapped.{Chunk, bytes, find_chunk, drop_chunk, freed}

abbrev pub total : List (ℕ × Chunk) → ℕ
total [] = 0
total ((k, c) ∷ rest) = bytes c + total rest

abbrev pub has_key : List (ℕ × Chunk) → ℕ → Bool
has_key [] key = false
has_key ((k, c) ∷ rest) key = (k == key) || has_key rest key

abbrev pub Unique : List ℕ → Type 0
Unique [] = Unit
Unique (x ∷ xs) = (mem xs x ≡ false) × Unique xs

abbrev pub UniqueKeys : List (ℕ × Chunk) → Type 0
UniqueKeys [] = Unit
UniqueKeys ((k, c) ∷ rest) = (has_key rest k ≡ false) × UniqueKeys rest

-- The order names each cached chunk once and nothing else, and the bytes in use are theirs.
pub record IsCache (used : ℕ) (order : List ℕ) (chunks : List (ℕ × Chunk)) : Type 0 where
  pub used_total : used ≡ total chunks
  pub unique : Unique order
  pub unique_keys : UniqueKeys chunks
  pub same_keys : (k : ℕ) → mem order k ≡ has_key chunks k

pub total-drop_chunk :
    (chunks : List (ℕ × Chunk)) (key : ℕ)
    → total chunks ≡ freed (find_chunk chunks key) + total (drop_chunk chunks key)
total-drop_chunk [] key = omega arith
total-drop_chunk ((k, c) ∷ rest) key = elim (Bool-cases (k == key)) [
  | inl e ↦ rw (find_chunk, drop_chunk, e) refl
  | inr e ↦
      let later = total-drop_chunk rest key in rw (find_chunk, drop_chunk, e) (omega (arith, later))
]

pub has_key-drop_chunk :
    (chunks : List (ℕ × Chunk)) (key k : ℕ)
    → UniqueKeys chunks
    → k ≢ key
    → has_key (drop_chunk chunks key) k ≡ has_key chunks k
has_key-drop_chunk [] key k u other = refl
has_key-drop_chunk ((j, c) ∷ rest) key k (u, us) other = elim (Bool-cases (j == key)) [
  | inl e ↦ rw (drop_chunk, e) (ground (arith, e, other))
  | inr e ↦ rw (drop_chunk, e) (ground (arith, has_key-drop_chunk rest key k us other))
]

pub dropped_key :
    (chunks : List (ℕ × Chunk)) (key : ℕ)
    → UniqueKeys chunks
    → has_key (drop_chunk chunks key) key ≡ false
dropped_key [] key u = refl
dropped_key ((j, c) ∷ rest) key (u, us) = elim (Bool-cases (j == key)) [
  | inl e ↦ rw (drop_chunk, e) (subst (λ x. has_key rest x ≡ false) ((==_iff j key).0 e) u)
  | inr e ↦ rw (drop_chunk, e) (ground (arith, e, dropped_key rest key us))
]

pub UniqueKeys-drop_chunk :
    (chunks : List (ℕ × Chunk)) (key : ℕ) → UniqueKeys chunks → UniqueKeys (drop_chunk chunks key)
UniqueKeys-drop_chunk [] key u = tt
UniqueKeys-drop_chunk ((j, c) ∷ rest) key (u, us) = elim (Bool-cases (j == key)) [
  | inl e ↦ rw (UniqueKeys, drop_chunk, e) us
  | inr e ↦
      let out : has_key (drop_chunk rest key) j ≡ false =
        has_key-drop_chunk rest key j us (ground (arith, e)) ∙ u in
      rw (UniqueKeys, drop_chunk, e) (out, UniqueKeys-drop_chunk rest key us)
]

-- One round of the loop.
pub evicted-IsCache :
    (used old : ℕ) (rest : List ℕ) (chunks : List (ℕ × Chunk))
    → IsCache used (old ∷ rest) chunks
    → IsCache (used - freed (find_chunk chunks old)) rest (drop_chunk chunks old)
evicted-IsCache used old rest chunks v = record {
  used_total = omega (arith, v.used_total, total-drop_chunk chunks old);
  unique = v.unique.1;
  unique_keys = UniqueKeys-drop_chunk chunks old v.unique_keys;
  same_keys = λ k. elim (Bool-cases (k == old)) [
    | inl e ↦
        let same : k ≡ old = (==_iff k old).0 e in
        subst (λ j. mem rest j ≡ has_key (drop_chunk chunks old) j) (sym same)
          (v.unique.0 ∙ sym (dropped_key chunks old v.unique_keys))
    | inr e ↦
        let other : k ≢ old = ground (arith, e) in
        let tail : mem rest k ≡ mem (old ∷ rest) k = rw (mem, e) refl in
        tail ∙ v.same_keys k ∙ sym (has_key-drop_chunk chunks old k v.unique_keys other)
  ];
}
