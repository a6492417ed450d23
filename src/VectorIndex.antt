-- ===== src/VectorIndex.antt =====
-- The operations of `TurboQuantIndex` (turbovec/src/lib.rs) that `IdMapIndex` calls, with what their
-- documentation promises. `rows` is the index seen as the list of what is stored in its slots.
use turbovec.Common.{
  All, ℕ, ◌-◌, ◌/◌, ◌<◌, ◌≡◌, Bool, true, false, Option, none, some, List, ◌++◌, length, get_elem?,
  take, set,
}
use turbovec.Error.{AddError, SearchError, Outcome, ok, is_ok}

-- `Vec::swap_remove`: the last element moves into the hole.
unfoldable pub swap_remove_at {ℓ} : {A : Type ℓ} → List A → ℕ → List A
swap_remove_at xs i = elim (get_elem? xs (length xs - 1)) [
  | none ↦ xs
  | some last ↦ take (length xs - 1) (set xs i last)
]

-- `SearchResults` of a search with no score floor: the slot indices are never negative.
pub record SearchResults (F : Type 0) : Type 0 where
  pub scores : List F
  pub indices : List ℕ
  pub nq : ℕ
  pub k : ℕ

-- The slots that a mask lets through.
abbrev pub Allows : Option (List Bool) → ℕ → Type 0
Allows none slot = Unit
Allows (some mask) slot = get_elem? mask slot ≡ some true

pub record VectorIndex : Type 1 where
  pub Index : Type 0
  pub F32 : Type 0
  pub Row : Type 0
  pub len : Index → ℕ
  pub dim_opt : Index → Option ℕ
  pub is_mapped : Index → Bool
  pub rows : Index → List Row
  pub encode : Index → List F32 → ℕ → List Row
  pub add_2d : Index → List F32 → ℕ → Index × Outcome (AddError F32) (Unit {0})
  pub swap_remove : Index → ℕ → Index × Outcome (AddError F32) ℕ
  pub try_search_with_mask :
      Index → List F32 → ℕ → Option (List Bool) → Outcome (SearchError F32) (SearchResults F32)
  pub len-rows : (i : Index) → len i ≡ length (rows i)
  pub length-encode :
      (i : Index) (v : List F32) (dim : ℕ) → length (encode i v dim) ≡ length v / dim
  -- A batch that is taken goes behind the rows that are there; a refused one changes no row.
  pub add_2d-ok :
      (i : Index) (v : List F32) (dim : ℕ)
      → is_ok (add_2d i v dim).1 ≡ true
      → rows (add_2d i v dim).0 ≡ rows i ++ encode i v dim
  pub add_2d-fail :
      (i : Index) (v : List F32) (dim : ℕ)
      → is_ok (add_2d i v dim).1 ≡ false
      → rows (add_2d i v dim).0 ≡ rows i
  pub add_2d-mapped :
      (i : Index) (v : List F32) (dim : ℕ) → is_mapped (add_2d i v dim).0 ≡ is_mapped i
  -- In bounds, on an index that is not a mapped image, a removal succeeds.
  pub swap_remove_lem :
      (i : Index) (idx : ℕ)
      → is_mapped i ≡ false
      → idx < len i
      → ((swap_remove i idx).1 ≡ ok (len i - 1))
        × (rows (swap_remove i idx).0 ≡ swap_remove_at (rows i) idx)
        × (is_mapped (swap_remove i idx).0 ≡ false)
  -- A search returns slots of the index that the mask lets through.
  pub search_slots :
      (i : Index) (queries : List F32) (k : ℕ) (mask : Option (List Bool)) (r : SearchResults F32)
      → try_search_with_mask i queries k mask ≡ ok r
      → All (λ slot. (slot < len i) × Allows mask slot) r.indices
