-- ===== src/Index/Validate.antt =====
-- `par_first_invalid_coord` of turbovec/src/encode.rs: the scan of a batch for a coordinate that is
-- not finite or too large. The test on a float is a parameter.
pub mod Scan
use turbovec.Common.{
  ℕ, zero, suc, ◌+◌, ◌-◌, ◌*◌, ◌/◌, ◌%◌, ◌≤◌, ◌<◌, ◌≡◌, refl, sym, ap, ◌∙◌, Bool, true, false, not,
  Option, none, some, List, [], ◌∷◌, ◌++◌, All, length, length-take, length-drop, get_elem?, take,
  drop, take-append-drop, leb, ◌==◌, if◌then◌else◌, Bool-cases, Option-cases, drop_all, take_all,
  leb→le, arith,
}
use turbovec.Index.Chunks.{chunks, minimum, minimum_first}

abbrev pub validate_chunk : ℕ
validate_chunk = 65536

abbrev pub shift : ℕ → Option ℕ → Option ℕ
shift n none = none
shift n (some i) = some (n + i)

module _ {F : Type 0} (valid : F → Bool) where
  -- The first element that fails the test.
  abbrev pub first_invalid_in_chunk : List F → Option ℕ
  first_invalid_in_chunk [] = none
  first_invalid_in_chunk (x ∷ xs) =
      let rest = shift 1 (first_invalid_in_chunk xs) in if valid x then rest else some 0

  -- One flat index per chunk with an invalid element.
  abbrev pub chunk_hits : ℕ → ℕ → List (List F) → List ℕ
  chunk_hits c ci [] = []
  chunk_hits c ci (chunk ∷ rest) =
      let hits = chunk_hits c (suc ci) rest in
      elim (first_invalid_in_chunk chunk) [ none ↦ hits | some j ↦ (ci * c + j) ∷ hits ]

  unfoldable pub first_invalid : List F → Option ℕ
  first_invalid values =
      minimum (chunk_hits validate_chunk 0 (chunks validate_chunk (length values) values))

  -- The vector, the coordinate and the value; with no columns the flat index is the coordinate.
  unfoldable pub par_first_invalid_coord : List F → ℕ → Option (ℕ × ℕ × F)
  par_first_invalid_coord values dim = elim (first_invalid values) [
    | none ↦ none
    | some first ↦ elim (get_elem? values first) [
      | none ↦ none
      | some x ↦ if dim == 0 then some (0, first, x) else some (first / dim, first % dim, x)
    ]
  ]
