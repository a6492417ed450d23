-- ===== src/Index/Search.antt =====
-- `try_search_with_options` of turbovec/src/lib.rs with no score floor, and the head of
-- `search_mapped`. The kernel that scores the rows is a parameter, and so is the loop over the chunks
-- of a mapped image, whose pages may fail to be read. The caches it warms are not in the result.
pub mod Slots
use turbovec.Common.{
  ℕ, zero, suc, ◌+◌, ◌*◌, ◌/◌, ◌<◌, min, ◌≡◌, Bool, true, false, not, Option, none, some, List, [],
  ◌∷◌, All, length, ◌==◌, if◌then◌else◌,
}
use turbovec.Error.{SearchError, Outcome, ok, err}
use turbovec.VectorIndex.{SearchResults}
use turbovec.Index.Validate.{par_first_invalid_coord}
use turbovec.Index.Mask.{packed_mask, allows_bit}
use turbovec.Index.{Kernel, TurboQuantIndex, is_some}
use turbovec.Index.Grow.{State}

-- The slots that the words of a mask let through.
abbrev pub LetThrough : Option (List ℕ) → ℕ → Type 0
LetThrough none slot = Unit
LetThrough (some words) slot = allows_bit words slot ≡ true

-- A scan is given the queries, their number, the width, how many rows to return and the words of the
-- mask; it returns scores and slots, which are slots of the index that the mask lets through.
pub record SearchKernel (K : Kernel) : Type 0 where
  pub scan : State K → List K.F32 → ℕ → ℕ → ℕ → Option (List ℕ) → List K.F32 × List ℕ
  pub scan_mapped :
      State K → List K.F32 → ℕ → ℕ → ℕ → Option (List ℕ) → Option (List K.F32 × List ℕ)
  pub scan-slots :
      (t : State K) (queries : List K.F32) (nq dim k : ℕ) (words : Option (List ℕ))
      → All (λ s. (s < t.n_vectors) × LetThrough words s) (scan t queries nq dim k words).1
  pub scan_mapped-slots :
      (t : State K) (queries : List K.F32) (nq dim k : ℕ) (words : Option (List ℕ))
      (out : List K.F32 × List ℕ)
      → scan_mapped t queries nq dim k words ≡ some out
      → All (λ s. (s < t.n_vectors) × LetThrough words s) out.1

module _ (K : Kernel) (S : SearchKernel K) where
  abbrev pub Found : Type 0
  Found = Outcome (SearchError K.F32) (SearchResults K.F32)

  abbrev pub empty_results : ℕ → SearchResults K.F32
  empty_results nq = record { scores = []; indices = []; nq = nq; k = 0 }

  -- The length that a mask should have had.
  abbrev pub bad_mask : ℕ → Option (List Bool) → Option (SearchError K.F32)
  bad_mask n none = none
  bad_mask n (some m) =
      if length m == n then none else some (SearchError.mask_length_mismatch n (length m))

  abbrev pub words_of : Option (List Bool) → Option (List ℕ)
  words_of none = none
  words_of (some m) = some (packed_mask m).0

  abbrev pub n_allowed : ℕ → Option (List Bool) → ℕ
  n_allowed n none = n
  n_allowed n (some m) = (packed_mask m).1

  abbrev pub scan_index : State K → List K.F32 → ℕ → ℕ → ℕ → Option (List Bool) → Found
  scan_index t queries nq dim k mask =
      let (scores, indices) = S.scan t queries nq dim k (words_of mask) in
      ok (record {
        scores = scores;
        indices = indices;
        nq = nq;
        k = min (min k t.n_vectors) (n_allowed t.n_vectors mask);
      })

  abbrev pub search_mapped : State K → List K.F32 → ℕ → ℕ → ℕ → Option (List Bool) → Found
  search_mapped t queries nq dim k mask =
      let effective_k = min (min k t.n_vectors) (n_allowed t.n_vectors mask) in
      if effective_k == 0
      then ok (empty_results nq)
      else elim (S.scan_mapped t queries nq dim effective_k (words_of mask)) [
        | none ↦ err SearchError.mapped_image
        | some (scores, indices) ↦
            ok (record { scores = scores; indices = indices; nq = nq; k = effective_k })
      ]

  abbrev pub search_rows : State K → List K.F32 → ℕ → ℕ → ℕ → Option (List Bool) → Found
  search_rows t queries nq dim k mask = elim (bad_mask t.n_vectors mask) [
    | some e ↦ err e
    | none ↦
        if t.n_vectors == 0
        then ok (empty_results nq)
        else if is_some t.mapped
        then search_mapped t queries nq dim k mask
        else scan_index t queries nq dim k mask
  ]

  -- A lazy index has no width: it returns nothing.
  abbrev pub search_at : State K → List K.F32 → ℕ → Option (List Bool) → Option ℕ → Found
  search_at t queries k mask none = ok (empty_results 0)
  search_at t queries k mask (some dim) =
      let nq = length queries / dim in
      if not (length queries == nq * dim)
      then err (SearchError.query_buffer_not_multiple_of_dim (length queries) dim)
      else elim (par_first_invalid_coord K.is_valid queries dim) [
        | some (qi, ci, x) ↦ err (SearchError.invalid_query_value qi ci x)
        | none ↦ search_rows t queries nq dim k mask
      ]

  unfoldable pub try_search_with_mask : State K → List K.F32 → ℕ → Option (List Bool) → Found
  try_search_with_mask t queries k mask = search_at t queries k mask t.dim
