-- ===== src/Index/Search/Slots.antt =====
-- A search of turbovec/src/lib.rs returns slots of the index that the caller's mask lets through.
use turbovec.Common.{
  ℕ, ◌*◌, ◌/◌, ◌<◌, min, ◌≡◌, sym, ap, ◌∙◌, subst, inl, inr, Bool, Option, none, some, List, All,
  All-map, length, get_of_lt, ◌==◌, Bool-cases, Option-cases, arith,
}
use turbovec.Error.{ok, err, panic}
use turbovec.VectorIndex.{SearchResults, Allows}
use turbovec.Index.Validate.{par_first_invalid_coord}
use turbovec.Index.Mask.Packed.{packed_mask_lem}
use turbovec.Index.{Kernel, is_some}
use turbovec.Index.Grow.{State}
use turbovec.Index.Search.{
  SearchKernel, LetThrough, Found, bad_mask, words_of, n_allowed, search_rows, search_at,
  try_search_with_mask,
}

module _ (K : Kernel) (S : SearchKernel K) where
  mask_words :
      (n : ℕ) (mask : Option (List Bool)) (s : ℕ)
      → bad_mask K S n mask ≡ none
      → s < n
      → LetThrough (words_of K S mask) s
      → Allows mask s
  mask_words n none s good inside h = tt
  mask_words n (some m) s good inside h =
      let size : length m ≡ n = ground (arith, good) in
      let (b, at) = get_of_lt m s (omega (arith, inside, size)) in
      let bit = (packed_mask_lem m).0 s b at in at ∙ ap some (sym bit ∙ h)

  -- The slots of a result lie in the index, and the mask lets them through.
  abbrev Slots : ℕ → Option (List Bool) → Found K S → Type 0
  Slots n mask (ok r) = All (λ s. (s < n) × Allows mask s) r.indices
  Slots n mask (err e) = Unit
  Slots n mask panic = Unit

  search_rows-Slots :
      (t : State K) (queries : List K.F32) (nq dim k : ℕ) (mask : Option (List Bool))
      → Slots t.n_vectors mask (search_rows K S t queries nq dim k mask)
  search_rows-Slots t queries nq dim k mask =
      let n = t.n_vectors in
      let words = words_of K S mask in
      let effective_k = min (min k n) (n_allowed K S n mask) in
      elim (Option-cases (bad_mask K S n mask)) [
        | inr (e, bad) ↦ rw (Slots, bad) tt
        | inl good ↦
            let let_through : (slots : List ℕ)
                → All (λ s. (s < n) × LetThrough words s) slots
                → All (λ s. (s < n) × Allows mask s) slots =
              λ slots.
                All-map (λ s. (s < n) × LetThrough words s) (λ s. (s < n) × Allows mask s) slots
                  (λ s h. (h.0, mask_words n mask s good h.0 h.1)) in
            rw (Slots, good)
              (elim (Bool-cases (n == 0)) [
                | inl z ↦ rw z tt
                | inr z ↦ rw z (elim (Bool-cases (is_some t.mapped)) [
                  | inr m ↦ rw m (
                      let_through (S.scan t queries nq dim k words).1
                        (S.scan-slots t queries nq dim k words))
                  | inl m ↦ rw m (elim (Bool-cases (effective_k == 0)) [
                    | inl e ↦ rw e tt
                    | inr e ↦
                        rw e
                          (elim (Option-cases (S.scan_mapped t queries nq dim effective_k words)) [
                            | inl o ↦ rw o tt
                            | inr (out, o) ↦ rw o (
                                let_through out.1
                                  (S.scan_mapped-slots t queries nq dim effective_k words out o))
                          ])
                  ])
                ])
              ])
      ]

  every_at :
      (t : State K) (queries : List K.F32) (k : ℕ) (mask : Option (List Bool)) (dim : ℕ)
      → Slots t.n_vectors mask (search_at K S t queries k mask (some dim))
  every_at t queries k mask dim =
      let nq = length queries / dim in
      elim (Bool-cases (length queries == nq * dim)) [
        | inr e ↦ rw e tt
        | inl e ↦ rw e (elim (Option-cases (par_first_invalid_coord K.is_valid queries dim)) [
          | inr (at, g) ↦ rw g tt
          | inl g ↦ rw g (search_rows-Slots t queries nq dim k mask)
        ])
      ]

  every :
      (t : State K) (queries : List K.F32) (k : ℕ) (mask : Option (List Bool))
      → Slots t.n_vectors mask (try_search_with_mask K S t queries k mask)
  unfolding try_search_with_mask
  every t queries k mask = elim (Option-cases t.dim) [
    | inl e ↦ subst (Slots t.n_vectors mask) (sym (ap (λ d. search_at K S t queries k mask d) e)) tt
    | inr (dim, e) ↦
        subst (Slots t.n_vectors mask) (sym (ap (λ d. search_at K S t queries k mask d) e))
          (every_at t queries k mask dim)
  ]

  -- A search that succeeds, on an index of any kind and with any mask, returns slots that lie in the
  -- index and that the mask lets through.
  pub try_search_with_mask-Slots :
      (t : State K) (queries : List K.F32) (k : ℕ) (mask : Option (List Bool))
      (r : SearchResults K.F32)
      → try_search_with_mask K S t queries k mask ≡ ok r
      → All (λ s. (s < t.n_vectors) × Allows mask s) r.indices
  unfolding try_search_with_mask
  try_search_with_mask-Slots t queries k mask r h =
      subst (Slots t.n_vectors mask) h (every t queries k mask)
