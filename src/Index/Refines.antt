-- ===== src/Index/Refines.antt =====
-- `TurboQuantIndex` of turbovec/src/lib.rs keeps the promises that the id map relies on.
use turbovec.Common.{
  ℕ, ◌/◌, ◌≡◌, refl, sym, ap, ◌∙◌, false, Option, none, some, List, length, length-replicate, inl,
  inr, Option-cases,
}
use turbovec.VectorIndex.{VectorIndex}
use turbovec.Index.{Kernel, is_some}
use turbovec.Index.Grow.{State, encoded, add_2d}
use turbovec.Index.Shrink.{swap_remove}
use turbovec.Index.Search.{SearchKernel, try_search_with_mask}
use turbovec.Index.Search.Slots.{try_search_with_mask-Slots}
use turbovec.Index.Valid.{IsValid, contents}
use turbovec.Index.Valid.Batch.{fresh_rows, length-pairs}
use turbovec.Index.Valid.Rows.{length-contents}
use turbovec.Index.Valid.Taken.{add_2d-IsTaken}
use turbovec.Index.Valid.Removed.{swap_remove-contents, swap_remove-IsValid}

not_mapped {ℓ} : {A : Type ℓ} (o : Option A) → is_some o ≡ false → o ≡ none
not_mapped none h = refl
not_mapped (some a) h = absurd (cc h)

module _ (K : Kernel) (S : SearchKernel K) where
  -- An index that its constructors and operations have made.
  pub record Checked : Type 0 where
    pub state : State K
    pub valid : IsValid K.zero_row state

  encode_rows : Checked → List K.F32 → ℕ → List (K.Row × K.F32)
  encode_rows i v dim = fresh_rows K (length v / dim) (encoded K i.state v (length v / dim) dim)

  length-encode_rows :
      (i : Checked) (v : List K.F32) (dim : ℕ) → length (encode_rows i v dim) ≡ length v / dim
  unfolding encode_rows
  length-encode_rows i v dim =
      let n = length v / dim in
      elim (Option-cases (encoded K i.state v n dim)) [
        | inl e ↦ rw e (length-replicate n (K.zero_row, K.zero_scale))
        | inr (out, e) ↦
            let (rows, scales) = K.encode-lens v n dim _ _ _ _ out e in
            rw e (length-pairs out.0 out.1 (rows ∙ sym scales) ∙ rows)
      ]

  -- The index as the id map sees it: its rows with their scales, and no layout, cache or journal.
  pub as_vector_index : VectorIndex
  unfolding encode_rows
  as_vector_index = record {
    Index = Checked;
    F32 = K.F32;
    Row = K.Row × K.F32;
    len = λ i. i.state.n_vectors;
    dim_opt = λ i. i.state.dim;
    is_mapped = λ i. is_some i.state.mapped;
    rows = λ i. contents i.state;
    encode = encode_rows;
    add_2d = λ i v dim. (
      record {
        state = (add_2d K i.state v dim).0;
        valid = (add_2d-IsTaken K i.state v dim i.valid).valid;
      },
      (add_2d K i.state v dim).1,
    );
    swap_remove = λ i idx. (
      record {
        state = (swap_remove K.zero_row i.state idx).0;
        valid = swap_remove-IsValid K.zero_row i.state idx i.valid;
      },
      (swap_remove K.zero_row i.state idx).1,
    );
    try_search_with_mask = λ i queries k mask. try_search_with_mask K S i.state queries k mask;
    len-rows = λ i. sym (length-contents K i.state i.valid);
    length-encode = length-encode_rows;
    add_2d-ok = λ i v dim. (add_2d-IsTaken K i.state v dim i.valid).taken;
    add_2d-fail = λ i v dim. (add_2d-IsTaken K i.state v dim i.valid).refused;
    add_2d-mapped = λ i v dim. ap is_some (add_2d-IsTaken K i.state v dim i.valid).mapped;
    swap_remove_lem = λ i idx free inside.
        let done =
          swap_remove-contents K.zero_row i.state idx i.valid (not_mapped i.state.mapped free)
            inside in
        (done.0, done.2, ap is_some done.3);
    search_slots = λ i queries k mask r. try_search_with_mask-Slots K S i.state queries k mask r;
  }
