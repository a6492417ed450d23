-- ===== src/Error.antt =====
-- turbovec/src/error.rs: the error enums of the public operations, and the outcome of a call. The
-- texts of `Display` are not modelled.
use turbovec.Common.{ℕ, Bool, true, false}

-- The value of an out-of-range coordinate is a float, the type `F`.
pub data AddError (F : Type 0) : Type 0 where
  dim_mismatch : ℕ → ℕ → AddError F
  dim_not_multiple_of8 : ℕ → AddError F
  dim_too_large : ℕ → ℕ → AddError F
  vector_buffer_not_multiple_of_dim : ℕ → ℕ → AddError F
  zero_dim : AddError F
  ids_count_mismatch : ℕ → ℕ → AddError F
  id_already_present : ℕ → AddError F
  duplicate_id_in_batch : ℕ → AddError F
  invalid_input_value : ℕ → ℕ → F → AddError F

-- What a call that may return an error, or panic, comes back with.
pub data Outcome {ℓ κ} (E : Type ℓ) (A : Type κ) : Type (ℓ ⊔ κ) where
  ok : A → Outcome E A
  err : E → Outcome E A
  panic : Outcome E A

pub data SearchError (F : Type 0) : Type 0 where
  mapped_image : SearchError F
  allowlist_empty : SearchError F
  unknown_id : ℕ → SearchError F
  query_buffer_not_multiple_of_dim : ℕ → ℕ → SearchError F
  invalid_query_value : ℕ → ℕ → F → SearchError F
  mask_length_mismatch : ℕ → ℕ → SearchError F

-- Whether a call came back with a value.
abbrev pub is_ok {ℓ κ} : {E : Type ℓ} {A : Type κ} → Outcome E A → Bool
is_ok (ok a) = true
is_ok (err e) = false
is_ok panic = false

pub data ConstructError : Type 0 where
  bit_width_out_of_range : ℕ → ConstructError
  dim_not_positive_multiple_of8 : ℕ → ConstructError
  dim_too_large : ℕ → ℕ → ConstructError
