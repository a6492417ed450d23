-- ===== src/Index/Grow.antt =====
-- `encode_and_append`, `add` and `add_2d` of turbovec/src/lib.rs.
use turbovec.Common.{
  ℕ, ◌+◌, ◌*◌, ◌/◌, ◌%◌, Bool, true, false, ◌&&◌, not, Option, none, some, List, ◌++◌, length, take,
  ltb, ◌==◌, if◌then◌else◌,
}
use turbovec.Error.{AddError, Outcome, ok, err, panic}
use turbovec.Pack.Geometry.{block}
use turbovec.Index.Cache.{BlockedCache, blocks_for, build, repack_block_range, append_lanes}
use turbovec.Index.Validate.{par_first_invalid_coord}
use turbovec.Index.{Kernel, TurboQuantIndex, max_dim, is_some, is_none, get_or_init, packed}

abbrev pub is_panic {ℓ κ} : {E : Type ℓ} {A : Type κ} → Outcome E A → Bool
is_panic (ok a) = false
is_panic (err e) = false
is_panic panic = true

module _ (K : Kernel) where
  abbrev pub State : Type 0
  State = TurboQuantIndex K.F32 K.Row

  abbrev pub Added : Type 0
  Added = State × Outcome (AddError K.F32) (Unit {0})

  abbrev pub derived : State → ℕ → State
  derived t dim = record t {
    rotation = some (get_or_init t.rotation dim);
    codebook = some (get_or_init t.codebook dim);
  }

  abbrev pub encoded : State → List K.F32 → ℕ → ℕ → Option (List K.Row × List K.F32)
  encoded t vectors n dim =
      K.encode vectors n dim (get_or_init t.rotation dim) (get_or_init t.codebook dim) t.bit_width
        (t.tqplus_shift, t.tqplus_scale)

  -- The packed rows are not materialized and the blocked cache is all there is.
  abbrev pub lazy_append : State → Bool
  lazy_append t = ltb 0 t.n_vectors && is_none t.packed_codes && is_some t.blocked

  -- The new rows as lane writes into the cache.
  abbrev pub append_lazy : State → BlockedCache K.Row → List K.Row → List K.F32 → ℕ → State
  append_lazy t cache rows scales n = record t {
    packed_codes = none;
    blocked = some (record {
      lanes = append_lanes K.zero_row cache.lanes t.n_vectors rows;
      n_blocks = blocks_for (t.n_vectors + n);
    });
    scales = t.scales ++ scales;
    n_vectors = t.n_vectors + n;
  }

  -- The tail blocks again, from the packed rows.
  abbrev pub patched : BlockedCache K.Row → List K.Row → ℕ → ℕ → BlockedCache K.Row
  patched cache codes old_n new_n =
      let first_block = old_n / block in
      record {
        lanes =
            take (first_block * block) cache.lanes
            ++ repack_block_range K.zero_row codes new_n first_block (blocks_for new_n);
        n_blocks = blocks_for new_n;
      }

  -- A cold cache is built, a warm one is patched.
  abbrev pub eager_cache : Option (BlockedCache K.Row) → List K.Row → ℕ → ℕ → BlockedCache K.Row
  eager_cache none codes old_n new_n = build K.zero_row codes new_n
  eager_cache (some cache) codes old_n new_n = patched cache codes old_n new_n

  -- The packed rows are dropped at the commit, the cache holds all rows.
  abbrev pub append_eager :
      State → Option (BlockedCache K.Row) → List K.Row → List K.F32 → ℕ → State
  append_eager t blocked codes scales n =
      let new_n = t.n_vectors + n in
      record t {
        packed_codes = none;
        blocked = some (eager_cache blocked codes t.n_vectors new_n);
        scales = t.scales ++ scales;
        n_vectors = new_n;
      }

  -- Nothing is published before the last step that can panic: until then the state is `kept`.
  abbrev pub commit :
      State
      → State
      → Bool
      → ℕ
      → Option (BlockedCache K.Row)
      → Option (List K.Row × List K.F32)
      → Added
  commit taken kept lazy n blocked none = (kept, panic)
  commit taken kept lazy n none (some (rows, scales)) =
      if K.repack_panics (packed taken ++ rows)
      then (kept, panic)
      else (append_eager taken none (packed taken ++ rows) scales n, ok tt)
  commit taken kept lazy n (some cache) (some (rows, scales)) =
      if lazy
      then (append_lazy taken cache rows scales n, ok tt)
      else if K.repack_panics (packed taken ++ rows)
      then (kept, panic)
      else (append_eager taken (some cache) (packed taken ++ rows) scales n, ok tt)

  -- An eager add takes the packed rows out, and puts them back when it panics.
  abbrev pub kept : State → ℕ → State
  kept t dim =
      if lazy_append t
      then derived t dim
      else record (derived t dim) { packed_codes = some (packed t) }

  unfoldable pub encode_and_append : State → List K.F32 → ℕ → ℕ → Added
  encode_and_append t vectors n dim =
      if is_some t.mapped
      then (t, panic)
      else commit (derived t dim) (kept t dim) (lazy_append t) n t.blocked (encoded t vectors n dim)

  abbrev pub add_rows : State → List K.F32 → ℕ → Added
  add_rows t vectors dim =
      let n = length vectors / dim in
      if not (length vectors == n * dim)
      then (t, panic)
      else if n == 0
      then (t, ok tt)
      else elim (par_first_invalid_coord K.is_valid vectors dim) [
        | some at ↦ (t, panic)
        | none ↦ encode_and_append t vectors n dim
      ]

  unfoldable pub add : State → List K.F32 → Added
  add t vectors = elim t.dim [ none ↦ (t, panic) | some dim ↦ add_rows t vectors dim ]

  -- What `add_2d` finds wrong with a width.
  abbrev pub check_dim : Option ℕ → ℕ → Option (AddError K.F32)
  check_dim (some existing) dim =
      if existing == dim then none else some (AddError.dim_mismatch existing dim)
  check_dim none dim =
      if dim == 0
      then some AddError.zero_dim
      else if not (dim % 8 == 0)
      then some (AddError.dim_not_multiple_of8 dim)
      else if ltb max_dim dim
      then some (AddError.dim_too_large dim max_dim)
      else none

  -- The first add of a lazy index: a panic takes the width back, with what was computed from it.
  abbrev pub commit_dim : State → List K.F32 → ℕ → Added
  commit_dim t vectors dim =
      let r = add (record t { dim = some dim }) vectors in
      if is_panic r.1
      then (record r.0 { dim = none; rotation = none; codebook = none }, panic)
      else r

  abbrev pub take_batch : State → List K.F32 → ℕ → Option ℕ → Added
  take_batch t vectors dim none = commit_dim t vectors dim
  take_batch t vectors dim (some existing) = add t vectors

  unfoldable pub add_2d : State → List K.F32 → ℕ → Added
  add_2d t vectors dim = elim (check_dim t.dim dim) [
    | some e ↦ (t, err e)
    | none ↦ elim (par_first_invalid_coord K.is_valid vectors dim) [
      | some (vi, ci, x) ↦ (t, err (AddError.invalid_input_value vi ci x))
      | none ↦
          if not (length vectors % dim == 0)
          then (t, panic)
          else if length vectors == 0
          then (t, ok tt)
          else take_batch t vectors dim t.dim
    ]
  ]
