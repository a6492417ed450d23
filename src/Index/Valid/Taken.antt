-- ===== src/Index/Valid/Taken.antt =====
-- `add` and `add_2d` of turbovec/src/lib.rs keep an index valid, and take a batch whole or not at all.
use turbovec.Common.{
  ℕ, ◌/◌, ◌%◌, ◌≤◌, ◌<◌, ◌≡◌, refl, sym, ap, ◌∙◌, subst, inl, inr, true, Option, none, some, List,
  [], length, ◌==◌, Bool-cases, Option-cases, arith,
}
use native.Mathlib.Nat.{zero-div}
use turbovec.Error.{AddError, err, panic}
use turbovec.Index.{Kernel, max_dim}
use turbovec.Index.Grow.{State, is_panic, encoded, add, commit_dim, take_batch, add_2d, check_dim}
use turbovec.Index.Validate.{par_first_invalid_coord}
use turbovec.Index.Valid.{IsValid}
use turbovec.Index.Valid.Batch.{some_eq, fresh_rows, IsTaken, unchanged}
use turbovec.Index.Valid.Rows.{
  nothing_fresh, nothing-IsTaken, panic_fails, length-contents, add-add_rows, add_rows-IsTaken,
}

module _ (K : Kernel) where
  abbrev Valid : State K → Type 0
  Valid t = IsValid K.zero_row t

  -- The width that a lazy index takes on is one it may have.
  abbrev Fits : ℕ → Type 0
  Fits dim = (0 < dim) × (dim % 8 ≡ 0) × (dim ≤ max_dim)

  check_dim-Fits : (dim : ℕ) → check_dim K none dim ≡ none → Fits dim
  check_dim-Fits dim h = ground (arith, h)

  check_dim-same : (d dim : ℕ) → check_dim K (some d) dim ≡ none → d ≡ dim
  check_dim-same d dim h = ground (arith, h)

  widened-IsValid :
      (t : State K) (dim : ℕ)
      → t.dim ≡ none
      → Fits dim
      → Valid t
      → Valid (record t { dim = some dim })
  widened-IsValid t dim h f v = record {
    bits = v.bits;
    dims = λ d e. subst Fits (some_eq e) f;
    lazy = λ e. absurd (cc e);
    rotated = λ r e. let old = v.rotated r e in absurd (cc (h, old));
    coded = λ r e. let old = v.coded r e in absurd (cc (h, old));
    stored = λ free. record {
      rows = (v.stored free).rows;
      scales = (v.stored free).scales;
      cache = (v.stored free).cache;
    };
    image = v.image;
  }

  reset-IsValid :
      (t : State K)
      → t.n_vectors ≡ 0
      → Valid t
      → Valid (record t { dim = none; rotation = none; codebook = none })
  reset-IsValid t h v = record {
    bits = v.bits;
    dims = λ d e. absurd (cc e);
    lazy = λ e. h;
    rotated = λ r e. absurd (cc e);
    coded = λ r e. absurd (cc e);
    stored = λ free. record {
      rows = (v.stored free).rows;
      scales = (v.stored free).scales;
      cache = (v.stored free).cache;
    };
    image = v.image;
  }

  commit_dim-IsTaken :
      (t : State K) (vectors : List K.F32) (dim : ℕ)
      → t.dim ≡ none
      → Fits dim
      → Valid t
      → let n = length vectors / dim in
        IsTaken K t (fresh_rows K n (encoded K t vectors n dim)) (commit_dim K t vectors dim)
  commit_dim-IsTaken t vectors dim h f v =
      let n = length vectors / dim in
      let u = record t { dim = some dim } in
      let fresh = fresh_rows K n (encoded K t vectors n dim) in
      let r = add K u vectors in
      let w = widened-IsValid t dim h f v in
      let done : IsTaken K u fresh r =
        subst (IsTaken K u fresh) (sym (add-add_rows K u vectors dim refl))
          (add_rows-IsTaken K u vectors dim refl w) in
      elim (Bool-cases (is_panic r.1)) [
        | inr e ↦ rw e (record {
          valid = done.valid;
          taken = done.taken;
          refused = done.refused;
          mapped = done.mapped;
          journal_kept = done.journal_kept;
          front = done.front;
        })
        | inl e ↦
            let lost = done.refused (panic_fails K r.1 e) in
            let zero_n : r.0.n_vectors ≡ 0 =
              sym (length-contents K r.0 done.valid)
              ∙ ap length lost
              ∙ length-contents K u w
              ∙ v.lazy h in
            rw e (record {
              valid = reset-IsValid r.0 zero_n done.valid;
              taken = λ g. absurd (cc g);
              refused = λ g. lost;
              mapped = done.mapped;
              journal_kept = done.journal_kept;
              front = done.front;
            })
      ]

  take_batch-IsTaken :
      (t : State K) (vectors : List K.F32) (dim : ℕ) (known : Option ℕ)
      → t.dim ≡ known
      → check_dim K known dim ≡ none
      → Valid t
      → let n = length vectors / dim in
        IsTaken K t (fresh_rows K n (encoded K t vectors n dim)) (take_batch K t vectors dim known)
  take_batch-IsTaken t vectors dim none h c v =
      commit_dim-IsTaken t vectors dim h (check_dim-Fits dim c) v
  take_batch-IsTaken t vectors dim (some d) h c v =
      let n = length vectors / dim in
      let same : t.dim ≡ some dim = h ∙ ap some (check_dim-same d dim c) in
      subst (IsTaken K t (fresh_rows K n (encoded K t vectors n dim)))
        (sym (add-add_rows K t vectors dim same)) (add_rows-IsTaken K t vectors dim same v)

  no_rows : (n dim : ℕ) → (n == 0) ≡ true → n / dim ≡ 0
  no_rows n dim h = let z : n ≡ 0 = ground (arith, h) in rw z (zero-div dim)

  -- An add of any batch at any width keeps a valid index valid, and mapped if it was. If it succeeds,
  -- the rows of the batch, as the encoder gives them, stand behind those that were there; if it
  -- returns an error or panics, no row has changed.
  pub add_2d-IsTaken :
      (t : State K) (vectors : List K.F32) (dim : ℕ)
      → IsValid K.zero_row t
      → let n = length vectors / dim in
        IsTaken K t (fresh_rows K n (encoded K t vectors n dim)) (add_2d K t vectors dim)
  unfolding add_2d
  add_2d-IsTaken t vectors dim v =
      let n = length vectors / dim in
      let fresh = fresh_rows K n (encoded K t vectors n dim) in
      elim (Option-cases (check_dim K t.dim dim)) [
        | inr (e, c) ↦ rw (add_2d, c) (unchanged K t fresh (err e) refl v)
        | inl c ↦
            rw (add_2d, c)
              (elim (Option-cases (par_first_invalid_coord K.is_valid vectors dim)) [
                | inr ((vi, ci, x), g) ↦
                    rw g (unchanged K t fresh (err (AddError.invalid_input_value vi ci x)) refl v)
                | inl g ↦ rw g (elim (Bool-cases (length vectors % dim == 0)) [
                  | inr m ↦ rw m (unchanged K t fresh panic refl v)
                  | inl m ↦ rw m (elim (Bool-cases (length vectors == 0)) [
                    | inr z ↦ rw z (take_batch-IsTaken t vectors dim t.dim refl c v)
                    | inl z ↦
                        let none_new : fresh ≡ [] =
                          nothing_fresh K n (encoded K t vectors n dim)
                            (λ o f. K.encode-lens vectors n dim _ _ _ _ o f)
                            (no_rows (length vectors) dim z) in
                        rw z (nothing-IsTaken K t fresh none_new v)
                  ])
                ])
              ])
      ]
