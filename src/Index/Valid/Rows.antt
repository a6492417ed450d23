-- ===== src/Index/Valid/Rows.antt =====
-- `add_rows`, the part of `add` of turbovec/src/lib.rs once the width is known: what it does to an
-- index, whichever way it ends.
use turbovec.Common.{
  ℕ, ◌*◌, ◌/◌, ◌≡◌, refl, sym, ap, ◌∙◌, subst, inl, inr, true, false, ◌&&◌, not, Option, none, some,
  List, [], ◌∷◌, ◌++◌, length, ◌==◌, if◌then◌else◌, Bool-cases, Option-cases, ==_iff, arith,
}
use mathlib.Core.List.{append-nil}
use turbovec.Error.{AddError, Outcome, ok, err, panic, is_ok}
use turbovec.Index.{Kernel, is_some, packed}
use turbovec.Index.Grow.{
  State, is_panic, derived, encoded, lazy_append, kept, encode_and_append, commit, add_rows, add,
}
use turbovec.Index.Validate.{par_first_invalid_coord}
use turbovec.Index.Valid.{IsValid, contents, pairs}
use turbovec.Index.Valid.Added.{appended, encode_and_append_lem}
use turbovec.Index.Valid.Batch.{
  length-pairs, fresh_rows, IsTaken, unchanged, panicked-IsTaken, grown-IsTaken,
}

module _ (K : Kernel) where
  abbrev Valid : State K → Type 0
  Valid t = IsValid K.zero_row t

  mapped_panics :
      (t : State K) (vectors : List K.F32) (n dim : ℕ) (m : List (K.Row × K.F32))
      → t.mapped ≡ some m
      → encode_and_append K t vectors n dim ≡ (t, panic)
  unfolding encode_and_append
  mapped_panics t vectors n dim m e =
      ap
        (λ o.
          if is_some o
          then (t, panic)
          else commit K (derived K t dim) (kept K t dim) (lazy_append K t) n t.blocked
              (encoded K t vectors n dim))
        e

  appended-IsTaken :
      (t : State K) (n dim : ℕ) (out : Option (List K.Row × List K.F32))
      → ((o : List K.Row × List K.F32) → out ≡ some o → (length o.0 ≡ n) × (length o.1 ≡ n))
      → t.dim ≡ some dim
      → t.mapped ≡ none
      → Valid t
      → IsTaken K t
          (fresh_rows K n out)
          (appended K (derived K t dim) (kept K t dim) (lazy_append K t) n out)
  appended-IsTaken t n dim none sizes h free v = panicked-IsTaken K t dim (fresh_rows K n none) h v
  appended-IsTaken t n dim (some (rows, scales)) sizes h free v =
      let (size, size2) = sizes (rows, scales) refl in
      elim (Bool-cases (not (lazy_append K t) && K.repack_panics (packed t ++ rows))) [
        | inl e ↦ rw e (panicked-IsTaken K t dim (pairs rows scales) h v)
        | inr e ↦ rw e (grown-IsTaken K t dim n rows scales h free size size2 v)
      ]

  encode_and_append-IsTaken :
      (t : State K) (vectors : List K.F32) (n dim : ℕ)
      → t.dim ≡ some dim
      → Valid t
      → IsTaken K t
          (fresh_rows K n (encoded K t vectors n dim))
          (encode_and_append K t vectors n dim)
  encode_and_append-IsTaken t vectors n dim h v =
      let out = encoded K t vectors n dim in
      let fresh = fresh_rows K n out in
      elim (Option-cases t.mapped) [
        | inr (m, e) ↦
            subst (IsTaken K t fresh) (sym (mapped_panics t vectors n dim m e))
              (unchanged K t fresh panic refl v)
        | inl free ↦
            subst (IsTaken K t fresh)
              (sym (encode_and_append_lem K t vectors n dim free (v.stored free)))
              (appended-IsTaken t n dim out (λ o e. K.encode-lens vectors n dim _ _ _ _ o e) h free
                v)
      ]

  pub nothing_fresh :
      (n : ℕ) (out : Option (List K.Row × List K.F32))
      → ((o : List K.Row × List K.F32) → out ≡ some o → (length o.0 ≡ n) × (length o.1 ≡ n))
      → n ≡ 0
      → fresh_rows K n out ≡ []
  nothing_fresh n none sizes z = rw z refl
  nothing_fresh n (some ([], scales)) sizes z = refl
  nothing_fresh n (some (row ∷ rows, scales)) sizes z =
      absurd (omega (arith, (sizes (row ∷ rows, scales) refl).0, z))

  pub nothing-IsTaken :
      (t : State K) (fresh : List (K.Row × K.F32))
      → fresh ≡ []
      → Valid t
      → IsTaken K t fresh (t, ok tt)
  nothing-IsTaken t fresh h v = record {
    valid = v;
    taken = λ e. sym (append-nil (contents t)) ∙ ap (λ f. contents t ++ f) (sym h);
    refused = λ e. refl;
    mapped = refl;
    journal_kept = refl;
    front = ([], sym (append-nil (packed t)));
  }

  pub panic_fails : (o : Outcome (AddError K.F32) (Unit {0})) → is_panic o ≡ true → is_ok o ≡ false
  panic_fails (ok a) h = absurd (cc h)
  panic_fails (err e) h = refl
  panic_fails panic h = refl

  pub add_rows-IsTaken :
      (t : State K) (vectors : List K.F32) (dim : ℕ)
      → t.dim ≡ some dim
      → Valid t
      → let n = length vectors / dim in
        IsTaken K t (fresh_rows K n (encoded K t vectors n dim)) (add_rows K t vectors dim)
  add_rows-IsTaken t vectors dim h v =
      let n = length vectors / dim in
      let fresh = fresh_rows K n (encoded K t vectors n dim) in
      elim (Bool-cases (length vectors == n * dim)) [
        | inr e ↦ rw e (unchanged K t fresh panic refl v)
        | inl e ↦ rw e (elim (Bool-cases (n == 0)) [
          | inl z ↦
              let none_new : fresh ≡ [] =
                nothing_fresh n (encoded K t vectors n dim)
                  (λ o f. K.encode-lens vectors n dim _ _ _ _ o f) ((==_iff n 0).0 z) in
              rw z (nothing-IsTaken t fresh none_new v)
          | inr z ↦ rw z (elim (Option-cases (par_first_invalid_coord K.is_valid vectors dim)) [
            | inl g ↦ rw g (encode_and_append-IsTaken t vectors n dim h v)
            | inr (at, g) ↦ rw g (unchanged K t fresh panic refl v)
          ])
        ])
      ]

  pub length-contents : (t : State K) → Valid t → length (contents t) ≡ t.n_vectors
  length-contents t v = elim (Option-cases t.mapped) [
    | inl free ↦
        let s = v.stored free in
        let plain : contents t ≡ pairs (packed t) t.scales =
          ap (λ o. elim o [ some image ↦ image | none ↦ pairs (packed t) t.scales ]) free in
        ap length plain ∙ length-pairs (packed t) t.scales (s.rows ∙ sym s.scales) ∙ s.rows
    | inr (m, e) ↦
        let whole : contents t ≡ m =
          ap (λ o. elim o [ some image ↦ image | none ↦ pairs (packed t) t.scales ]) e in
        ap length whole ∙ v.image m e
  ]

  pub add-add_rows :
      (t : State K) (vectors : List K.F32) (dim : ℕ)
      → t.dim ≡ some dim
      → add K t vectors ≡ add_rows K t vectors dim
  unfolding add
  add-add_rows t vectors dim h =
      ap (λ o. elim o [ none ↦ (t, panic) | some d ↦ add_rows K t vectors d ]) h
