-- ===== src/Index/Valid/Batch.antt =====
-- What an add of turbovec/src/lib.rs comes to, when it takes a batch and when it panics.
use turbovec.Common.{
  ℕ, suc, ◌+◌, ◌≡◌, ◌≢◌, refl, sym, ap, ◌∙◌, inl, inr, true, false, Option, none, some, List, [],
  ◌∷◌, ◌++◌, length, length-append, replicate, Bool-cases, arith,
}
use mathlib.Core.List.{append-nil}
use turbovec.Error.{AddError, Outcome, ok, panic, is_ok}
use turbovec.Index.Cache.{build}
use turbovec.Index.{Kernel, packed, get_or_init}
use turbovec.Index.Grow.{State, Added, derived, lazy_append, kept}
use turbovec.Index.Valid.{IsValid, contents, journal, pairs}
use turbovec.Index.Valid.Added.{take-build, grown}

module _ {A B : Type 0} where
  pub length-pairs :
      (xs : List A) (ys : List B) → length xs ≡ length ys → length (pairs xs ys) ≡ length xs
  length-pairs [] ys h = refl
  length-pairs (x ∷ xs) [] h = absurd (omega (arith, h))
  length-pairs (x ∷ xs) (y ∷ ys) h = ap suc (length-pairs xs ys (omega (arith, h)))

  pub pairs-append :
      (xs xs2 : List A) (ys ys2 : List B)
      → length xs ≡ length ys
      → pairs (xs ++ xs2) (ys ++ ys2) ≡ pairs xs ys ++ pairs xs2 ys2
  pairs-append [] xs2 [] ys2 h = refl
  pairs-append [] xs2 (y ∷ ys) ys2 h = absurd (omega (arith, h))
  pairs-append (x ∷ xs) xs2 [] ys2 h = absurd (omega (arith, h))
  pairs-append (x ∷ xs) xs2 (y ∷ ys) ys2 h =
      ap (◌∷◌ (x, y)) (pairs-append xs xs2 ys ys2 (omega (arith, h)))

pub some_eq {ℓ} : {A : Type ℓ} {a b : A} → some a ≡ some b → a ≡ b
some_eq h = cc

module _ (K : Kernel) where
  abbrev pub Valid : State K → Type 0
  Valid t = IsValid K.zero_row t

  pub get_or_init-lem :
      (o : Option ℕ) (dim r : ℕ) (known : Option ℕ)
      → known ≡ some dim
      → ((q : ℕ) → o ≡ some q → known ≡ some q)
      → some (get_or_init o dim) ≡ some r
      → known ≡ some r
  get_or_init-lem none dim r known h same e = h ∙ e
  get_or_init-lem (some q) dim r known h same e = same q refl ∙ e

  pub derived-IsValid :
      (t : State K) (dim : ℕ) → t.dim ≡ some dim → Valid t → Valid (derived K t dim)
  derived-IsValid t dim h v = record {
    bits = v.bits;
    dims = v.dims;
    lazy = v.lazy;
    rotated = λ r e. get_or_init-lem t.rotation dim r t.dim h v.rotated e;
    coded = λ r e. get_or_init-lem t.codebook dim r t.dim h v.coded e;
    stored = λ free. record {
      rows = (v.stored free).rows;
      scales = (v.stored free).scales;
      cache = (v.stored free).cache;
    };
    image = v.image;
  }

  pub kept-IsValid : (t : State K) (dim : ℕ) → t.dim ≡ some dim → Valid t → Valid (kept K t dim)
  kept-IsValid t dim h v =
      let w = derived-IsValid t dim h v in
      elim (Bool-cases (lazy_append K t)) [
        | inl e ↦ rw e w
        | inr e ↦ rw e (record {
          bits = w.bits;
          dims = w.dims;
          lazy = w.lazy;
          rotated = w.rotated;
          coded = w.coded;
          stored = λ free. record {
            rows = (w.stored free).rows;
            scales = (w.stored free).scales;
            cache = (w.stored free).cache;
          };
          image = w.image;
        })
      ]

  pub grown-IsValid :
      (t : State K) (rows : List K.Row) (scales : List K.F32) (n : ℕ)
      → t.mapped ≡ none
      → t.dim ≢ none
      → length rows ≡ n
      → length scales ≡ n
      → Valid t
      → Valid (grown K t rows scales n)
  grown-IsValid t rows scales n free known size size2 v =
      let s = v.stored free in
      let all = packed t ++ rows in
      let total : length all ≡ t.n_vectors + n =
        omega (arith, length-append (packed t) rows, s.rows, size) in
      let back : packed (grown K t rows scales n) ≡ all =
        take-build K.zero_row all (t.n_vectors + n) total in
      record {
        bits = v.bits;
        dims = v.dims;
        lazy = λ e. absurd (known e);
        rotated = v.rotated;
        coded = v.coded;
        stored = λ f. record {
          rows = ap length back ∙ total;
          scales = omega (arith, length-append t.scales scales, s.scales, size2);
          cache =
              λ c e. sym (some_eq e) ∙ ap (λ rs. build K.zero_row rs (t.n_vectors + n)) (sym back);
        };
        image = λ m e. absurd (cc (free, e));
      }

  -- The rows of a batch with their scales, as the encoder gives them.
  abbrev pub fresh_rows : ℕ → Option (List K.Row × List K.F32) → List (K.Row × K.F32)
  fresh_rows n none = replicate n (K.zero_row, K.zero_scale)
  fresh_rows n (some (rows, scales)) = pairs rows scales

  -- An add keeps the index valid and mapped or not; the batch goes behind the rows, or no row changes.
  pub record IsTaken (t : State K) (fresh : List (K.Row × K.F32)) (r : Added K) : Type 0 where
    pub valid : IsValid K.zero_row r.0
    pub taken : is_ok r.1 ≡ true → contents r.0 ≡ contents t ++ fresh
    pub refused : is_ok r.1 ≡ false → contents r.0 ≡ contents t
    pub mapped : r.0.mapped ≡ t.mapped
    pub journal_kept : journal r.0 ≡ journal t
    pub front : (more : List K.Row) × (packed r.0 ≡ packed t ++ more)

  pub unchanged :
      (t : State K) (fresh : List (K.Row × K.F32)) (o : Outcome (AddError K.F32) (Unit {0}))
      → is_ok o ≡ false
      → Valid t
      → IsTaken t fresh (t, o)
  unchanged t fresh o h v = record {
    valid = v;
    taken = λ e. absurd (cc (h, e));
    refused = λ e. refl;
    mapped = refl;
    journal_kept = refl;
    front = ([], sym (append-nil (packed t)));
  }

  pub kept-contents : (t : State K) (dim : ℕ) → contents (kept K t dim) ≡ contents t
  kept-contents t dim = elim (Bool-cases (lazy_append K t)) [
    | inl e ↦ rw e refl
    | inr e ↦ rw e refl
  ]

  pub kept-mapped : (t : State K) (dim : ℕ) → (kept K t dim).mapped ≡ t.mapped
  kept-mapped t dim = elim (Bool-cases (lazy_append K t)) [ inl e ↦ rw e refl | inr e ↦ rw e refl ]

  pub kept-journal : (t : State K) (dim : ℕ) → journal (kept K t dim) ≡ journal t
  kept-journal t dim = elim (Bool-cases (lazy_append K t)) [ inl e ↦ rw e refl | inr e ↦ rw e refl ]

  pub kept-packed : (t : State K) (dim : ℕ) → packed (kept K t dim) ≡ packed t
  kept-packed t dim = elim (Bool-cases (lazy_append K t)) [ inl e ↦ rw e refl | inr e ↦ rw e refl ]

  pub panicked-IsTaken :
      (t : State K) (dim : ℕ) (fresh : List (K.Row × K.F32))
      → t.dim ≡ some dim
      → Valid t
      → IsTaken t fresh (kept K t dim, panic)
  panicked-IsTaken t dim fresh h v = record {
    valid = kept-IsValid t dim h v;
    taken = λ e. absurd (cc e);
    refused = λ e. kept-contents t dim;
    mapped = kept-mapped t dim;
    journal_kept = kept-journal t dim;
    front = ([], kept-packed t dim ∙ sym (append-nil (packed t)));
  }

  pub grown-IsTaken :
      (t : State K) (dim n : ℕ) (rows : List K.Row) (scales : List K.F32)
      → t.dim ≡ some dim
      → t.mapped ≡ none
      → length rows ≡ n
      → length scales ≡ n
      → Valid t
      → IsTaken t (pairs rows scales) (grown K (derived K t dim) rows scales n, ok tt)
  grown-IsTaken t dim n rows scales h free size size2 v =
      let d = derived K t dim in
      let s = v.stored free in
      let all = packed t ++ rows in
      let back : packed (grown K d rows scales n) ≡ all =
        take-build K.zero_row all (t.n_vectors + n)
          (omega (arith, length-append (packed t) rows, s.rows, size)) in
      let plain : (u : State K) → u.mapped ≡ none → contents u ≡ pairs (packed u) u.scales =
        λ u e. rw e refl in
      record {
        valid =
            grown-IsValid d rows scales n free (λ e. cc (h, e)) size size2
              (derived-IsValid t dim h v);
        taken = λ e.
            plain (grown K d rows scales n) free
            ∙ ap (λ rs. pairs rs (t.scales ++ scales)) back
            ∙ pairs-append (packed t) rows t.scales scales (omega (arith, s.rows, s.scales))
            ∙ ap (λ c. c ++ pairs rows scales) (sym (plain t free));
        refused = λ e. absurd (cc e);
        mapped = refl;
        journal_kept = refl;
        front = (rows, back);
      }
