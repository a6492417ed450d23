-- ===== src/Index/Valid/Added.antt =====
-- `encode_and_append` of turbovec/src/lib.rs has one result, whichever layout is live.
use turbovec.Common.{
  ℕ, ◌+◌, ◌≡◌, refl, ap, ◌∙◌, inl, inr, Bool, true, false, ◌&&◌, not, Option, none, some, List,
  ◌++◌, length, get_elem?, take, get-take, get_none, get_lt, same_places, if◌then◌else◌,
  Option-cases, arith,
}
use turbovec.Error.{ok, panic}
use turbovec.Index.Cache.{BlockedCache, blocks_for, build, append_lanes}
use turbovec.Index.Cache.Rebuilt.{get-build, append_lanes-build, patch-build}
use turbovec.Index.{Kernel, is_some, packed}
use turbovec.Index.Grow.{
  State, Added, derived, encoded, lazy_append, append_lazy, patched, eager_cache, append_eager,
  commit, kept, encode_and_append,
}
use turbovec.Index.Valid.{IsStored}

module _ {Row : Type 0} (z : Row) where
  pub take-build :
      (rows : List Row) (n : ℕ) → length rows ≡ n → take n (build z rows n).lanes ≡ rows
  take-build rows n h = same_places (take n (build z rows n).lanes) rows (λ i.
      let cut = get-take n (build z rows n).lanes i in
      let here = get-build z rows n i h in
      elim (Option-cases (get_elem? rows i)) [
        | inl e ↦ let past = get_none rows i e in ground (arith, cut, here, e, past, h)
        | inr (a, e) ↦ let near = get_lt rows i a e in ground (arith, cut, here, e, near, h)
      ])

module _ (K : Kernel) where
  -- The rows behind the ones that are there, in the blocked layout alone.
  abbrev pub grown : State K → List K.Row → List K.F32 → ℕ → State K
  grown t rows scales n = record t {
    packed_codes = none;
    blocked = some (build K.zero_row (packed t ++ rows) (t.n_vectors + n));
    scales = t.scales ++ scales;
    n_vectors = t.n_vectors + n;
  }

  lazy-grown :
      (t : State K) (cache : BlockedCache K.Row) (rows : List K.Row) (scales : List K.F32) (n : ℕ)
      → length rows ≡ n
      → length (packed t) ≡ t.n_vectors
      → cache ≡ build K.zero_row (packed t) t.n_vectors
      → append_lazy K t cache rows scales n ≡ grown t rows scales n
  lazy-grown t cache rows scales n size h e =
      let built : append_lanes K.zero_row (build K.zero_row (packed t) t.n_vectors).lanes
            t.n_vectors rows
          ≡ (build K.zero_row (packed t ++ rows) (t.n_vectors + length rows)).lanes =
        append_lanes-build K.zero_row (packed t) rows t.n_vectors h in
      let sized : (build K.zero_row (packed t ++ rows) (t.n_vectors + length rows)).lanes
          ≡ (build K.zero_row (packed t ++ rows) (t.n_vectors + n)).lanes =
        ap (λ m. (build K.zero_row (packed t ++ rows) (t.n_vectors + m)).lanes) size in
      let start : append_lanes K.zero_row cache.lanes t.n_vectors rows
          ≡ append_lanes K.zero_row (build K.zero_row (packed t) t.n_vectors).lanes t.n_vectors
              rows =
        ap (λ c. append_lanes K.zero_row c.lanes t.n_vectors rows) e in
      ap
        (λ lanes. record t {
          packed_codes = none;
          blocked = some (record { lanes = lanes; n_blocks = blocks_for (t.n_vectors + n) });
          scales = t.scales ++ scales;
          n_vectors = t.n_vectors + n;
        })
        (start ∙ built ∙ sized)

  eager_cache-build :
      (blocked : Option (BlockedCache K.Row)) (old rows : List K.Row) (old_n n : ℕ)
      → length old ≡ old_n
      → length rows ≡ n
      → ((c : BlockedCache K.Row) → blocked ≡ some c → c ≡ build K.zero_row old old_n)
      → eager_cache K blocked (old ++ rows) old_n (old_n + n)
        ≡ build K.zero_row (old ++ rows) (old_n + n)
  eager_cache-build none old rows old_n n h size cache = refl
  eager_cache-build (some c) old rows old_n n h size cache =
      ap (λ b. patched K b (old ++ rows) old_n (old_n + n)) (cache c refl)
      ∙ ap (λ lanes. record { lanes = lanes; n_blocks = blocks_for (old_n + n) })
          (patch-build K.zero_row old rows old_n n h size)

  eager-grown :
      (t : State K) (blocked : Option (BlockedCache K.Row)) (rows : List K.Row)
      (scales : List K.F32) (n : ℕ)
      → length rows ≡ n
      → length (packed t) ≡ t.n_vectors
      → ((c : BlockedCache K.Row) → blocked ≡ some c → c ≡ build K.zero_row (packed t) t.n_vectors)
      → append_eager K t blocked (packed t ++ rows) scales n ≡ grown t rows scales n
  eager-grown t blocked rows scales n size h cache =
      ap
        (λ c. record t {
          packed_codes = none;
          blocked = some c;
          scales = t.scales ++ scales;
          n_vectors = t.n_vectors + n;
        })
        (eager_cache-build blocked (packed t) rows t.n_vectors n h size cache)

  -- One result for all layouts: the rows go behind the rows, or nothing is added.
  abbrev pub appended : State K → State K → Bool → ℕ → Option (List K.Row × List K.F32) → Added K
  appended taken kept lazy n none = (kept, panic)
  appended taken kept lazy n (some (rows, scales)) =
      if not lazy && K.repack_panics (packed taken ++ rows)
      then (kept, panic)
      else (grown taken rows scales n, ok tt)

  commit-appended :
      (taken kept : State K) (lazy : Bool) (n : ℕ) (blocked : Option (BlockedCache K.Row))
      (out : Option (List K.Row × List K.F32))
      → ((o : List K.Row × List K.F32) → out ≡ some o → length o.0 ≡ n)
      → length (packed taken) ≡ taken.n_vectors
      → ((c : BlockedCache K.Row)
          → blocked ≡ some c
          → c ≡ build K.zero_row (packed taken) taken.n_vectors)
      → (blocked ≡ none → lazy ≡ false)
      → commit K taken kept lazy n blocked out ≡ appended taken kept lazy n out
  commit-appended taken kept lazy n blocked none size h cache cold = refl
  commit-appended taken kept lazy n none (some (rows, scales)) size h cache cold =
      let same = eager-grown taken none rows scales n (size (rows, scales) refl) h cache in
      rw (cold refl) (
        ap (λ u. if K.repack_panics (packed taken ++ rows) then (kept, panic) else (u, ok tt)) same)
  commit-appended taken kept true n (some c) (some (rows, scales)) size h cache cold =
      ap (λ u. (u, ok tt))
        (lazy-grown taken c rows scales n (size (rows, scales) refl) h (cache c refl))
  commit-appended taken kept false n (some c) (some (rows, scales)) size h cache cold =
      let same = eager-grown taken (some c) rows scales n (size (rows, scales) refl) h cache in
      ap (λ u. if K.repack_panics (packed taken ++ rows) then (kept, panic) else (u, ok tt)) same

  -- On an index that is not a mapped image, an add comes to the same whether the packed rows or the
  -- blocked cache are live, and whether the cache is cold or warm: it panics and leaves the rows, or
  -- puts the encoded rows behind them, with the cache that a repack of all rows would make.
  pub encode_and_append_lem :
      (t : State K) (vectors : List K.F32) (n dim : ℕ)
      → t.mapped ≡ none
      → IsStored K.zero_row t
      → encode_and_append K t vectors n dim
        ≡ appended (derived K t dim) (kept K t dim) (lazy_append K t) n (encoded K t vectors n dim)
  unfolding encode_and_append
  encode_and_append_lem t vectors n dim free valid =
      let same =
        commit-appended (derived K t dim) (kept K t dim) (lazy_append K t) n t.blocked
          (encoded K t vectors n dim) (λ o e. (K.encode-lens vectors n dim _ _ _ _ o e).0)
          valid.rows valid.cache (λ cold. rw cold (ground arith)) in
      ap
        (λ m.
          if is_some m
          then (t, panic)
          else commit K (derived K t dim) (kept K t dim) (lazy_append K t) n t.blocked
              (encoded K t vectors n dim))
        free
      ∙ same
