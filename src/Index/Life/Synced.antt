-- ===== src/Index/Life/Synced.antt =====
-- `sync_v7_impl` of turbovec/src/lib.rs in the life of an index.
use turbovec.Common.{
  ℕ, ◌%◌, ◌≤◌, ◌<◌, ◌≡◌, refl, sym, subst, inl, inr, ◌⊎◌, ◌&&◌, ◌||◌, not, Option, none, some, [],
  get_elem?, leb, ltb, ◌==◌, Bool-cases, arith,
}
use turbovec.Error.{ok}
use turbovec.Index.{Kernel, packed, empty_index, max_dim, new, new_lazy}
use turbovec.Index.Grow.{State}
use turbovec.Index.Shrink.{row_codes}
use turbovec.Index.Shrink.Live.{row_codes-live}
use turbovec.Index.Sync.{SyncIo}
use turbovec.Index.Life.{File, Remembered, Step, adds, removes, syncs, Reaches, start, step}
use turbovec.Index.Life.Tracked.{IsTracked, adds-IsTracked, removes-IsTracked}
use turbovec.Index.Life.Written.{empty-IsCaptured, syncs-IsTracked}

module _ (K : Kernel) (io : SyncIo K.F32 K.Row) where
  Step-IsTracked :
      (a b : Remembered K io) → Step K io a b → IsTracked K a.0 a.1 → IsTracked K b.0 b.1
  Step-IsTracked a b (adds t old v dim) h = adds-IsTracked K t old v dim h
  Step-IsTracked a b (removes t old idx) h = removes-IsTracked K t old idx h
  Step-IsTracked a b (syncs t old path) h = syncs-IsTracked K io t old path h

  Reaches-IsTracked :
      (a b : Remembered K io) → Reaches K io a b → IsTracked K a.0 a.1 → IsTracked K b.0 b.1
  Reaches-IsTracked a b start h = h
  Reaches-IsTracked a b (step c d r s) h = Step-IsTracked c d s (Reaches-IsTracked a c r h)

  empty-IsTracked :
      (t : State K) (dim : Option ℕ) (bits : ℕ)
      → t ≡ empty_index dim bits
      → (2 ≤ bits) × (bits ≤ 4)
      → ((d : ℕ) → dim ≡ some d → (0 < d) × (d % 8 ≡ 0) × (d ≤ max_dim))
      → IsTracked K t (λ s. none)
  empty-IsTracked t dim bits same range widths =
      subst (λ u. IsTracked K u (λ s. none)) (sym same)
        (record {
          valid = record {
            bits = range;
            dims = widths;
            lazy = λ e. refl;
            rotated = λ r e. absurd (cc e);
            coded = λ r e. absurd (cc e);
            stored = λ free. record { rows = refl; scales = refl; cache = λ c e. absurd (cc e) };
            image = λ m e. absurd (cc e);
          };
          captured = empty-IsCaptured K io [];
          unmarked = λ s low out. absurd (omega (arith, low));
        })

  made-IsTracked :
      (t : State K) (dim bits : ℕ)
      → (new dim bits ≡ ok t) ⊎ (new_lazy bits ≡ ok t)
      → IsTracked K t (λ s. none)
  unfolding new new_lazy
  made-IsTracked t dim bits (inl h) = elim (Bool-cases (not (leb 2 bits && leb bits 4))) [
    | inl e ↦ absurd (cc (rw e at h))
    | inr e ↦ elim (Bool-cases ((dim == 0) || not (dim % 8 == 0))) [
      | inl f ↦ absurd (cc (rw (e, f) at h))
      | inr f ↦ elim (Bool-cases (ltb max_dim dim)) [
        | inl g ↦ absurd (cc (rw (e, f, g) at h))
        | inr g ↦
            let same : ok (empty_index (some dim) bits) ≡ ok t = rw (e, f, g) at h in
            empty-IsTracked t (some dim) bits (cc same) (ground (arith, e)) (λ d at.
              let whose : dim ≡ d = cc at in
              subst (λ x. (0 < x) × (x % 8 ≡ 0) × (x ≤ max_dim)) whose
                (ground (arith, f), ground (arith, f), ground (arith, g)))
      ]
    ]
  ]
  made-IsTracked t dim bits (inr h) = elim (Bool-cases (not (leb 2 bits && leb bits 4))) [
    | inl e ↦ absurd (cc (rw e at h))
    | inr e ↦
        let same : ok (empty_index none bits) ≡ ok t = rw e at h in
        empty-IsTracked t none bits (cc same) (ground (arith, e)) (λ d at. absurd (cc at))
  ]

  pub life-IsTracked :
      (t u : State K) (old : File K io) (dim bits : ℕ)
      → (new dim bits ≡ ok t) ⊎ (new_lazy bits ≡ ok t)
      → Reaches K io (t, λ s. none) (u, old)
      → IsTracked K u old × ((slot : ℕ) → row_codes u slot ≡ get_elem? (packed u) slot)
  life-IsTracked t u old dim bits made path =
      let h = Reaches-IsTracked (t, λ s. none) (u, old) path (made-IsTracked t dim bits made) in
      (h, λ slot. row_codes-live u slot h.captured)
