-- ===== src/Index/Life/Written.antt =====
-- One run of `sync_v7_impl` of turbovec/src/lib.rs, and what the index then knows of its file.
use turbovec.Common.{
  ℕ, ◌*◌, ◌/◌, ◌<◌, ◌≡◌, refl, true, false, false, not, ◌||◌, mem, ltb, ap, ◌∙◌, sym, subst, inl,
  inr, Option, none, some, List, [], length, get_elem?, ◌==◌, Bool-cases, arith,
}
use turbovec.Pack.Geometry.{block}
use turbovec.IoV7.Sync.{SyncCursor}
use turbovec.Index.{Kernel, packed, is_some, is_none, sync_watermark, watermark_of}
use turbovec.Index.Grow.{State}
use turbovec.Index.Shrink.Captured.{IsCaptured}
use turbovec.Index.Valid.{IsValid, contents, pairs}
use turbovec.Index.Valid.Batch.{get_or_init-lem}
use turbovec.Index.Cache.{build}
use turbovec.Index.Sync.{
  SyncIo, Plan, CursorState, intact, foreign, replaced, Write, incremental, Synced, committed,
  dropped, finish_sync, sync_full, sync_planned, sync_found, sync_bound, seeded, sync_known,
  sync_v7_impl,
}
use turbovec.Index.Life.{written, after_writes, live_slots, remember}
use turbovec.Index.Life.Tracked.{IsTracked}

module _ (K : Kernel) (io : SyncIo K.F32 K.Row) where
  abbrev OldFile : Type 0
  OldFile = ℕ → Option (K.Row × K.F32)

  -- A sync of `t` has kept the index and what it remembers of its file in step.
  abbrev Tracked : State K → OldFile → Synced io → Type 0
  Tracked t old s = IsTracked K s.0 (remember K io t old s)

  pub empty-IsCaptured : (rows : List K.Row) → IsCaptured {Row = K.Row} rows [] []
  empty-IsCaptured rows = record { hold = tt; apart = tt; bound = omega arith }

  -- The sync changes nothing that a row depends on.
  dropped-IsValid : (t : State K) → IsValid K.zero_row t → IsValid K.zero_row (dropped io t)
  dropped-IsValid t v = record {
    bits = v.bits;
    dims = v.dims;
    lazy = v.lazy;
    rotated = v.rotated;
    coded = v.coded;
    stored = λ free. record {
      rows = (v.stored free).rows;
      scales = (v.stored free).scales;
      cache = (v.stored free).cache;
    };
    image = v.image;
  }

  committed-IsValid :
      (t : State K) (path : ℕ) (c : SyncCursor) (carried : List ℕ)
      → IsValid K.zero_row t
      → IsValid K.zero_row (committed io t path c carried)
  committed-IsValid t path c carried v = record {
    bits = v.bits;
    dims = v.dims;
    lazy = v.lazy;
    rotated = v.rotated;
    coded = v.coded;
    stored = λ free. record {
      rows = (v.stored free).rows;
      scales = (v.stored free).scales;
      cache = (v.stored free).cache;
    };
    image = v.image;
  }

  finish_sync-Tracked :
      (t : State K) (old : OldFile) (path : ℕ) (w : Write) (c : Option SyncCursor)
      (carried : List ℕ)
      → ((d : SyncCursor) → c ≡ some d → d.n_synced ≡ t.n_vectors)
      → ((s : ℕ)
          → s < t.n_vectors
          → get_elem? (contents t) s ≡ written K io (contents t) (live_slots K io t) old w s)
      → IsTracked K t old
      → Tracked t old (finish_sync io t path w c carried)
  finish_sync-Tracked t old path w none carried rows same h = record {
    valid = dropped-IsValid t h.valid;
    captured = empty-IsCaptured (packed t);
    unmarked = λ s low out. absurd (omega (arith, low));
  }
  finish_sync-Tracked t old path w (some c) carried rows same h = record {
    valid = committed-IsValid t path c carried h.valid;
    captured = empty-IsCaptured (packed t);
    unmarked = λ s low out.
        let inside : s < t.n_vectors = omega (arith, low, rows c refl) in (inside, same s inside);
  }

  sync_full-Tracked :
      (t : State K) (old : OldFile) (path : ℕ)
      → IsTracked K t old
      → Tracked t old (sync_full io t path)
  sync_full-Tracked t old path h =
      finish_sync-Tracked t old path (Write.full path) (io.write_full t path) []
        (λ d e. io.write_full-rows t path d e) (λ s inside. refl) h

  -- A slot that a plan leaves out has its row in the file already.
  difference_lem :
      (t : State K) (old : OldFile) (path : ℕ) (slots : List ℕ)
      → ((s : ℕ) → s < live_slots K io t → mem t.sync_fresh s ≡ true → mem slots s ≡ true)
      → IsTracked K t old
      → (s : ℕ)
      → get_elem? (contents t) s
        ≡ written K io (contents t) (live_slots K io t) old (incremental path slots) s
  difference_lem t old path slots brings h s =
      elim (Bool-cases (mem slots s || not (ltb s (live_slots K io t)))) [
        | inl e ↦ rw e refl
        | inr e ↦
            let low : s < live_slots K io t = ground (arith, e) in
            let left : mem slots s ≡ false = ground (arith, e) in
            let out : mem t.sync_fresh s ≡ false = elim (Bool-cases (mem t.sync_fresh s)) [
              | inl m ↦ absurd (cc (brings s low m, left))
              | inr m ↦ m
            ] in
            rw e (h.unmarked s (omega (arith, low)) out).1
      ]

  sync_planned-Tracked :
      (t : State K) (old : OldFile) (path : ℕ) (plan : Option Plan)
      → ((p : Plan)
          → plan ≡ some p
          → (s : ℕ) → s < live_slots K io t
          → mem t.sync_fresh s ≡ true
          → mem p.slots s ≡ true)
      → IsTracked K t old
      → Tracked t old (sync_planned io t path plan)
  sync_planned-Tracked t old path none brings h = sync_full-Tracked t old path h
  sync_planned-Tracked t old path (some plan) brings h =
      finish_sync-Tracked t old path (incremental path plan.slots) (io.run_sync t path plan)
        plan.carried (λ d e. io.run_sync-rows t path plan d e)
        (λ s inside. difference_lem t old path plan.slots (brings plan refl) h s) h

  sync_found-Tracked :
      (t : State K) (old : OldFile) (path : ℕ) (c : SyncCursor) (found : Option CursorState)
      → t.sync_cursor ≡ some c
      → IsTracked K t old
      → Tracked t old (sync_found io t path c found)
  sync_found-Tracked t old path c none at h = h
  sync_found-Tracked t old path c (some foreign) at h = h
  sync_found-Tracked t old path c (some replaced) at h = sync_full-Tracked t old path h
  sync_found-Tracked t old path c (some (intact stale)) at h =
      let mark : sync_watermark t ≡ c.n_synced / block * block = ap watermark_of at in
      elim (Bool-cases (c.calib_gen == t.calib_gen)) [
        | inl e ↦
            rw (Tracked, e)
              (sync_planned-Tracked t old path
                (io.plan_incremental t c t.sync_pending t.sync_fresh stale)
                (λ p planned s low m.
                  io.plan_incremental-slots t c t.sync_pending t.sync_fresh stale p planned s
                    (ground (arith, low, mark)) m)
                h)
        | inr e ↦ rw (Tracked, e) (sync_full-Tracked t old path h)
      ]

  sync_bound-Tracked :
      (t : State K) (old : OldFile) (path : ℕ) (c : Option SyncCursor) (at : Option ℕ)
      → t.sync_cursor ≡ c
      → IsTracked K t old
      → Tracked t old (sync_bound io t path c at)
  sync_bound-Tracked t old path none at known h = sync_full-Tracked t old path h
  sync_bound-Tracked t old path (some c) none known h = sync_full-Tracked t old path h
  sync_bound-Tracked t old path (some c) (some p) known h = elim (Bool-cases (p == path)) [
    | inl e ↦ rw (Tracked, e) (sync_found-Tracked t old path c (io.cursor_state path c) known h)
    | inr e ↦ rw (Tracked, e) (sync_full-Tracked t old path h)
  ]

  seeded-packed : (t : State K) (dim : ℕ) → packed (seeded io t dim) ≡ packed t
  seeded-packed t dim = elim (Bool-cases (is_none t.blocked)) [
    | inl e ↦ rw e refl
    | inr e ↦ rw e refl
  ]

  seeded-contents : (t : State K) (dim : ℕ) → contents (seeded io t dim) ≡ contents t
  seeded-contents t dim =
      ap (λ rows. elim t.mapped [ some image ↦ image | none ↦ pairs rows t.scales ])
        (seeded-packed t dim)

  remember_same :
      (t : State K) (old : OldFile) (dim : ℕ) (s : Synced io)
      → remember K io (seeded io t dim) old s ≡ remember K io t old s
  remember_same t old dim s =
      ap (λ rows. after_writes K io rows (live_slots K io t) old s.2 s.1) (seeded-contents t dim)

  seeded-IsTracked :
      (t : State K) (old : OldFile) (dim : ℕ)
      → t.dim ≡ some dim
      → IsTracked K t old
      → IsTracked K (seeded io t dim) old
  seeded-IsTracked t old dim known h =
      let u = seeded io t dim in
      let same = seeded-packed t dim in
      let whole = seeded-contents t dim in
      record {
        valid = record {
          bits = h.valid.bits;
          dims = h.valid.dims;
          lazy = h.valid.lazy;
          rotated = h.valid.rotated;
          coded = λ r e. get_or_init-lem K t.codebook dim r t.dim known h.valid.coded e;
          stored = λ free.
              let s = h.valid.stored free in
              record {
                rows = ap length same ∙ s.rows;
                scales = s.scales;
                cache =
                    λ c e. s.cache c e ∙ ap (λ rows. build K.zero_row rows t.n_vectors) (sym same);
              };
          image = h.valid.image;
        };
        captured = subst (λ rows. IsCaptured rows t.capture_buf t.captures) (sym same) h.captured;
        unmarked = λ s low out.
            let (inside, kept) = h.unmarked s low out in
            (inside, ap (λ l. get_elem? l s) whole ∙ kept);
      }

  known-Tracked :
      (t : State K) (old : OldFile) (path : ℕ) (known : Option ℕ)
      → t.dim ≡ known
      → IsTracked K t old
      → Tracked t old (sync_known io t path known)
  known-Tracked t old path none e h = h
  known-Tracked t old path (some dim) e h =
      let u = seeded io t dim in
      let s = sync_bound io u path t.sync_cursor t.sync_path in
      subst (IsTracked K s.0) (remember_same t old dim s) (
        sync_bound-Tracked u old path t.sync_cursor t.sync_path refl
          (seeded-IsTracked t old dim e h))

  pub syncs-IsTracked :
      (t : State K) (old : OldFile) (path : ℕ)
      → IsTracked K t old
      → IsTracked K (sync_v7_impl io t path).0 (remember K io t old (sync_v7_impl io t path))
  unfolding sync_v7_impl
  syncs-IsTracked t old path h = elim (Bool-cases (is_some t.mapped)) [
    | inl e ↦ rw (sync_v7_impl, e) h
    | inr e ↦ rw (sync_v7_impl, e) (known-Tracked t old path t.dim refl h)
  ]
