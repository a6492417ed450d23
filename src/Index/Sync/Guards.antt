-- ===== src/Index/Sync/Guards.antt =====
-- What a sync of turbovec/src/lib.rs writes, and how it goes on after one that failed.
use turbovec.Common.{
  ℕ, ◌≡◌, refl, sym, ap, ◌∙◌, subst, inl, inr, Option, none, some, List, [], ◌∷◌, ◌==◌, ==_iff,
  if◌then◌else◌, Bool-cases, Option-cases,
}
use turbovec.IoV7.Sync.{SyncCursor}
use turbovec.Index.{TurboQuantIndex, is_some}
use turbovec.Index.Sync.{
  SyncIo, Plan, CursorState, intact, foreign, replaced, SyncError, Write, full, incremental, Synced,
  refuse, committed, dropped, finish_sync, sync_full, sync_planned, sync_found, sync_bound, seeded,
  sync_known, sync_v7_impl,
}

module _ {F Row : Type 0} (io : SyncIo F Row) where
  -- A file that the index is bound to and that another writer has taken over.
  abbrev pub IsForeign : ℕ → Option SyncCursor → Option ℕ → Type 0
  IsForeign path none at = ⊥
  IsForeign path (some c) none = ⊥
  IsForeign path (some c) (some p) = (p ≡ path) × (io.cursor_state path c ≡ some foreign)

  -- The index is bound to the file, which has its last commit, made under the same calibration.
  abbrev pub IsIntact : ℕ → ℕ → Option SyncCursor → Option ℕ → Type 0
  IsIntact path calib_gen none at = ⊥
  IsIntact path calib_gen (some c) none = ⊥
  IsIntact path calib_gen (some c) (some p) =
      (p ≡ path)
      × ((stale : Option ℕ) × (io.cursor_state path c ≡ some (intact stale)))
      × (c.calib_gen ≡ calib_gen)

  -- What a sync may write: nothing, the whole file at its path unless that is another writer's, or
  -- the difference to the file that it has synced to last.
  abbrev pub MayWrite : ℕ → ℕ → Option SyncCursor → Option ℕ → List Write → Type 0
  MayWrite path calib_gen c at [] = Unit
  MayWrite path calib_gen c at (full p ∷ ws) = (p ≡ path) × ¬ (IsForeign path c at) × (ws ≡ [])
  MayWrite path calib_gen c at (incremental p slots ∷ ws) =
      (p ≡ path) × IsIntact path calib_gen c at × (ws ≡ [])

  full-MayWrite :
      (t : TurboQuantIndex F Row) (path : ℕ) (c : Option SyncCursor) (at : Option ℕ)
      → ¬ (IsForeign path c at)
      → MayWrite path t.calib_gen c at (sync_full io t path).2
  full-MayWrite t path c at own = elim (Option-cases (io.write_full t path)) [
    | inl e ↦ rw e (refl, own, refl)
    | inr (d, e) ↦ rw e (refl, own, refl)
  ]

  planned-MayWrite :
      (t : TurboQuantIndex F Row) (path : ℕ) (c : Option SyncCursor) (at : Option ℕ)
      (plan : Option Plan)
      → ¬ (IsForeign path c at)
      → IsIntact path t.calib_gen c at
      → MayWrite path t.calib_gen c at (sync_planned io t path plan).2
  planned-MayWrite t path c at none own good = full-MayWrite t path c at own
  planned-MayWrite t path c at (some plan) own good =
      elim (Option-cases (io.run_sync t path plan)) [
        | inl e ↦ rw e (refl, good, refl)
        | inr (d, e) ↦ rw e (refl, good, refl)
      ]

  found-MayWrite :
      (t : TurboQuantIndex F Row) (path p : ℕ) (c : SyncCursor) (found : Option CursorState)
      → p ≡ path
      → io.cursor_state path c ≡ found
      → MayWrite path t.calib_gen (some c) (some p) (sync_found io t path c found).2
  found-MayWrite t path p c none same e = tt
  found-MayWrite t path p c (some foreign) same e = tt
  found-MayWrite t path p c (some replaced) same e =
      full-MayWrite t path (some c) (some p) (λ f. cc (e, f.1))
  found-MayWrite t path p c (some (intact stale)) same e =
      elim (Bool-cases (c.calib_gen == t.calib_gen)) [
        | inr g ↦ rw g (full-MayWrite t path (some c) (some p) (λ f. cc (e, f.1)))
        | inl g ↦
            let good : IsIntact path t.calib_gen (some c) (some p) =
              (same, (stale, e), (==_iff c.calib_gen t.calib_gen).0 g) in
            rw g (
              planned-MayWrite t path (some c) (some p)
                (io.plan_incremental t c t.sync_pending t.sync_fresh stale) (λ f. cc (e, f.1)) good)
      ]

  bound-MayWrite :
      (t : TurboQuantIndex F Row) (path : ℕ) (c : Option SyncCursor) (at : Option ℕ)
      → MayWrite path t.calib_gen c at (sync_bound io t path c at).2
  bound-MayWrite t path none at = full-MayWrite t path none at (λ f. f)
  bound-MayWrite t path (some c) none = full-MayWrite t path (some c) none (λ f. f)
  bound-MayWrite t path (some c) (some p) = elim (Bool-cases (p == path)) [
    | inl e ↦ rw e (found-MayWrite t path p c (io.cursor_state path c) ((==_iff p path).0 e) refl)
    | inr e ↦
        rw e (full-MayWrite t path (some c) (some p) (λ f. absurd (cc ((==_iff p path).1 f.0, e))))
  ]

  known-MayWrite :
      (t : TurboQuantIndex F Row) (path : ℕ) (known : Option ℕ)
      → MayWrite path t.calib_gen t.sync_cursor t.sync_path (sync_known io t path known).2
  known-MayWrite t path none = tt
  known-MayWrite t path (some dim) = bound-MayWrite (seeded io t dim) path t.sync_cursor t.sync_path

  -- A sync writes nothing but the file at its path. It writes the file whole only if the index is not
  -- bound to that path or `cursor_state` does not report it as foreign; so an index that is not bound may
  -- overwrite any file. It writes the difference only if it is bound to the path, `cursor_state` reports
  -- the file as intact, and the calibration is that of the last sync.
  pub sync_v7_impl-MayWrite :
      (t : TurboQuantIndex F Row) (path : ℕ)
      → MayWrite path t.calib_gen t.sync_cursor t.sync_path (sync_v7_impl io t path).2
  unfolding sync_v7_impl
  sync_v7_impl-MayWrite t path = elim (Bool-cases (is_some t.mapped)) [
    | inl e ↦ rw (sync_v7_impl, e) tt
    | inr e ↦ rw (sync_v7_impl, e) (known-MayWrite t path t.dim)
  ]

  -- A sync that wrote and failed has let go of the file.
  abbrev LetsGo : TurboQuantIndex F Row → Synced io → Type 0
  LetsGo t s =
      (w : Write) (ws : List Write) (e : SyncError)
      → s.2 ≡ w ∷ ws
      → s.1 ≡ some e
      → s.0 ≡ dropped io t

  finish_sync-LetsGo :
      (t : TurboQuantIndex F Row) (path : ℕ) (w : Write) (c : Option SyncCursor) (carried : List ℕ)
      → LetsGo t (finish_sync io t path w c carried)
  finish_sync-LetsGo t path w none carried w2 ws e h k = refl
  finish_sync-LetsGo t path w (some c) carried w2 ws e h k = absurd (cc k)

  sync_planned-LetsGo :
      (t : TurboQuantIndex F Row) (path : ℕ) (plan : Option Plan)
      → LetsGo t (sync_planned io t path plan)
  sync_planned-LetsGo t path none = finish_sync-LetsGo t path (full path) (io.write_full t path) []
  sync_planned-LetsGo t path (some plan) =
      finish_sync-LetsGo t path (incremental path plan.slots) (io.run_sync t path plan) plan.carried

  sync_found-LetsGo :
      (t : TurboQuantIndex F Row) (path : ℕ) (c : SyncCursor) (found : Option CursorState)
      → LetsGo t (sync_found io t path c found)
  sync_found-LetsGo t path c none = λ w ws e h k. absurd (cc h)
  sync_found-LetsGo t path c (some foreign) = λ w ws e h k. absurd (cc h)
  sync_found-LetsGo t path c (some replaced) = sync_planned-LetsGo t path none
  sync_found-LetsGo t path c (some (intact stale)) =
      elim (Bool-cases (c.calib_gen == t.calib_gen)) [
        | inl g ↦
            rw g (
              sync_planned-LetsGo t path
                (io.plan_incremental t c t.sync_pending t.sync_fresh stale))
        | inr g ↦ rw g (sync_planned-LetsGo t path none)
      ]

  sync_bound-LetsGo :
      (t : TurboQuantIndex F Row) (path : ℕ) (c : Option SyncCursor) (at : Option ℕ)
      → LetsGo t (sync_bound io t path c at)
  sync_bound-LetsGo t path none at = sync_planned-LetsGo t path none
  sync_bound-LetsGo t path (some c) none = sync_planned-LetsGo t path none
  sync_bound-LetsGo t path (some c) (some p) = elim (Bool-cases (p == path)) [
    | inl g ↦ rw g (sync_found-LetsGo t path c (io.cursor_state path c))
    | inr g ↦ rw g (sync_planned-LetsGo t path none)
  ]

  known-LetsGo :
      (t : TurboQuantIndex F Row) (path d : ℕ) (known : Option ℕ)
      → known ≡ some d
      → LetsGo (seeded io t d) (sync_known io t path known)
  known-LetsGo t path d none h = absurd (cc h)
  known-LetsGo t path d (some dim) h =
      let same : dim ≡ d = cc h in
      subst (λ x. LetsGo (seeded io t x) (sync_known io t path (some dim))) same
        (sync_bound-LetsGo (seeded io t dim) path t.sync_cursor t.sync_path)

  sync_v7_impl-known :
      (t : TurboQuantIndex F Row) (path : ℕ)
      → t.mapped ≡ none
      → sync_v7_impl io t path ≡ sync_known io t path t.dim
  unfolding sync_v7_impl
  sync_v7_impl-known t path free =
      ap (λ m. if is_some m then refuse io t SyncError.unsupported else sync_known io t path t.dim)
        free

  unbound-full :
      (t : TurboQuantIndex F Row) (path d : ℕ) (c : SyncCursor)
      → t.mapped ≡ none
      → t.dim ≡ some d
      → t.sync_cursor ≡ none
      → io.write_full (seeded io t d) path ≡ some c
      → sync_v7_impl io t path ≡ (committed io (seeded io t d) path c [], none, full path ∷ [])
  unbound-full t path d c free known lost done =
      sync_v7_impl-known t path free
      ∙ ap (sync_known io t path) known
      ∙ ap (λ k. sync_bound io (seeded io t d) path k t.sync_path) lost
      ∙ ap (λ w. finish_sync io (seeded io t d) path (full path) w []) done

  -- After a sync that wrote and failed, whatever it left in the file, the next sync to any path, if it
  -- can write a whole file there, writes one and succeeds.
  pub sync_v7_impl-recovers :
      (t : TurboQuantIndex F Row) (path path2 d : ℕ) (w : Write) (ws : List Write) (e : SyncError)
      (c : SyncCursor)
      → t.mapped ≡ none
      → t.dim ≡ some d
      → (sync_v7_impl io t path).2 ≡ w ∷ ws
      → (sync_v7_impl io t path).1 ≡ some e
      → io.write_full (seeded io (sync_v7_impl io t path).0 d) path2 ≡ some c
      → ((sync_v7_impl io (sync_v7_impl io t path).0 path2).1 ≡ none)
        × ((sync_v7_impl io (sync_v7_impl io t path).0 path2).2 ≡ full path2 ∷ [])
        × ((sync_v7_impl io (sync_v7_impl io t path).0 path2).0.sync_path ≡ some path2)
  sync_v7_impl-recovers t path path2 d w ws e c free known wrote failed done =
      let run = sync_v7_impl-known t path free in
      let gone : (sync_v7_impl io t path).0 ≡ dropped io (seeded io t d) =
        ap (λ r. r.0) run
        ∙ known-LetsGo t path d t.dim known w ws e (ap (λ r. r.2) (sym run) ∙ wrote)
            (ap (λ r. r.1) (sym run) ∙ failed) in
      let next : io.write_full (seeded io (dropped io (seeded io t d)) d) path2 ≡ some c =
        subst (λ u. io.write_full (seeded io u d) path2 ≡ some c) gone done in
      let again = unbound-full (dropped io (seeded io t d)) path2 d c free known refl next in
      subst
        (λ u.
          ((sync_v7_impl io u path2).1 ≡ none)
          × ((sync_v7_impl io u path2).2 ≡ full path2 ∷ [])
          × ((sync_v7_impl io u path2).0.sync_path ≡ some path2))
        (sym gone) (ap (λ r. r.1) again, ap (λ r. r.2) again, ap (λ r. r.0.sync_path) again)
