-- ===== src/Index/Sync.antt =====
-- `sync_v7_impl` of turbovec/src/lib.rs: which of its two ways a sync takes, and what the index
-- remembers of it. The file is behind a parameter: what `cursor_state` of turbovec/src/io_v7.rs finds
-- there, which slots `plan_incremental` brings, as `IoV7/Sync/Covered` has it, and whether the writes succeed.
pub mod Guards
use turbovec.Common.{
  ℕ, ◌*◌, ◌/◌, ◌<◌, ◌≡◌, true, Option, none, some, List, [], ◌∷◌, ◌==◌, if◌then◌else◌, mem, min,
}
use turbovec.Pack.Geometry.{block}
use turbovec.IoV7.Sync.{SyncCursor}
use turbovec.Index.{TurboQuantIndex, is_some, is_none, packed, get_or_init}

pub data CursorState : Type 0 where
  intact : Option ℕ → CursorState
  foreign : CursorState
  replaced : CursorState

pub data SyncError : Type 0 where
  unsupported : SyncError
  invalid_input : SyncError
  invalid_data : SyncError
  io_error : SyncError

-- What a sync asked of the file at a path: the whole, or the rows of some slots.
pub data Write : Type 0 where
  full : ℕ → Write
  incremental : ℕ → List ℕ → Write

-- A plan is known by the slots whose ops it leaves in the header, and by all the slots whose rows it brings, in
-- an op or in a unit.
pub record Plan : Type 0 where
  pub carried : List ℕ
  pub slots : List ℕ

-- `none` stands for an I/O error, and for a plan that has too many ops. A cursor that comes back counts
-- the rows that were written, and a plan brings every fresh slot of a block that stays whole.
pub record SyncIo (F Row : Type 0) : Type 0 where
  pub cursor_state : ℕ → SyncCursor → Option CursorState
  pub plan_incremental :
      TurboQuantIndex F Row → SyncCursor → List ℕ → List ℕ → Option ℕ → Option Plan
  pub run_sync : TurboQuantIndex F Row → ℕ → Plan → Option SyncCursor
  pub write_full : TurboQuantIndex F Row → ℕ → Option SyncCursor
  pub plan_incremental-slots :
      (t : TurboQuantIndex F Row) (c : SyncCursor) (pending fresh : List ℕ) (stale : Option ℕ)
      (plan : Plan)
      → plan_incremental t c pending fresh stale ≡ some plan
      → (s : ℕ) → s < min (c.n_synced / block) (t.n_vectors / block) * block
      → mem fresh s ≡ true
      → mem plan.slots s ≡ true
  pub run_sync-rows :
      (t : TurboQuantIndex F Row) (path : ℕ) (plan : Plan) (c : SyncCursor)
      → run_sync t path plan ≡ some c
      → c.n_synced ≡ t.n_vectors
  pub write_full-rows :
      (t : TurboQuantIndex F Row) (path : ℕ) (c : SyncCursor)
      → write_full t path ≡ some c
      → c.n_synced ≡ t.n_vectors

module _ {F Row : Type 0} (io : SyncIo F Row) where
  -- The index, the error if any, and what was written.
  abbrev pub Synced : Type 0
  Synced = TurboQuantIndex F Row × Option SyncError × List Write

  abbrev pub refuse : TurboQuantIndex F Row → SyncError → Synced
  refuse t e = (t, some e, [])

  -- A sync that succeeds binds the cursor and forgets the slots it has written.
  abbrev pub committed : TurboQuantIndex F Row → ℕ → SyncCursor → List ℕ → TurboQuantIndex F Row
  committed t path c carried = record t {
    sync_pending = carried;
    sync_fresh = [];
    capture_buf = [];
    captures = [];
    sync_cursor = some (record c { calib_gen = t.calib_gen });
    sync_path = some path;
  }

  -- A sync that fails may have written: the index lets go of the file.
  abbrev pub dropped : TurboQuantIndex F Row → TurboQuantIndex F Row
  dropped t = record t { sync_cursor = none; sync_path = none; capture_buf = []; captures = [] }

  abbrev pub finish_sync : TurboQuantIndex F Row → ℕ → Write → Option SyncCursor → List ℕ → Synced
  finish_sync t path w none carried = (dropped t, some SyncError.io_error, w ∷ [])
  finish_sync t path w (some c) carried = (committed t path c carried, none, w ∷ [])

  abbrev pub sync_full : TurboQuantIndex F Row → ℕ → Synced
  sync_full t path = finish_sync t path (Write.full path) (io.write_full t path) []

  abbrev pub sync_planned : TurboQuantIndex F Row → ℕ → Option Plan → Synced
  sync_planned t path none = sync_full t path
  sync_planned t path (some plan) =
      finish_sync t path (Write.incremental path plan.slots) (io.run_sync t path plan) plan.carried

  -- On what the file holds, for an index that is bound to it.
  abbrev pub sync_found : TurboQuantIndex F Row → ℕ → SyncCursor → Option CursorState → Synced
  sync_found t path c none = refuse t SyncError.io_error
  sync_found t path c (some CursorState.foreign) = refuse t SyncError.invalid_data
  sync_found t path c (some CursorState.replaced) = sync_full t path
  sync_found t path c (some (CursorState.intact stale_ahead)) =
      if c.calib_gen == t.calib_gen
      then sync_planned t path (io.plan_incremental t c t.sync_pending t.sync_fresh stale_ahead)
      else sync_full t path

  -- Bound to the path, or not.
  abbrev pub sync_bound : TurboQuantIndex F Row → ℕ → Option SyncCursor → Option ℕ → Synced
  sync_bound t path none at = sync_full t path
  sync_bound t path (some c) none = sync_full t path
  sync_bound t path (some c) (some p) =
      if p == path then sync_found t path c (io.cursor_state path c) else sync_full t path

  -- Without a blocked cache the packed rows are materialized; the codebook is there for the superblock.
  abbrev pub seeded : TurboQuantIndex F Row → ℕ → TurboQuantIndex F Row
  seeded t dim = record t {
    packed_codes = if is_none t.blocked then some (packed t) else t.packed_codes;
    codebook = some (get_or_init t.codebook dim);
  }

  abbrev pub sync_known : TurboQuantIndex F Row → ℕ → Option ℕ → Synced
  sync_known t path none = refuse t SyncError.invalid_input
  sync_known t path (some dim) = sync_bound (seeded t dim) path t.sync_cursor t.sync_path

  unfoldable pub sync_v7_impl : TurboQuantIndex F Row → ℕ → Synced
  sync_v7_impl t path =
      if is_some t.mapped then refuse t SyncError.unsupported else sync_known t path t.dim
