-- ===== src/Index/Life.antt =====
-- The life of an index of turbovec/src/lib.rs: adds, removals and syncs in any order.
pub mod Tracked
pub mod Written
pub mod Synced
use turbovec.Common.{
  ℕ, ◌*◌, ◌/◌, List, [], ◌∷◌, ◌≡◌, ◌||◌, not, Option, none, some, get_elem?, mem, ltb, min,
  if◌then◌else◌,
}
use turbovec.Pack.Geometry.{block}
use turbovec.Index.{Kernel, TurboQuantIndex, sync_watermark}
use turbovec.Index.Grow.{State, add_2d}
use turbovec.Index.Shrink.{swap_remove}
use turbovec.Index.Sync.{
  SyncIo, SyncError, Write, full, incremental, Synced as SyncResult, sync_v7_impl,
}
use turbovec.Index.Valid.{contents}

module _ (K : Kernel) (io : SyncIo K.F32 K.Row) where
  -- What a file has in each slot.
  abbrev pub File : Type 0
  File = ℕ → Option (K.Row × K.F32)

  -- A state with what the last file it wrote has.
  abbrev pub Remembered : Type 0
  Remembered = State K × File

  -- A whole write leaves the rows of the index. An incremental one brings those of the slots of its plan and
  -- those from `live` on, and leaves the others as they were.
  abbrev pub written : List (K.Row × K.F32) → ℕ → File → Write → File
  written rows live old (full path) s = get_elem? rows s
  written rows live old (incremental path slots) s =
      if mem slots s || not (ltb s live) then get_elem? rows s else old s

  abbrev pub after_writes : List (K.Row × K.F32) → ℕ → File → List Write → Option SyncError → File
  after_writes rows live old ws (some e) = old
  after_writes rows live old [] none = old
  after_writes rows live old (w ∷ ws) none = written rows live old w

  -- Slots below the whole blocks of the last sync and those of now.
  abbrev pub live_slots : State K → ℕ
  live_slots t = min (sync_watermark t) (t.n_vectors / block * block)

  -- What a sync of `t` that succeeds leaves in the file; a failed one has no claim on it any more.
  abbrev pub remember : State K → File → SyncResult io → File
  remember t old s = after_writes (contents t) (live_slots t) old s.2 s.1

  pub data Step : Remembered → Remembered → Type 0 where
    adds :
        (t : State K) (old : File) (v : List K.F32) (dim : ℕ)
        → Step (t, old) ((add_2d K t v dim).0, old)
    removes :
        (t : State K) (old : File) (idx : ℕ) → Step (t, old) ((swap_remove K.zero_row t idx).0, old)
    syncs :
        (t : State K) (old : File) (path : ℕ)
        → Step (t, old) ((sync_v7_impl io t path).0, remember t old (sync_v7_impl io t path))

  pub data Reaches (a : Remembered) : Remembered → Type 0 where
    start : Reaches a a
    step : (b c : Remembered) → Reaches a b → Step b c → Reaches a c
