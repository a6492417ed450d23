-- ===== src/IoV7/Sync.antt =====
-- The incremental sync of turbovec/src/io_v7.rs: `plan_incremental`, `run_sync`, and the checks of the
-- loader, `parse_header_slot` and `delta_verified`. A `HashSet` of slots is a list, in any order. A
-- source has a scale and an id for each of its rows, so that a read of one is never out of range. The
-- file system does what it is told: its errors are not modelled.
pub mod Chosen
pub mod Grouped
pub mod Covered
pub mod Written
pub mod Commit
pub mod Torn
pub mod Writes
pub mod Crash
pub mod Applied
pub mod Complete
mod Tests
use Prim.Native.Nat.{bit_xor}
use turbovec.Common.{
  ℕ, zero, suc, ◌+◌, ◌-◌, ◌*◌, ◌/◌, ◌%◌, ◌^◌, Bool, true, false, not, ◌&&◌, Option, none, some,
  List, [], ◌∷◌, ◌++◌, length, map, filter, mem, sort, dedup, take, drop, replicate, get_or, ltb,
  leb, ◌==◌, if◌then◌else◌, to_le_bytes, min,
}
use turbovec.Pack.Geometry.{block}
use turbovec.IoV7.Geo.{Geo, max_ops, hdr_len, hdr_at, unit_at, unit_len}
use turbovec.IoV7.Digest.{DeltaDigest, new, push, finish}
use turbovec.IoV7.Header.{SyncSource, geo_of, Delta, header_slot, ParsedHdr, parse_header_at}
use turbovec.IoV7.Image.{write_at, slice}

pub record SyncCursor : Type 0 where
  pub gen : ℕ
  pub n_synced : ℕ
  pub calib_gen : ℕ
  pub nonce : ℕ

-- Positioned writes that are durable before the next batch starts.
abbrev pub Batch : Type 0
Batch = List (ℕ × List ℕ)

pub record SyncPlan : Type 0 where
  pub batches : List Batch
  pub new_cursor : SyncCursor
  pub carried : List ℕ

-- The scales of a unit, then its ids; a row past the end has the scale 0.0, which is 32 zero bits.
unfoldable pub unit_scales : SyncSource → ℕ → ℕ → List ℕ
unit_scales src r zero = []
unit_scales src r (suc lanes) =
    to_le_bytes 4 (if ltb r src.n_vectors then get_or src.scales r 0 else 0)
    ++ unit_scales src (suc r) lanes

unfoldable pub unit_ids : List ℕ → ℕ → ℕ → ℕ → List ℕ
unit_ids ids n r zero = []
unit_ids ids n r (suc lanes) =
    to_le_bytes 8 (if ltb r n then get_or ids r 0 else 0) ++ unit_ids ids n (suc r) lanes

unfoldable pub unit_bytes : SyncSource → ℕ → List ℕ
unit_bytes src b =
    let from = b * block in
    src.unit_codes from (from + block)
    ++ (unit_scales src from block
        ++ elim src.ids [ none ↦ [] | some ids ↦ unit_ids ids src.n_vectors from block ])

abbrev pub block_of : ℕ → ℕ
block_of s = s / block

-- Slots below both the old and the new count of whole blocks.
abbrev pub live : ℕ → ℕ → Bool
live live_blocks s = ltb s (live_blocks * block)

abbrev pub fresh_units : ℕ → List ℕ → List ℕ
fresh_units live_blocks fresh = map block_of (filter (live live_blocks) fresh)

-- Units with pending ops and no fresh ones.
unfoldable pub materialize : ℕ → List ℕ → List ℕ → List ℕ
materialize live_blocks pending fresh = dedup (
    sort (
      filter (λ b. not (mem (fresh_units live_blocks fresh) b))
        (map block_of (filter (live live_blocks) pending))))

-- Every dirty slot, old or new, of a unit with fresh ones.
unfoldable pub carried_slots : ℕ → List ℕ → List ℕ → List ℕ
carried_slots live_blocks pending fresh = dedup (
    sort (
      filter (λ s. mem (fresh_units live_blocks fresh) (block_of s))
        (filter (live live_blocks) (pending ++ fresh))))

-- One round of the loop that groups slots: `groups.last_mut()` takes the slot, or a new group does.
unfoldable pub push_slot : List (ℕ × List ℕ) → ℕ → List (ℕ × List ℕ)
push_slot [] s = (block_of s, s ∷ []) ∷ []
push_slot ((b, slots) ∷ []) s =
    if b == block_of s then (b, slots ++ s ∷ []) ∷ [] else (b, slots) ∷ (block_of s, s ∷ []) ∷ []
push_slot (g ∷ h ∷ groups) s = g ∷ push_slot (h ∷ groups) s

unfoldable pub push_slots : List (ℕ × List ℕ) → List ℕ → List (ℕ × List ℕ)
push_slots groups [] = groups
push_slots groups (s ∷ slots) = push_slots (push_slot groups s) slots

-- `from..from + k`
unfoldable pub range : ℕ → ℕ → List ℕ
range from zero = []
range from (suc k) = from ∷ range (suc from) k

-- The loop over the units to write: the digest sees each unit, and the batch gets its write.
unfoldable pub write_units : SyncSource → DeltaDigest → List ℕ → DeltaDigest × Batch
write_units src digest [] = (digest, [])
write_units src digest (b ∷ units) =
    let bytes = unit_bytes src b in
    let (digest', ops) = write_units src (push (push digest (to_le_bytes 4 b)) bytes) units in
    (digest', (unit_at (geo_of src) b, bytes) ∷ ops)

abbrev pub clamp : ℕ → ℕ → ℕ → ℕ
clamp v low high = if ltb v low then low else min v high

-- The bytes that break a rejected header in the slot: a generation of the other parity, then zeros.
unfoldable pub wiped : SyncSource → ℕ → ℕ → List ℕ
wiped src gen used =
    to_le_bytes 8 (bit_xor (gen % 2) 1) ++ replicate (clamp used 8 (hdr_len (geo_of src)) - 8) 0

module _ (src : SyncSource) (cursor : SyncCursor) (pending fresh : List ℕ) where
  abbrev pub old_blocks : ℕ
  old_blocks = cursor.n_synced / block

  abbrev pub new_blocks : ℕ
  new_blocks = src.n_vectors / block

  abbrev pub live_blocks : ℕ
  live_blocks = min old_blocks new_blocks

  abbrev pub gen : ℕ
  gen = cursor.gen + 1

  -- `materialize.iter().copied().chain(old_blocks..new_blocks)`
  abbrev pub written : List ℕ
  written = materialize live_blocks pending fresh ++ range old_blocks (new_blocks - old_blocks)

  unfoldable pub plan_groups : List (ℕ × List ℕ)
  plan_groups = push_slots [] (carried_slots live_blocks pending fresh)

  -- The digest of the units that are written, and their writes.
  unfoldable pub plan_units : DeltaDigest × Batch
  plan_units =
      let n_written = length (materialize live_blocks pending fresh) + (new_blocks - old_blocks) in
      write_units src (push (new (8 + n_written * (4 + unit_len (geo_of src)))) (to_le_bytes 8 gen))
        written

  unfoldable pub plan_delta : Delta
  plan_delta = record {
    mat = materialize live_blocks pending fresh;
    app_start = old_blocks;
    app_end = new_blocks;
    crc = finish plan_units.0;
  }

  -- The units, then the header in the slot of its generation's parity.
  unfoldable pub plan_batch : Batch
  plan_batch =
      plan_units.1
      ++ (hdr_at (geo_of src) (gen % 2), header_slot src gen src.n_vectors plan_groups plan_delta)
        ∷ []

  unfoldable pub plan_incremental : Option ℕ → Option SyncPlan
  plan_incremental clear_target =
      if ltb max_ops (length (carried_slots live_blocks pending fresh))
      then none
      else some (record {
        batches = elim clear_target [
          | some used ↦ ((hdr_at (geo_of src) (gen % 2), wiped src gen used) ∷ []) ∷ plan_batch ∷ []
          | none ↦ plan_batch ∷ []
        ];
        new_cursor = record {
          gen = gen;
          n_synced = src.n_vectors;
          calib_gen = cursor.calib_gen;
          nonce = cursor.nonce;
        };
        carried = carried_slots live_blocks pending fresh;
      })

-- The writes of a batch, in order; then the next batch.
unfoldable pub apply_batch : List ℕ → Batch → List ℕ
apply_batch file [] = file
apply_batch file ((off, bytes) ∷ ops) = apply_batch (write_at file off bytes) ops

unfoldable pub apply_batches : List ℕ → List Batch → List ℕ
apply_batches file [] = file
apply_batches file (batch ∷ batches) = apply_batches (apply_batch file batch) batches

unfoldable pub run_sync : List ℕ → SyncPlan → List ℕ × SyncCursor
run_sync file plan = (apply_batches file plan.batches, plan.new_cursor)

-- `raw.get(from..from + size)`
abbrev pub get_range : List ℕ → ℕ → ℕ → Option (List ℕ)
get_range raw from size =
    if leb (from + size) (length raw) then some (slice raw from size) else none

unfoldable pub parse_header_slot : List ℕ → Geo → ℕ → ℕ → Option ParsedHdr
parse_header_slot raw geo slot file_len = elim (get_range raw (hdr_at geo slot) (hdr_len geo)) [
  | none ↦ none
  | some bytes ↦ parse_header_at bytes (hdr_at geo slot) geo slot file_len
]

-- `saturating_add` and `saturating_mul` of a 64-bit `usize`.
abbrev pub saturating : ℕ → ℕ
saturating v = min v (2 ^ 64 - 1)

-- The loop of `delta_verified`; the units are read from the image, and `none` is a unit that is not there.
unfoldable pub feed_units : List ℕ → Geo → DeltaDigest → List ℕ → Option DeltaDigest
feed_units raw geo d [] = some d
feed_units raw geo d (b ∷ units) = elim (get_range raw (unit_at geo b) (unit_len geo)) [
  | none ↦ none
  | some u ↦ feed_units raw geo (push (push d (to_le_bytes 4 b)) u) units
]

unfoldable pub delta_verified : List ℕ → Geo → ParsedHdr → Bool
delta_verified raw geo h =
    let app = range h.app_from (h.app_to - h.app_from) in
    let count = saturating (length h.delta_mat + length app) in
    let total = saturating (8 + saturating (count * (4 + unit_len geo))) in
    elim (feed_units raw geo (push (new total) (to_le_bytes 8 h.gen)) (h.delta_mat ++ app)) [
      | none ↦ false
      | some d ↦ finish d == h.delta_crc
    ]

-- The choice of `parse_image`: of the two headers, the newest whose delta verifies.
unfoldable pub verified : List ℕ → Geo → Option ParsedHdr → Option ParsedHdr
verified raw geo none = none
verified raw geo (some h) = if delta_verified raw geo h then some h else none

abbrev pub or_else : Option ParsedHdr → Option ParsedHdr → Option ParsedHdr
or_else (some h) o = some h
or_else none o = o

unfoldable pub newest_verified :
    List ℕ → Geo → Option ParsedHdr → Option ParsedHdr → Option ParsedHdr
newest_verified raw geo h0 h1 =
    let zero_first = or_else (verified raw geo h0) (verified raw geo h1) in
    let one_first = or_else (verified raw geo h1) (verified raw geo h0) in
    elim h0 [
      | none ↦ one_first
      | some a ↦ elim h1 [
        | none ↦ zero_first
        | some b ↦ if ltb a.gen b.gen then one_first else zero_first
      ]
    ]

unfoldable pub choose_header : List ℕ → Geo → Option ParsedHdr
choose_header raw geo =
    newest_verified raw geo (parse_header_slot raw geo 0 (length raw))
      (parse_header_slot raw geo 1 (length raw))
