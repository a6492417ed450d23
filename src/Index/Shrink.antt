-- ===== src/Index/Shrink.antt =====
-- `swap_remove` of turbovec/src/lib.rs, on x86_64, with `mark_dirty`; and `capture_lookup` with the
-- read of a row that a sync makes through it.
pub mod Closed
pub mod Captured
pub mod Moved
pub mod Kept
pub mod Live
use turbovec.Common.{
  ℕ, zero, suc, ◌+◌, ◌-◌, ◌*◌, ◌/◌, ◌≡◌, Bool, true, false, ◌&&◌, ◌||◌, not, Option, none, some,
  List, [], ◌∷◌, ◌++◌, length, get_elem?, set, take, leb, ltb, ◌==◌, if◌then◌else◌, mem,
}
use turbovec.Error.{AddError, Outcome, ok, err, panic}
use turbovec.IoV7.Geo.{max_ops}
use turbovec.Pack.Geometry.{block}
use turbovec.Index.Cache.{BlockedCache, blocks_for, copy_within}
use turbovec.Index.{TurboQuantIndex, is_some, is_none, packed, sync_watermark}

-- Insertion into a set of slots.
abbrev pub insert : List ℕ → ℕ → List ℕ
insert slots s = if mem slots s then slots else slots ++ s ∷ []

abbrev pub find_capture : List (ℕ × ℕ) → ℕ → Option ℕ
find_capture [] idx = none
find_capture ((s, off) ∷ rest) idx =
    let found = find_capture rest idx in if s == idx then some off else found

abbrev pub retire : List (ℕ × ℕ) → ℕ → ℕ → List (ℕ × ℕ)
retire [] idx last = []
retire ((s, off) ∷ rest) idx last =
    let kept = retire rest idx last in if (s == idx) || (s == last) then kept else (s, off) ∷ kept

-- The arena numbers slots with 32 bits.
abbrev pub slot_limit : ℕ
slot_limit = 4294967296

-- `move_lane` also writes the lane it moves into the arena.
abbrev pub write_capture {ℓ} : {Row : Type ℓ} → List Row → Option ℕ → Option Row → List Row
write_capture buf none row = buf
write_capture buf (some off) none = buf
write_capture buf (some off) (some row) =
    if off == length buf then buf ++ row ∷ [] else set buf off row

abbrev pub record_capture : List (ℕ × ℕ) → Option ℕ → ℕ → List (ℕ × ℕ)
record_capture captures none idx = captures
record_capture captures (some off) idx =
    if ltb idx slot_limit then captures ++ (idx, off) ∷ [] else captures

-- The last element over the hole, then the end cut off.
abbrev pub close_hole {ℓ} : {A : Type ℓ} → List A → ℕ → ℕ → List A
close_hole xs idx last = take last (if idx == last then xs else copy_within xs last idx)

abbrev pub move_last : {Row : Type 0} → BlockedCache Row → Row → ℕ → ℕ → BlockedCache Row
move_last cache zero_row idx last =
    let moved = if idx == last then cache.lanes else copy_within cache.lanes last idx in
    record {
      lanes = take (blocks_for last * block) (set moved last zero_row);
      n_blocks = blocks_for last;
    }

abbrev pub close_rows {ℓ} : {A : Type ℓ} → Option (List A) → ℕ → ℕ → Option (List A)
close_rows none idx last = none
close_rows (some rows) idx last = some (close_hole rows idx last)

abbrev pub close_cache :
    {Row : Type 0} → Option (BlockedCache Row) → Row → ℕ → ℕ → Option (BlockedCache Row)
close_cache none zero_row idx last = none
close_cache (some cache) zero_row idx last = some (move_last cache zero_row idx last)

abbrev pub capture_lane :
    {Row : Type 0} → List Row → Option ℕ → Option (BlockedCache Row) → ℕ → List Row
capture_lane buf at none last = buf
capture_lane buf at (some cache) last = write_capture buf at (get_elem? cache.lanes last)

-- The last entry of a slot wins.
abbrev pub last_capture : List (ℕ × ℕ) → ℕ → Option ℕ
last_capture [] slot = none
last_capture ((s, off) ∷ rest) slot = elim (last_capture rest slot) [
  | some later ↦ some later
  | none ↦ if s == slot then some off else none
]

-- The row a sync writes for a slot.
abbrev pub read_row {ℓ} : {Row : Type ℓ} → List Row → List Row → ℕ → Option ℕ → Option Row
read_row buf rows slot none = get_elem? rows slot
read_row buf rows slot (some off) = get_elem? buf off

module _ {F Row : Type 0} where
  abbrev pub mark_dirty : TurboQuantIndex F Row → ℕ → List ℕ → List ℕ
  mark_dirty t slot fresh = if ltb slot (sync_watermark t) then insert fresh slot else fresh

  -- The removal diverges the hole and the row that moves into it.
  abbrev pub marked : TurboQuantIndex F Row → ℕ → ℕ → List ℕ
  marked t idx last =
      let fresh = mark_dirty t idx t.sync_fresh in
      if is_some t.sync_cursor
      then (if last == idx then fresh else mark_dirty t last fresh)
      else t.sync_fresh

  -- Where the moved row is kept for the next sync: in place of the slot's old entry, or behind all.
  abbrev pub capture_at : TurboQuantIndex F Row → ℕ → Option ℕ
  capture_at t idx =
      if is_some t.sync_cursor && ltb idx (sync_watermark t) && is_none t.packed_codes
      then elim (find_capture t.captures idx) [
        | some off ↦ some off
        | none ↦ if ltb (length t.capture_buf) max_ops then some (length t.capture_buf) else none
      ]
      else none

  abbrev pub removed : Row → TurboQuantIndex F Row → ℕ → TurboQuantIndex F Row
  removed zero_row t idx =
      let last = t.n_vectors - 1 in
      let at = capture_at t idx in
      let kept = retire t.captures idx last in
      record t {
        sync_fresh = marked t idx last;
        packed_codes = close_rows t.packed_codes idx last;
        scales = close_hole t.scales idx last;
        n_vectors = last;
        blocked = close_cache t.blocked zero_row idx last;
        capture_buf =
            if idx == last then t.capture_buf else capture_lane t.capture_buf at t.blocked last;
        captures = if idx == last then kept else record_capture kept at idx;
      }

  unfoldable pub swap_remove :
      Row → TurboQuantIndex F Row → ℕ → TurboQuantIndex F Row × Outcome (AddError F) ℕ
  swap_remove zero_row t idx =
      if is_some t.mapped
      then (t, panic)
      else if not (ltb idx t.n_vectors)
      then (t, panic)
      else elim t.dim [
        | none ↦ (t, panic)
        | some dim ↦ (removed zero_row t idx, ok (t.n_vectors - 1))
      ]

  -- With the packed rows live the captures are not read.
  abbrev pub capture_lookup : TurboQuantIndex F Row → ℕ → Option ℕ
  capture_lookup t slot = if is_some t.packed_codes then none else last_capture t.captures slot

  unfoldable pub row_codes : TurboQuantIndex F Row → ℕ → Option Row
  row_codes t slot = read_row t.capture_buf (packed t) slot (capture_lookup t slot)
