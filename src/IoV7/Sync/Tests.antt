-- ===== src/IoV7/Sync/Tests.antt =====
-- Two syncs of a small index, and the theorems on syncs at these.
use turbovec.Common.{
  ℕ, ◌+◌, ◌*◌, ◌^◌, ◌≤◌, ◌<◌, ◌≡◌, refl, true, false, none, some, List, [], ◌∷◌, length,
  length-replicate, replicate, map, mem, All, dedup, sort, arith,
}
use mathlib.Core.List.{flatten}
use turbovec.IoV7.Digest.{delta_digest}
use turbovec.IoV7.Geo.{row_bytes, hdr_len, unit_at, unit_len}
use turbovec.IoV7.Header.{SyncSource, geo_of, header_slot, ParsedHdr}
use turbovec.IoV7.Header.Legal.{IsSource, parsed}
use turbovec.IoV7.Sync.{
  SyncCursor, SyncPlan, unit_bytes, plan_incremental, plan_groups, plan_delta, plan_batch,
  plan_units, write_units, written, run_sync, materialize, carried_slots, range, parse_header_slot,
  get_range, delta_verified, choose_header,
}
use turbovec.IoV7.Header.{Delta}
use turbovec.IoV7.Sync.Chosen.{Covered}
use turbovec.IoV7.Sync.Grouped.{all_slots, Owned}
use turbovec.IoV7.Sync.Covered.{EndsWithHeader, plan_incremental-Covered}
use turbovec.IoV7.Sync.Commit.{IsPlannable, plan-hdr_len}
use turbovec.IoV7.Sync.Complete.{
  committed, run_sync-parse_header_slot, run_sync-delta_verified, run_sync-choose_header,
  final-unit, final-units, final-sized,
}
use turbovec.IoV7.Sync.Crash.{Newest, torn-unit, torn-choose_header}
use turbovec.IoV7.Sync.Writes.{IsWrite, plan_incremental-IsWrite}
use turbovec.IoV7.Sync.Torn.{Torn, untouched, tear}
use turbovec.IoV7.Image.{write_at, slice}
use turbovec.IoV7.Sync.Written.{plan_delta-delta_digest, length-unit_bytes}

-- Rows of 8 dims at 4 bits.
abbrev source : ℕ → SyncSource
source n = record {
  kind = 0;
  dim = 8;
  bit_width = 4;
  n_vectors = n;
  version = 8;
  layout = 0;
  unit_codes = λ from to. replicate 128 from;
  row_codes = λ r. r ∷ r ∷ r ∷ r ∷ [];
  scales = replicate 65 7;
  ids = none;
  tqplus_shift = [];
  tqplus_scale = [];
  boundaries = [];
  centroids = [];
}

source-IsSource : (n : ℕ) → IsSource (source n)
unfolding geo_of row_bytes
source-IsSource n = record { rows = λ s. refl; with_ids = refl; units = λ b. refl }

-- The first sync brings unit 0, the second unit 1 and a redo op for slot 3.
abbrev first_cursor : SyncCursor
first_cursor = record { gen = 0; n_synced = 0; calib_gen = 0; nonce = 9 }

abbrev second_cursor : SyncCursor
second_cursor = record { gen = 1; n_synced = 33; calib_gen = 0; nonce = 9 }

abbrev first_plan : SyncPlan
first_plan = record {
  batches = plan_batch (source 33) first_cursor [] [] ∷ [];
  new_cursor = second_cursor;
  carried = [];
}

abbrev second_plan : SyncPlan
second_plan = record {
  batches = plan_batch (source 65) second_cursor [] (3 ∷ []) ∷ [];
  new_cursor = record { gen = 2; n_synced = 65; calib_gen = 0; nonce = 9 };
  carried = 3 ∷ [];
}

first_made : plan_incremental (source 33) first_cursor [] [] none ≡ some first_plan
unfolding plan_incremental carried_slots dedup sort
first_made = refl

second_made : plan_incremental (source 65) second_cursor [] (3 ∷ []) none ≡ some second_plan
unfolding plan_incremental carried_slots dedup sort
second_made = refl

first-IsPlannable : IsPlannable (source 33) first_cursor [] []
unfolding geo_of row_bytes carried_slots dedup sort
first-IsPlannable = record {
  source = source-IsSource 33;
  gen_fits = omega arith;
  n_fits = omega arith;
  image_fits = omega arith;
  old_fits = omega arith;
  new_fits = omega arith;
  few_pending = omega arith;
  few_carried = omega arith;
}

second-IsPlannable : IsPlannable (source 65) second_cursor [] (3 ∷ [])
unfolding geo_of row_bytes carried_slots dedup sort
second-IsPlannable = record {
  source = source-IsSource 65;
  gen_fits = omega arith;
  n_fits = omega arith;
  image_fits = omega arith;
  old_fits = omega arith;
  new_fits = omega arith;
  few_pending = omega arith;
  few_carried = omega arith;
}

abbrev blank : List ℕ
blank = replicate 40_000 0

abbrev first_file : List ℕ
first_file = (run_sync blank first_plan).0

plan-hdr_len_example :
    length (
      header_slot
        (source 65)
        2
        65
        (plan_groups (source 65) second_cursor [] (3 ∷ []))
        (plan_delta (source 65) second_cursor [] (3 ∷ [])))
    ≤ hdr_len (geo_of (source 65))
plan-hdr_len_example = plan-hdr_len (source 65) second_cursor [] (3 ∷ []) second-IsPlannable

plan_incremental-IsWrite_example :
    All
      (IsWrite (geo_of (source 65)) (written (source 65) second_cursor [] (3 ∷ [])) 2)
      (flatten second_plan.batches)
plan_incremental-IsWrite_example =
    plan_incremental-IsWrite (source 65) second_cursor [] (3 ∷ []) second-IsPlannable none
      second_plan second_made

plan_delta-delta_digest_example :
    (plan_delta (source 65) second_cursor [] (3 ∷ [])).crc
    ≡ delta_digest 2
        (map (λ b. (b, unit_bytes (source 65) b)) (written (source 65) second_cursor [] (3 ∷ [])))
plan_delta-delta_digest_example =
    plan_delta-delta_digest (source 65) second_cursor [] (3 ∷ []) (source-IsSource 65)

plan_incremental-Covered_example :
    (groups : List (ℕ × List ℕ)) × (delta : Delta) × EndsWithHeader
      (source 65)
      2
      second_plan.batches
      groups
      delta
    × (second_plan.carried ≡ all_slots groups)
    × All Owned groups
    × ((s : ℕ) → s < 32 → Covered 1 [] (3 ∷ []) (all_slots groups) delta.mat s)
plan_incremental-Covered_example =
    plan_incremental-Covered (source 65) second_cursor [] (3 ∷ []) none second_plan second_made

blank_room : (n : ℕ) → n ≤ 40_000 → n ≤ length blank
blank_room n h = omega (arith, length-replicate {A = ℕ} 40_000 0)

first_whole : unit_at (geo_of (source 33)) 0 ≤ length blank
unfolding geo_of row_bytes
first_whole = blank_room (unit_at (geo_of (source 33)) 0) (omega arith)

first_fits : length blank < 2 ^ 64
first_fits = omega (arith, length-replicate {A = ℕ} 40_000 0)

first_digest_fits :
    8 + length (written (source 33) first_cursor [] []) * (4 + unit_len (geo_of (source 33)))
    < 2 ^ 64
unfolding geo_of row_bytes materialize dedup sort range
first_digest_fits = omega arith

abbrev first_committed : ParsedHdr
first_committed =
    committed (source 33) first_cursor [] [] first-IsPlannable none first_plan first_made blank
      first_whole first_fits first_digest_fits

first_parses :
    parse_header_slot first_file (geo_of (source 33)) 1 (length first_file) ≡ some first_committed
first_parses =
    run_sync-parse_header_slot (source 33) first_cursor [] [] first-IsPlannable none first_plan
      first_made blank first_whole first_fits first_digest_fits

first_verified : delta_verified first_file (geo_of (source 33)) first_committed ≡ true
first_verified =
    run_sync-delta_verified (source 33) first_cursor [] [] first-IsPlannable none first_plan
      first_made blank first_whole first_fits first_digest_fits

-- The second sync, torn ten bytes into its first write, and run to its end.
abbrev torn_file : List ℕ
torn_file =
    write_at first_file (unit_at (geo_of (source 65)) 1 + 0) (slice (unit_bytes (source 65) 1) 0 10)

torn_file-Torn : Torn (flatten second_plan.batches) first_file torn_file
unfolding flatten plan_batch plan_units write_units materialize dedup sort range
torn_file-Torn =
    tear first_file 0 (unit_at (geo_of (source 65)) 1) (unit_bytes (source 65) 1) 0 10 refl
      (omega (arith, length-unit_bytes (source 65) (source-IsSource 65) 1)) untouched

second_gone :
    (b : ℕ) → mem (0 ∷ []) b ≡ true → mem (written (source 65) second_cursor [] (3 ∷ [])) b ≡ false
unfolding materialize dedup sort range
second_gone b m = ground arith

torn-choose_header_example :
    Newest torn_file
      (geo_of (source 65))
      (parse_header_slot torn_file (geo_of (source 65)) 0 (length torn_file))
      (choose_header torn_file (geo_of (source 65)))
      first_committed
unfolding geo_of parsed plan_delta materialize dedup sort range
torn-choose_header_example =
    torn-choose_header (source 65) second_cursor [] (3 ∷ []) second-IsPlannable none second_plan
      second_made first_file torn_file torn_file-Torn first_committed first_parses first_verified
      second_gone

torn-unit_example :
    get_range torn_file (unit_at (geo_of (source 65)) 0) (unit_len (geo_of (source 65)))
    ≡ some (unit_bytes (source 33) 0)
unfolding geo_of materialize dedup sort range
torn-unit_example =
    torn-unit (source 65) second_cursor [] (3 ∷ []) second-IsPlannable none second_plan second_made
      first_file torn_file torn_file-Torn 0 (unit_bytes (source 33) 0) refl
      (final-unit (source 33) first_cursor [] [] first-IsPlannable none first_plan first_made blank
        first_whole 0 refl)

second_whole : unit_at (geo_of (source 65)) 1 ≤ length first_file
unfolding geo_of row_bytes
second_whole = omega (
  arith,
  final-units (source 33) first_cursor [] [] first-IsPlannable none first_plan first_made blank
      first_whole,
)

second_fits : length first_file < 2 ^ 64
second_fits =
    final-sized (source 33) first_cursor [] [] first-IsPlannable none first_plan first_made blank
      first_whole first_fits

second_digest_fits :
    8 + length (written (source 65) second_cursor [] (3 ∷ [])) * (4 + unit_len (geo_of (source 65)))
    < 2 ^ 64
unfolding geo_of row_bytes materialize dedup sort range
second_digest_fits = omega arith

run_sync-choose_header_example :
    choose_header (run_sync first_file second_plan).0 (geo_of (source 65))
    ≡ some (
        committed
          (source 65)
          second_cursor
          []
          (3 ∷ [])
          second-IsPlannable
          none
          second_plan
          second_made
          first_file
          second_whole
          second_fits
          second_digest_fits)
unfolding geo_of parsed
run_sync-choose_header_example =
    run_sync-choose_header (source 65) second_cursor [] (3 ∷ []) second-IsPlannable none second_plan
      second_made first_file second_whole second_fits second_digest_fits first_committed
      first_parses refl
