-- ===== src/IoV7/Header/Legal.antt =====
-- What a source promises, and the commits that a header of turbovec/src/io_v7.rs can hold.
use turbovec.Common.{
  All, ℕ, zero, suc, ◌+◌, ◌*◌, ◌/◌, ◌%◌, ◌^◌, ◌≤◌, ◌<◌, ◌≡◌, refl, Bool, true, false, Option, none,
  some, List, ◌++◌, length, length-append, get_or, ◌==◌, if◌then◌else◌, to_le_bytes,
  length-to_le_bytes, arith,
}
use turbovec.Pack.Geometry.{block}
use turbovec.IoV7.Geo.{max_ops, row_bytes, id_bytes, op_size, unit_len, unit_at}
use turbovec.IoV7.Header.{
  SyncSource, geo_of, id_record, row_record, tail_records, Delta, header_slot, ParsedHdr,
}
use turbovec.IoV7.Header.Reading.{groups_at, IsGroup}

-- What the closures and slices of a source promise: rows of one length, blocks of 32 of
-- them, and ids exactly for kind 1.
abbrev pub has_ids : Option (List ℕ) → Bool
has_ids none = false
has_ids (some ids) = true

pub record IsSource (src : SyncSource) : Type 0 where
  pub rows : (s : ℕ) → length (src.row_codes s) ≡ row_bytes (geo_of src)
  pub with_ids : has_ids src.ids ≡ (src.kind == 1)
  pub units :
      (b : ℕ)
      → length (src.unit_codes (b * block) (b * block + block)) ≡ block * row_bytes (geo_of src)

length-id_record :
    (ids : Option (List ℕ)) (r : ℕ) → length (id_record ids r) ≡ (if has_ids ids then 8 else 0)
unfolding id_record
length-id_record none r = refl
length-id_record (some ids) r = length-to_le_bytes 8 _

pub length-row_record :
    (src : SyncSource) (s : ℕ)
    → IsSource src
    → suc (length (row_record src s)) ≡ op_size (geo_of src)
unfolding row_record geo_of
length-row_record src s v = ground (
  arith,
  v.rows s,
  v.with_ids,
  length-id_record src.ids s,
  length-append (src.row_codes s) (to_le_bytes 4 (get_or src.scales s 0) ++ id_record src.ids s),
  length-append (to_le_bytes 4 (get_or src.scales s 0)) (id_record src.ids s),
  length-to_le_bytes 4 (get_or src.scales s 0),
)

pub length-tail_records :
    (src : SyncSource) (k r : ℕ)
    → IsSource src
    → length (tail_records src r k) ≡ k * (row_bytes (geo_of src) + 4 + id_bytes (geo_of src) 1)
unfolding tail_records
length-tail_records src zero r v = omega arith
length-tail_records src (suc k) r v = omega (
  arith,
  length-append (row_record src r) (tail_records src (suc r) k),
  length-row_record src r v,
  length-tail_records src k (suc r) v,
)

-- What a commit may hold: its numbers fit their fields, its groups target whole blocks, and the file
-- has the units that it counts.
pub record IsCommit (src : SyncSource) (gen n : ℕ) (ops : List (ℕ × List ℕ)) (delta : Delta)
    (file_len : ℕ) : Type 0 where
  pub gen_fits : gen < 2 ^ 64
  pub n_fits : n < 2 ^ 64
  pub few_ops : length ops ≤ max_ops
  pub groups_legal : All (IsGroup n) ops
  pub few_mat : length delta.mat ≤ max_ops
  pub mat_fits : All (λ b. b < 2 ^ 32) delta.mat
  pub start_fits : delta.app_start < 2 ^ 32
  pub end_fits : delta.app_end < 2 ^ 32
  pub crc_fits : delta.crc < 2 ^ 32
  pub units_there : n / block * unit_len (geo_of src) + unit_at (geo_of src) 0 ≤ file_len
  pub file_fits : file_len < 2 ^ 64

-- The header as the parser finds it.
unfoldable pub parsed : SyncSource → ℕ → ℕ → ℕ → List (ℕ × List ℕ) → Delta → ParsedHdr
parsed src at gen n ops delta =
    let geo = geo_of src in
    let p = 16 + n % block * (row_bytes geo + 4 + id_bytes geo 1) in
    record {
      gen = gen;
      n = n;
      tail_at = at + 16;
      groups = groups_at at (op_size geo) (p + 4) ops;
      delta_mat = delta.mat;
      app_from = delta.app_start;
      app_to = delta.app_end;
      delta_crc = delta.crc;
      used = length (header_slot src gen n ops delta);
    }
