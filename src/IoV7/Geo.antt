-- ===== src/IoV7/Geo.antt =====
-- `Geo` of turbovec/src/io_v7.rs: every offset of a file follows from six numbers. The additions and
-- products are those of `usize`, which no legal geometry overflows.
use turbovec.Common.{ℕ, ◌+◌, ◌-◌, ◌*◌, ◌/◌, ◌^◌, ◌==◌, if◌then◌else◌}
use turbovec.Pack.Geometry.{block, blocked_geometry}

abbrev pub max_ops : ℕ
max_ops = 1024

abbrev pub layout_seq : ℕ
layout_seq = 0

abbrev pub layout_planes : ℕ
layout_planes = 1

pub record Geo : Type 0 where
  pub kind : ℕ
  pub dim : ℕ
  pub bit_width : ℕ
  pub n_calib : ℕ
  pub version : ℕ
  pub layout : ℕ

unfoldable pub v8 : ℕ → ℕ → ℕ → ℕ → ℕ → Geo
v8 kind dim bit_width n_calib layout = record {
  kind = kind;
  dim = dim;
  bit_width = bit_width;
  n_calib = n_calib;
  version = 8;
  layout = layout;
}

module _ (geo : Geo) where
  abbrev pub sb_fixed : ℕ
  sb_fixed = if geo.version == 8 then 24 else 23

  unfoldable pub row_bytes : ℕ
  unfolding blocked_geometry
  row_bytes = (blocked_geometry 1 geo.bit_width geo.dim).1

  abbrev pub n_levels : ℕ
  n_levels = 2 ^ geo.bit_width

  abbrev pub id_bytes : ℕ → ℕ
  id_bytes rows = if geo.kind == 1 then rows * 8 else 0

  abbrev pub sb_len : ℕ
  sb_len = sb_fixed + (n_levels - 1) * 4 + n_levels * 4 + 4 + geo.n_calib * 8 + 4

  abbrev pub op_size : ℕ
  op_size = 1 + row_bytes + 4 + id_bytes 1

  abbrev pub hdr_probe_len : ℕ
  hdr_probe_len = 16 + 31 * (row_bytes + 4 + id_bytes 1) + 4 + 4 + max_ops * 4 + 12 + 4

  abbrev pub hdr_len : ℕ
  hdr_len =
      16
      + 31 * (row_bytes + 4 + id_bytes 1)
      + 4
      + max_ops * (5 + op_size)
      + 4
      + max_ops * 4
      + 12
      + 4

  abbrev pub hdr_at : ℕ → ℕ
  hdr_at slot = sb_len + slot * hdr_len

  abbrev pub unit_len : ℕ
  unit_len = block * row_bytes + block * 4 + id_bytes block

  abbrev pub unit_at : ℕ → ℕ
  unit_at b = hdr_at 2 + b * unit_len

  abbrev pub full_len : ℕ → ℕ
  full_len n_vectors = unit_at (n_vectors / block)
