-- ===== src/IoV7/Load.antt =====
-- `parse_image` of turbovec/src/io_v7.rs: the superblock, the choice of the header, and the copies made of
-- it; `none` stands for each of its errors. Two functions are parameters: `codebook` of
-- turbovec/src/codebook.rs, whose tables are bit patterns here, and `validate_calibration` of
-- turbovec/src/io.rs, which compares floats.
pub mod Head
pub mod Fields
pub mod Loaded
mod Tests
use turbovec.Common.{
  ℕ, ◌+◌, ◌-◌, ◌*◌, ◌/◌, ◌%◌, ◌^◌, Bool, true, false, not, ◌&&◌, ◌||◌, Option, none, some, List, [],
  ◌∷◌, ◌++◌, length, take, ltb, leb, ◌==◌, if◌then◌else◌,
}
use turbovec.IoV7.Crc.{crc32}
use turbovec.IoV7.Geo.{Geo, max_ops, layout_seq, layout_planes, row_bytes}
use turbovec.IoV7.Header.{ParsedHdr, read, parse_words, guard, ◌>>=◌, ◌>>◌}
use turbovec.IoV7.Sync.{choose_header}
use turbovec.IoV7.Full.{v7_magic, v8_magic, v7_version, v8_version}
use turbovec.IoV7.Gather.{OwnedGroup, gather}
use turbovec.Index.{max_dim}

-- `==` of byte slices.
abbrev pub same_bytes : List ℕ → List ℕ → Bool
same_bytes [] [] = true
same_bytes [] (y ∷ ys) = false
same_bytes (x ∷ xs) [] = false
same_bytes (x ∷ xs) (y ∷ ys) = (x == y) && same_bytes xs ys

-- The format of a file by its magic.
abbrev pub version_of : List ℕ → Option ℕ
version_of magic =
    if same_bytes magic v8_magic then some 8 else if same_bytes magic v7_magic then some 7 else none

abbrev pub planes_geom_ok : ℕ → ℕ → Bool
planes_geom_ok bits n_byte_groups =
    if bits == 2
    then n_byte_groups % 8 == 0
    else if bits == 4
    then n_byte_groups % 16 == 0
    else false

-- The version, the bit width, the kind and the layout, which stand before the dimension.
unfoldable pub parse_head : List ℕ → ℕ → Option (ℕ × ℕ × ℕ × ℕ)
parse_head raw expect_kind = do
  guard (leb 11 (length raw))
  version ← version_of (take 4 raw)
  revision ← read raw 1 4
  guard (revision == (if version == 8 then v8_version else v7_version))
  bit_width ← read raw 1 5
  guard (leb 2 bit_width && leb bit_width 4)
  kind ← read raw 1 6
  guard (kind == expect_kind)
  layout ← if version == 8 then read raw 1 7 else some layout_seq
  guard ((layout == layout_seq) || (layout == layout_planes))
  guard (not ((layout == layout_planes) && (bit_width == 3)))
  some (version, bit_width, kind, layout)

-- The loop that compares the embedded codebook with the canonical one; it returns the position behind.
unfoldable pub match_words : List ℕ → ℕ → List ℕ → Option ℕ
match_words raw off [] = some off
match_words raw off (want ∷ rest) = do
  got ← read raw 4 off
  guard (got == want)
  match_words raw (off + 4) rest

pub record Superblock : Type 0 where
  pub geo : Geo
  pub nonce : ℕ
  pub tqplus_shift : List ℕ
  pub tqplus_scale : List ℕ

pub record ParsedImage : Type 0 where
  pub superblock : Superblock
  pub chosen : ParsedHdr
  pub tail : List ℕ
  pub ops : List OwnedGroup

module _ (codebook : ℕ → ℕ → List ℕ × List ℕ) (calibration_ok : List ℕ → List ℕ → Bool) where
  -- The position behind the codebook; that of an index without a dimension is passed over.
  unfoldable pub check_codebook : List ℕ → ℕ → ℕ → ℕ → Option ℕ
  check_codebook raw bit_width dim off =
      let tables = codebook bit_width dim in
      if dim == 0
      then some (off + (2 * 2 ^ bit_width - 1) * 4)
      else match_words raw off (tables.0 ++ tables.1)

  unfoldable pub parse_superblock : List ℕ → ℕ → Option Superblock
  parse_superblock raw expect_kind = do
    (version, bit_width, kind, layout) ← parse_head raw expect_kind
    let sb_fixed = if version == 8 then 24 else 23
    dim ← read raw 4 (sb_fixed - 16)
    guard ((dim == 0) || ((dim % 8 == 0) && leb dim max_dim))
    guard (leb (max_ops * (dim * bit_width / 8)) (length raw))
    nonce ← read raw 8 (sb_fixed - 12)
    file_max_ops ← read raw 4 (sb_fixed - 4)
    guard (file_max_ops == max_ops)
    off ← check_codebook raw bit_width dim sb_fixed
    n_calib ← read raw 4 off
    guard ((n_calib == 0) || (n_calib == dim))
    (shift, p1) ← parse_words n_calib raw (off + 4)
    (scale, p2) ← parse_words n_calib raw p1
    guard (calibration_ok shift scale)
    stored ← read raw 4 p2
    guard (crc32 (take p2 raw) == stored)
    let geo : Geo = record {
      kind = kind;
      dim = dim;
      bit_width = bit_width;
      n_calib = n_calib;
      version = version;
      layout = layout;
    }
    guard (
        not (
          (layout == layout_planes)
          && (not (dim == 0) && not (planes_geom_ok bit_width (row_bytes geo)))))
    some (record { geo = geo; nonce = nonce; tqplus_shift = shift; tqplus_scale = scale })

  unfoldable pub parse_image : List ℕ → ℕ → Option ParsedImage
  parse_image raw expect_kind = do
    sb ← parse_superblock raw expect_kind
    chosen ← choose_header raw sb.geo
    guard (not ((sb.geo.dim == 0) && not (chosen.n == 0)))
    (tail, ops) ← gather raw sb.geo chosen
    some (record { superblock = sb; chosen = chosen; tail = tail; ops = ops })
