-- ===== src/IoV7/Full.antt =====
-- The whole image of an index in turbovec/src/io_v7.rs: `superblock` and `write_image`. Floats are their
-- 32-bit patterns.
pub mod Pieces
pub mod Laid
mod Tests
use turbovec.Common.{
  ℕ, zero, suc, ◌+◌, ◌-◌, ◌/◌, List, [], ◌∷◌, ◌++◌, length, replicate, ltb, ◌==◌, if◌then◌else◌,
  to_le_bytes, min,
}
use turbovec.Pack.Geometry.{block}
use turbovec.IoV7.Crc.{crc32}
use turbovec.IoV7.Digest.{delta_digest}
use turbovec.IoV7.Geo.{max_ops, hdr_len, full_len}
use turbovec.IoV7.Header.{SyncSource, geo_of, words, Delta, header_slot}
use turbovec.IoV7.Sync.{unit_bytes, range}

-- `V8_MAGIC` and `V7_MAGIC`: "TV8" and "TV7", each with a zero byte.
abbrev pub v8_magic : List ℕ
v8_magic = 0x54 ∷ 0x56 ∷ 0x38 ∷ 0 ∷ []

abbrev pub v7_magic : List ℕ
v7_magic = 0x54 ∷ 0x56 ∷ 0x37 ∷ 0 ∷ []

abbrev pub v8_version : ℕ
v8_version = 1

abbrev pub v7_version : ℕ
v7_version = 2

-- Magic, version, bit width, kind, and the layout in version 8.
unfoldable pub sb_head : SyncSource → List ℕ
sb_head src =
    if src.version == 8
    then v8_magic ++ (v8_version ∷ src.bit_width ∷ src.kind ∷ src.layout ∷ [])
    else v7_magic ++ (v7_version ∷ src.bit_width ∷ src.kind ∷ [])

unfoldable pub superblock_body : SyncSource → ℕ → List ℕ
superblock_body src nonce =
    sb_head src
    ++ (to_le_bytes 4 src.dim
        ++ (to_le_bytes 8 nonce
            ++ (to_le_bytes 4 max_ops
                ++ (words src.boundaries
                    ++ (words src.centroids
                        ++ (to_le_bytes 4 (length src.tqplus_shift)
                            ++ (words src.tqplus_shift ++ words src.tqplus_scale)))))))

unfoldable pub superblock : SyncSource → ℕ → List ℕ
superblock src nonce = let sb = superblock_body src nonce in sb ++ to_le_bytes 4 (crc32 sb)

unfoldable pub units_of : SyncSource → List ℕ → List ℕ
units_of src [] = []
units_of src (b ∷ bs) = unit_bytes src b ++ units_of src bs

-- Units are written 256 at a time, in order; each round writes one at least, so there are no more rounds
-- than blocks.
abbrev pub units_per_batch : ℕ
units_per_batch = 256

unfoldable pub write_blocks : ℕ → SyncSource → ℕ → ℕ → List ℕ
write_blocks zero src b0 n_blocks = []
write_blocks (suc fuel) src b0 n_blocks =
    let b1 = min (b0 + units_per_batch) n_blocks in
    let rest = write_blocks fuel src (b0 + units_per_batch) n_blocks in
    if ltb b0 n_blocks then units_of src (range b0 (b1 - b0)) ++ rest else []

abbrev pub no_delta : ℕ → Delta
no_delta gen = record { mat = []; app_start = 0; app_end = 0; crc = delta_digest gen [] }

unfoldable pub write_image : SyncSource → ℕ → ℕ → List ℕ
write_image src gen nonce =
    let geo = geo_of src in
    let n_blocks = src.n_vectors / block in
    let h = header_slot src gen src.n_vectors [] (no_delta gen) in
    superblock src nonce
    ++ (h
        ++ (replicate (hdr_len geo - length h) 0
            ++ (replicate (hdr_len geo) 0 ++ write_blocks n_blocks src 0 n_blocks)))

abbrev pub unclaimed_nonce : ℕ
unclaimed_nonce = 0

abbrev pub image_bytes : SyncSource → List ℕ
image_bytes src = write_image src 0 unclaimed_nonce

abbrev pub image_len : SyncSource → ℕ
image_len src = full_len (geo_of src) src.n_vectors
