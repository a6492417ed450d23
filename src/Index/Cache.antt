-- ===== src/Index/Cache.antt =====
-- `BlockedCache` of turbovec/src/lib.rs in the classic layout, and what turbovec/src/pack.rs does to
-- its lanes: a lane holds the code bytes of one row, and the blocks are `block` lanes each.
pub mod Rebuilt
use turbovec.Common.{
  ℕ, zero, suc, ◌+◌, ◌-◌, ◌*◌, ◌/◌, Option, none, some, List, [], ◌∷◌, ◌++◌, length, get_elem?, set,
  take, drop, replicate,
}
use turbovec.Pack.Geometry.{block}

pub record BlockedCache (Row : Type 0) : Type 0 where
  pub lanes : List Row
  pub n_blocks : ℕ

abbrev pub blocks_for : ℕ → ℕ
blocks_for n = (n + block - 1) / block

-- `Vec::resize`.
abbrev pub resize {ℓ} : {A : Type ℓ} → A → ℕ → List A → List A
resize a n xs = take n xs ++ replicate (n - length xs) a

-- A copy within a vector.
abbrev pub copy_within {ℓ} : {A : Type ℓ} → List A → ℕ → ℕ → List A
copy_within xs src dst = elim (get_elem? xs src) [ none ↦ xs | some x ↦ set xs dst x ]

-- Writes one after the other from `v` on.
abbrev pub write_rows {ℓ} : {A : Type ℓ} → List A → ℕ → List A → List A
write_rows lanes v [] = lanes
write_rows lanes v (row ∷ rows) = write_rows (set lanes v row) (suc v) rows

module _ {Row : Type 0} (zero_row : Row) where
  -- The lanes of the blocks from `first` to `last` for the rows of `packed`, zero behind them.
  abbrev pub repack_block_range : List Row → ℕ → ℕ → ℕ → List Row
  repack_block_range packed n first last =
      resize zero_row ((last - first) * block) (drop (first * block) (take n packed))

  abbrev pub build : List Row → ℕ → BlockedCache Row
  build packed n = record {
    lanes = repack_block_range packed n 0 (blocks_for n);
    n_blocks = blocks_for n;
  }

  abbrev pub append_lanes : List Row → ℕ → List Row → List Row
  append_lanes lanes old_n rows =
      write_rows (resize zero_row (blocks_for (old_n + length rows) * block) lanes) old_n rows
