-- ===== src/IoV7/Gather.antt =====
-- The copies that `parse_image` of turbovec/src/io_v7.rs makes of the tail rows and the redo payloads of
-- the header it has chosen.
pub mod Copied
use turbovec.Common.{ℕ, ◌+◌, ◌*◌, ◌%◌, Option, none, some, List, [], ◌∷◌}
use turbovec.Pack.Geometry.{block}
use turbovec.IoV7.Geo.{Geo, row_bytes, id_bytes}
use turbovec.IoV7.Header.{OpGroup, ParsedHdr, ◌>>=◌}
use turbovec.IoV7.Sync.{get_range}

-- `tail_row`, and the `op_size` of `parse_image`, which has no lane byte.
abbrev pub tail_row : Geo → ℕ
tail_row geo = row_bytes geo + 4 + id_bytes geo 1

-- The inner loop: each slot with its payload; `none` is "truncated pending op".
unfoldable pub copy_ops : List ℕ → ℕ → List (ℕ × ℕ) → Option (List (ℕ × List ℕ))
copy_ops raw op_size [] = some []
copy_ops raw op_size ((slot, payload_at) ∷ ops) = do
  payload ← get_range raw payload_at op_size
  owned ← copy_ops raw op_size ops
  some ((slot, payload) ∷ owned)

abbrev pub OwnedGroup : Type 0
OwnedGroup = ℕ × List (ℕ × List ℕ)

unfoldable pub copy_groups : List ℕ → ℕ → List OpGroup → Option (List OwnedGroup)
copy_groups raw op_size [] = some []
copy_groups raw op_size ((b, ops) ∷ groups) = do
  owned ← copy_ops raw op_size ops
  rest ← copy_groups raw op_size groups
  some ((b, owned) ∷ rest)

-- `tail` and `ops` of a `ParsedImage`.
unfoldable pub gather : List ℕ → Geo → ParsedHdr → Option (List ℕ × List OwnedGroup)
gather raw geo chosen = do
  tail_copy ← get_range raw chosen.tail_at (chosen.n % block * tail_row geo)
  ops_owned ← copy_groups raw (tail_row geo) chosen.groups
  some (tail_copy, ops_owned)
