-- ===== src/IoV7/Gather/Copied.antt =====
-- What a load copies out of a header is what `header_slot` of turbovec/src/io_v7.rs wrote there.
use turbovec.Common.{ℕ, List, [], ◌∷◌}
use turbovec.IoV7.Header.{SyncSource, geo_of, row_record}
use turbovec.IoV7.Header.Legal.{IsSource}
use turbovec.IoV7.Gather.{tail_row, OwnedGroup}

-- Each slot of the groups with the row of the source.
unfoldable pub row_ops : SyncSource → List ℕ → List (ℕ × List ℕ)
row_ops src [] = []
row_ops src (s ∷ slots) = (s, row_record src s) ∷ row_ops src slots

unfoldable pub row_groups : SyncSource → List (ℕ × List ℕ) → List OwnedGroup
row_groups src [] = []
row_groups src ((b, slots) ∷ ops) = (b, row_ops src slots) ∷ row_groups src ops

module _ (src : SyncSource) (v : IsSource src) where
  abbrev row_size : ℕ
  row_size = tail_row (geo_of src)
