-- ===== src/IoV7/Load/Tests.antt =====
-- A load of the whole image of thirty-three rows.
use turbovec.Common.{ℕ, Bool, true, none, List, [], ◌∷◌, replicate}
use turbovec.IoV7.Header.{SyncSource}

abbrev source : SyncSource
source = record {
  kind = 0;
  dim = 8;
  bit_width = 2;
  n_vectors = 33;
  version = 8;
  layout = 0;
  unit_codes = λ from to. replicate 64 from;
  row_codes = λ r. r ∷ r ∷ [];
  scales = replicate 33 7;
  ids = none;
  tqplus_shift = [];
  tqplus_scale = [];
  boundaries = 1 ∷ 2 ∷ 3 ∷ [];
  centroids = 1 ∷ 2 ∷ 3 ∷ 4 ∷ [];
}

abbrev codebook : ℕ → ℕ → List ℕ × List ℕ
codebook bits dim = (1 ∷ 2 ∷ 3 ∷ [], 1 ∷ 2 ∷ 3 ∷ 4 ∷ [])

abbrev calibration_ok : List ℕ → List ℕ → Bool
calibration_ok shift scale = true
