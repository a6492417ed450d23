-- ===== src/IoV7/Full/Tests.antt =====
-- A whole image of thirty-three rows, and the theorems on images at it.
use turbovec.Common.{◌≡◌, refl, none, [], ◌∷◌, replicate, length, arith}
use turbovec.IoV7.Geo.{row_bytes, full_len}
use turbovec.IoV7.Header.{SyncSource, geo_of}
use turbovec.IoV7.Full.{write_image}
use turbovec.IoV7.Full.Laid.{IsImage, length-write_image}

abbrev source : SyncSource
source = record {
  kind = 0;
  dim = 8;
  bit_width = 2;
  n_vectors = 33;
  version = 8;
  layout = 0;
  unit_codes = λ from to. replicate 64 from;
  row_codes = λ r. r ∷ r ∷ [];
  scales = replicate 33 7;
  ids = none;
  tqplus_shift = [];
  tqplus_scale = [];
  boundaries = 1 ∷ 2 ∷ 3 ∷ [];
  centroids = 1 ∷ 2 ∷ 3 ∷ 4 ∷ [];
}

source-IsImage : IsImage source
unfolding geo_of row_bytes
source-IsImage = record {
  source = record { rows = λ s. refl; with_ids = refl; units = λ b. refl };
  codebook = record { boundaries = refl; centroids = refl; calibration = refl };
  n_fits = omega arith;
  image_fits = omega arith;
}

length-write_image_example : length (write_image source 0 7) ≡ full_len (geo_of source) 33
length-write_image_example = length-write_image source 7 source-IsImage
