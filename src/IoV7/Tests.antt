-- ===== src/IoV7/Tests.antt =====
-- Runs of the file format, and its theorems at concrete inputs.
use turbovec.Common.{ℕ, ◌≡◌, refl, none, List, [], ◌∷◌, ◌++◌, replicate, to_le_bytes}
use mathlib.Core.List.{flatten}
use turbovec.IoV7.Crc.{crc32, crc32_one, crc32c_update, crc_byte}
use turbovec.IoV7.Digest.{new, push_all, finish, delta_digest, unit_chunks}
use turbovec.IoV7.Digest.Streaming.{finish-crc32, delta_digest-crc32}
use turbovec.IoV7.Header.{SyncSource, Delta}

-- The check value of CRC-32C: the digest of the text "123456789".
crc32_check :
    crc32 (0x31 ∷ 0x32 ∷ 0x33 ∷ 0x34 ∷ 0x35 ∷ 0x36 ∷ 0x37 ∷ 0x38 ∷ 0x39 ∷ []) ≡ 0xe306_9283
unfolding crc32 crc32_one crc32c_update crc_byte
crc32_check = refl

abbrev pieces : List (List ℕ)
pieces = (1 ∷ 2 ∷ []) ∷ [] ∷ (3 ∷ []) ∷ []

finish-crc32_example : finish (push_all (new 3) pieces) ≡ crc32 (1 ∷ 2 ∷ 3 ∷ [])
unfolding flatten
finish-crc32_example = finish-crc32 3 pieces refl

delta_digest-crc32_example :
    delta_digest 5 ((2, 9 ∷ 8 ∷ []) ∷ [])
    ≡ crc32 (to_le_bytes 8 5 ++ flatten (unit_chunks ((2, 9 ∷ 8 ∷ []) ∷ [])))
delta_digest-crc32_example = delta_digest-crc32 5 ((2, 9 ∷ 8 ∷ []) ∷ [])

-- Thirty-three rows of 8 dims at 4 bits: one whole block, and a tail of one row.
abbrev source : SyncSource
source = record {
  kind = 0;
  dim = 8;
  bit_width = 4;
  n_vectors = 33;
  version = 8;
  layout = 0;
  unit_codes = λ from to. replicate 128 from;
  row_codes = λ r. r ∷ r ∷ r ∷ r ∷ [];
  scales = replicate 33 7;
  ids = none;
  tqplus_shift = [];
  tqplus_scale = [];
  boundaries = [];
  centroids = [];
}

abbrev ops : List (ℕ × List ℕ)
ops = (0, 3 ∷ 5 ∷ []) ∷ []

abbrev delta : Delta
delta = record { mat = 0 ∷ []; app_start = 1; app_end = 1; crc = 0x1234 }
