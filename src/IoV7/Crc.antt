-- ===== src/IoV7/Crc.antt =====
-- The checksums of turbovec/src/io_v7.rs: CRC-32C by the table (`crc32c_upd_soft`), and `crc32`, which
-- splits a long input into thirds. The hardware forms are not modelled; they fold the same bytes.
use Prim.Native.Nat.{bit_xor}
use turbovec.Common.{
  ◌<◌, ◌^◌, arith, ℕ, zero, suc, ◌-◌, ◌/◌, ◌%◌, ◌≡◌, refl, List, [], ◌∷◌, ◌++◌, length, take, drop,
  ltb, ◌==◌, if◌then◌else◌, to_le_bytes,
}

-- Eight rounds of `c = (c >> 1) ^ (0x82F6_3B78 & mask)`, where the mask is the low bit spread out.
unfoldable pub table_round : ℕ → ℕ → ℕ
table_round zero c = c
table_round (suc n) c = table_round n (if c % 2 == 1 then bit_xor (c / 2) 0x82f6_3b78 else c / 2)

unfoldable pub crc_byte : ℕ → ℕ → ℕ
unfolding table_round
crc_byte crc b = bit_xor (crc / 256) (table_round 8 (bit_xor (crc % 256) b))

unfoldable pub crc32c_update : ℕ → List ℕ → ℕ
crc32c_update crc [] = crc
crc32c_update crc (b ∷ data_) = crc32c_update (crc_byte crc b) data_

-- `!x` on a `u32`
abbrev pub complement : ℕ → ℕ
complement x = 0xffff_ffff - x

unfoldable pub crc32_one : List ℕ → ℕ
crc32_one data_ = complement (crc32c_update 0xffff_ffff data_)

unfoldable pub crc32 : List ℕ → ℕ
crc32 data_ =
    if ltb (length data_) 4096
    then crc32_one data_
    else (let third = length data_ / 3 in
        let rest = drop third data_ in
        crc32_one (
          to_le_bytes 4 (crc32_one (take third data_))
          ++ to_le_bytes 4 (crc32_one (take third rest))
          ++ to_le_bytes 4 (crc32_one (drop third rest))))

pub crc32c_update-append :
    (xs ys : List ℕ) (crc : ℕ)
    → crc32c_update crc (xs ++ ys) ≡ crc32c_update (crc32c_update crc xs) ys
unfolding crc32c_update
crc32c_update-append [] ys crc = refl
crc32c_update-append (x ∷ xs) ys crc = crc32c_update-append xs ys (crc_byte crc x)

pub crc32-lt : (data_ : List ℕ) → crc32 data_ < 2 ^ 32
unfolding crc32 crc32_one
crc32-lt data_ = ground arith
