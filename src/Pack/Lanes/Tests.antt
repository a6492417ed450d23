-- ===== src/Pack/Lanes/Tests.antt =====
-- One block of one byte group in the interleaved layout, and the theorems on lanes at it.
use turbovec.Common.{
  ℕ, zero, suc, ◌/◌, ◌%◌, ◌<◌, ◌≡◌, refl, ◌&&◌, List, replicate, ◌==◌, if◌then◌else◌, arith,
}
use turbovec.Pack.Lanes.{perm0, read_code, write_code, move_lane}
use turbovec.Pack.Lanes.Lens.{IsPlace}
use turbovec.Pack.Lanes.Moved.{IsBytes, IsBuffer, read_code-write_code, move_lane-read_code}

replicate-IsBytes : (n v : ℕ) → v < 256 → IsBytes (replicate n v)
replicate-IsBytes zero v h i = omega arith
replicate-IsBytes (suc n) v h zero = h
replicate-IsBytes (suc n) v h (suc i) = replicate-IsBytes n v h i

abbrev blocked : List ℕ
blocked = replicate 32 0x5a

blocked-IsBuffer : IsBuffer perm0 1 1 blocked
blocked-IsBuffer = record {
  sized = refl;
  fits = tt;
  bytes = replicate-IsBytes 32 0x5a (omega arith);
}

lane-IsPlace : (lane : ℕ) → lane < 32 → IsPlace 1 1 0 0 lane
lane-IsPlace lane h = record { group_lt = omega arith; lane_lt = h; block_lt = omega arith }

read_code-write_code_example :
    read_code perm0 (write_code perm0 blocked 1 0 0 19 0xc3) 1 0 0 3
    ≡ (if (0 == 0) && ((0 == 0) && (19 == 3)) then 0xc3 else read_code perm0 blocked 1 0 0 3)
read_code-write_code_example =
    read_code-write_code 1 1 blocked perm0 0 0 19 0xc3 0 0 3 blocked-IsBuffer
      (lane-IsPlace 19 (omega arith)) (lane-IsPlace 3 (omega arith)) (omega arith)

move_lane-read_code_example :
    read_code perm0 (move_lane perm0 blocked 1 3 20).0 1 (20 / 32) 0 (20 % 32)
    ≡ read_code perm0 blocked 1
        ((if 20 == 20 then 3 else 20) / 32)
        0
        ((if 20 == 20 then 3 else 20) % 32)
move_lane-read_code_example =
    move_lane-read_code perm0 1 1 3 20 (omega arith) (omega arith) blocked blocked-IsBuffer 20 0
      (omega arith) (omega arith)
