-- ===== src/IoV7/Digest.antt =====
-- `DeltaDigest` and `delta_digest` of turbovec/src/io_v7.rs: a digest over pieces that never stand side
-- by side. The accumulator reproduces the split points of `crc32` from the length it is told.
pub mod Thirds
pub mod Streaming
use turbovec.Common.{
  ℕ, zero, suc, ◌+◌, ◌-◌, ◌*◌, ◌/◌, ◌≤◌, ◌<◌, ◌≡◌, refl, sym, ap, ◌∙◌, Bool, true, false, Option,
  none, some, List, [], ◌∷◌, ◌++◌, ◌⊎◌, inl, inr, length, length-append, length-take, length-drop,
  take, drop, take-append-drop, take_all, drop_all, take-append_left, drop-append_left, ltb, leb,
  ◌==◌, if◌then◌else◌, to_le_bytes, length-to_le_bytes, Bool-cases, min, arith,
}
use mathlib.Core.List.{append-nil, append_assoc}
use turbovec.IoV7.Crc.{crc32c_update, crc32_one, crc32, complement, crc32c_update-append}

-- `parts` is three fields.
pub record DeltaDigest : Type 0 where
  pub at : ℕ
  pub split : Option (ℕ × ℕ)
  pub part0 : ℕ
  pub part1 : ℕ
  pub part2 : ℕ

unfoldable pub new : ℕ → DeltaDigest
new total =
    let third = total / 3 in
    record {
      at = 0;
      split = if leb 4096 total then some (third, third * 2) else none;
      part0 = 0xffff_ffff;
      part1 = 0xffff_ffff;
      part2 = 0xffff_ffff;
    }

-- One round of the loop of `push`: `n` bytes go to the third that `at` stands in.
unfoldable pub feed : DeltaDigest → ℕ → ℕ → List ℕ → DeltaDigest
feed d s1 s2 piece =
    if ltb d.at s1
    then record d { at = d.at + length piece; part0 = crc32c_update d.part0 piece }
    else if ltb d.at s2
    then record d { at = d.at + length piece; part1 = crc32c_update d.part1 piece }
    else record d { at = d.at + length piece; part2 = crc32c_update d.part2 piece }

-- The bytes that fit before the next split point; past the second there is no end.
unfoldable pub room : DeltaDigest → ℕ → ℕ → List ℕ → ℕ
room d s1 s2 data_ =
    if ltb d.at s1
    then min (length data_) (s1 - d.at)
    else if ltb d.at s2
    then min (length data_) (s2 - d.at)
    else length data_

-- Each round takes a byte at least, so `length data_` rounds are enough.
unfoldable pub push_loop : ℕ → DeltaDigest → ℕ → ℕ → List ℕ → DeltaDigest
push_loop fuel d s1 s2 [] = d
push_loop zero d s1 s2 (b ∷ data_) = d
push_loop (suc fuel) d s1 s2 (b ∷ data_) =
    let n = room d s1 s2 (b ∷ data_) in
    push_loop fuel (feed d s1 s2 (take n (b ∷ data_))) s1 s2 (drop n (b ∷ data_))

unfoldable pub push : DeltaDigest → List ℕ → DeltaDigest
push d data_ = elim d.split [
  | none ↦ record d { part0 = crc32c_update d.part0 data_; at = d.at + length data_ }
  | some (s1, s2) ↦ push_loop (length data_) d s1 s2 data_
]

unfoldable pub finish : DeltaDigest → ℕ
finish d = elim d.split [
  | none ↦ complement d.part0
  | some _ ↦ crc32_one (
      to_le_bytes 4 (complement d.part0)
      ++ to_le_bytes 4 (complement d.part1)
      ++ to_le_bytes 4 (complement d.part2))
]

unfoldable pub push_all : DeltaDigest → List (List ℕ) → DeltaDigest
push_all d [] = d
push_all d (c ∷ chunks) = push_all (push d c) chunks

-- The bytes of a generation and of the units that a sync wrote, each behind its block index.
unfoldable pub unit_chunks : List (ℕ × List ℕ) → List (List ℕ)
unit_chunks [] = []
unit_chunks ((b, body) ∷ units) = to_le_bytes 4 b ∷ body ∷ unit_chunks units

unfoldable pub units_len : ℕ → List (ℕ × List ℕ) → ℕ
units_len n [] = n
units_len n ((b, body) ∷ units) = units_len (n + (4 + length body)) units

unfoldable pub delta_digest : ℕ → List (ℕ × List ℕ) → ℕ
delta_digest gen units =
    finish (push_all (push (new (units_len 8 units)) (to_le_bytes 8 gen)) (unit_chunks units))
