-- ===== src/IoV7/Full/Pieces.antt =====
-- The pieces of a whole image (turbovec/src/io_v7.rs): the superblock, the zeros, the batches of units.
use turbovec.Common.{
  ℕ, zero, suc, ◌+◌, ◌-◌, ◌*◌, ◌≤◌, ◌<◌, ◌≡◌, refl, sym, ap, true, none, some, List, [], ◌∷◌, ◌++◌,
  inl, inr, length, length-append, length-replicate, replicate, take-append_exact, leb, ltb, ◌==◌,
  Bool-cases, le→leb, to_le_bytes, length-to_le_bytes, from_le_bytes, min, arith,
}
use mathlib.Core.List.{append-nil, append_assoc}
use turbovec.IoV7.Crc.{crc32}
use turbovec.IoV7.Geo.{Geo, max_ops, n_levels, sb_len, unit_len}
use turbovec.IoV7.Header.{SyncSource, geo_of, words, parse_header_at, read}
use turbovec.IoV7.Header.Reading.{At, At-skip, length-words}
use turbovec.IoV7.Header.Legal.{IsSource}
use turbovec.IoV7.Sync.{unit_bytes, range, get_range}
use turbovec.IoV7.Sync.Written.{length-unit_bytes}
use turbovec.IoV7.Full.{
  sb_head, superblock_body, superblock, units_of, write_blocks, units_per_batch,
}

-- What the tables of a source promise: the codebook's sizes, and a scale for each shift.
pub record IsCodebook (src : SyncSource) : Type 0 where
  pub boundaries : length src.boundaries ≡ n_levels (geo_of src) - 1
  pub centroids : length src.centroids ≡ n_levels (geo_of src)
  pub calibration : length src.tqplus_scale ≡ length src.tqplus_shift

length-superblock_body :
    (src : SyncSource) (nonce : ℕ)
    → IsCodebook src
    → length (superblock_body src nonce) + 4 ≡ sb_len (geo_of src)
unfolding superblock_body sb_head geo_of
length-superblock_body src nonce c =
    let f = words src.tqplus_shift ++ words src.tqplus_scale in
    let e = to_le_bytes 4 (length src.tqplus_shift) ++ f in
    let d = words src.centroids ++ e in
    let b = words src.boundaries ++ d in
    let a = to_le_bytes 4 max_ops ++ b in
    let n = to_le_bytes 8 nonce ++ a in
    let m = to_le_bytes 4 src.dim ++ n in
    ground (
      arith,
      length-append (sb_head src) m,
      length-append (to_le_bytes 4 src.dim) n,
      length-append (to_le_bytes 8 nonce) a,
      length-append (to_le_bytes 4 max_ops) b,
      length-append (words src.boundaries) d,
      length-append (words src.centroids) e,
      length-append (to_le_bytes 4 (length src.tqplus_shift)) f,
      length-append (words src.tqplus_shift) (words src.tqplus_scale),
      length-to_le_bytes 4 src.dim,
      length-to_le_bytes 8 nonce,
      length-to_le_bytes 4 max_ops,
      length-to_le_bytes 4 (length src.tqplus_shift),
      length-words src.boundaries,
      length-words src.centroids,
      length-words src.tqplus_shift,
      length-words src.tqplus_scale,
      c.boundaries,
      c.centroids,
      c.calibration,
    )

-- The batches of units are the units in order.
units_of-append :
    (src : SyncSource) (xs ys : List ℕ)
    → units_of src (xs ++ ys) ≡ units_of src xs ++ units_of src ys
unfolding units_of
units_of-append src [] ys = refl
units_of-append src (x ∷ xs) ys =
    rw (units_of-append src xs ys)
      (sym (append_assoc (unit_bytes src x) (units_of src xs) (units_of src ys)))

range-append : (j k from : ℕ) → range from j ++ range (from + j) k ≡ range from (j + k)
unfolding range
range-append zero k from =
    let e : from + 0 ≡ from = omega arith in let e' : 0 + k ≡ k = omega arith in rw (e, e')
range-append (suc j) k from =
    let e : suc j + k ≡ suc (j + k) = omega arith in
    let e' : from + suc j ≡ suc from + j = omega arith in
    rw (e, e') (ap (◌∷◌ from) (range-append j k (suc from)))

pub write_blocks-units_of :
    (fuel : ℕ) (src : SyncSource) (b0 n : ℕ)
    → n ≤ b0 + fuel
    → write_blocks fuel src b0 n ≡ units_of src (range b0 (n - b0))
unfolding write_blocks units_of range
write_blocks-units_of zero src b0 n h = let e : n - b0 ≡ 0 = omega arith in rw e
write_blocks-units_of (suc fuel) src b0 n h = elim (Bool-cases (ltb b0 n)) [
  | inr e ↦ let none_left : n - b0 ≡ 0 = ground arith in rw (e, none_left, write_blocks) refl
  | inl e ↦
      let b1 = min (b0 + units_per_batch) n in
      elim (Bool-cases (ltb n (b0 + units_per_batch))) [
        | inl short ↦
            let last : b1 ≡ n = ground arith in
            let none_left : n - (b0 + units_per_batch) ≡ 0 = ground arith in
            rw
              (
                e,
                last,
                write_blocks,
                write_blocks-units_of fuel src (b0 + units_per_batch) n (omega arith),
                none_left,
              )
              (append-nil (units_of src (range b0 (n - b0))))
        | inr long ↦
            let k = n - (b0 + units_per_batch) in
            let full : b1 - b0 ≡ units_per_batch = ground arith in
            let all : n - b0 ≡ units_per_batch + k = ground arith in
            rw
              (
                e,
                full,
                all,
                write_blocks,
                write_blocks-units_of fuel src (b0 + units_per_batch) n (omega arith),
                ← range-append units_per_batch k b0,
              )
              (sym
                (units_of-append src (range b0 units_per_batch) (range (b0 + units_per_batch) k)))
      ]
]

pub length-superblock :
    (src : SyncSource) (nonce : ℕ)
    → IsCodebook src
    → length (superblock src nonce) ≡ sb_len (geo_of src)
unfolding superblock
length-superblock src nonce c = omega (
  arith,
  length-superblock_body src nonce c,
  length-append (superblock_body src nonce) (to_le_bytes 4 (crc32 (superblock_body src nonce))),
  length-to_le_bytes 4 (crc32 (superblock_body src nonce)),
)

-- A slot of zeros says generation 0, which the second slot refuses.
pub read-zeros : (n : ℕ) → 8 ≤ n → read (replicate n 0) 8 0 ≡ some 0
unfolding read from_le_bytes
read-zeros n h =
    let k = n - 8 in
    let e : n ≡ suc (suc (suc (suc (suc (suc (suc (suc k))))))) = omega arith in
    let there : leb (0 + 8) (length (replicate {A = ℕ} n 0)) ≡ true =
      le→leb _ _ (omega (arith, length-replicate {A = ℕ} n 0)) in
    rw there (rw e refl)

pub parse_header_at-zeros :
    (n at file_len : ℕ) (geo : Geo)
    → 8 ≤ n
    → parse_header_at (replicate n 0) at geo 1 file_len ≡ none
unfolding parse_header_at
parse_header_at-zeros n at file_len geo h = rw (read-zeros n h) refl

pub get_range-At :
    (bytes : List ℕ) (p : ℕ) (x rest : List ℕ)
    → At bytes p (x ++ rest)
    → get_range bytes p (length x) ≡ some x
get_range-At bytes p x rest a =
    let next = At-skip bytes p x rest a in
    let there : leb (p + length x) (length bytes) ≡ true = le→leb _ _ next.inside in
    rw (there, a.onward, take-append_exact x rest)

module _ (src : SyncSource) (v : IsSource src) where
  pub length-units_of : (bs : List ℕ) → length (units_of src bs) ≡ length bs * unit_len (geo_of src)
  unfolding units_of
  length-units_of [] = omega arith
  length-units_of (b ∷ bs) = omega (
    arith,
    length-append (unit_bytes src b) (units_of src bs),
    length-unit_bytes src v b,
    length-units_of bs,
  )

  pub At-unit :
      (bytes : List ℕ) (k from p b : ℕ)
      → At bytes p (units_of src (range from k))
      → from ≤ b
      → b < from + k
      → get_range bytes (p + (b - from) * unit_len (geo_of src)) (unit_len (geo_of src))
        ≡ some (unit_bytes src b)
  unfolding units_of range
  At-unit bytes zero from p b a lo hi = absurd (omega arith)
  At-unit bytes (suc k) from p b a lo hi = elim (Bool-cases (b == from)) [
    | inl e ↦
        let same : from ≡ b = ground arith in
        let here : p + (b - from) * unit_len (geo_of src) ≡ p =
          let z : b - from ≡ 0 = omega arith in rw z (omega arith) in
        rw here (
          rw (length-unit_bytes src v b) at (
            get_range-At bytes p (unit_bytes src b) (units_of src (range (suc b) k))
              (rw same at a)))
    | inr ne ↦
        let past : suc from ≤ b = ground arith in
        let next : At bytes (p + unit_len (geo_of src)) (units_of src (range (suc from) k)) =
          rw (length-unit_bytes src v from) at
            (At-skip bytes p (unit_bytes src from) (units_of src (range (suc from) k)) a) in
        let j = b - suc from in
        let step : b - from ≡ suc j = omega arith in
        let place : p + unit_len (geo_of src) + j * unit_len (geo_of src)
            ≡ p + suc j * unit_len (geo_of src) =
          omega arith in
        rw step (
          rw place at
            (At-unit bytes k (suc from) (p + unit_len (geo_of src)) b next past (omega arith)))
  ]
