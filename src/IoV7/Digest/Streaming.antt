-- ===== src/IoV7/Digest/Streaming.antt =====
-- The streaming digest is the checksum of the bytes put together.
use turbovec.Common.{
  ℕ, ◌+◌, ◌-◌, ◌*◌, ◌/◌, ◌≡◌, refl, sym, true, false, none, some, List, [], ◌∷◌, ◌++◌, inl, inr,
  length, length-append, take, drop, take_all, drop_all, ltb, leb, to_le_bytes, length-to_le_bytes,
  Bool-cases, arith,
}
use mathlib.Core.List.{append-nil, append_assoc, flatten}
use turbovec.IoV7.Crc.{crc32c_update, crc32_one, crc32, complement, crc32c_update-append}
use turbovec.IoV7.Digest.{
  DeltaDigest, new, push, finish, push_all, unit_chunks, units_len, delta_digest,
}
use turbovec.IoV7.Digest.Thirds.{Seen, push_all-Seen}

-- Without split points the first part sees everything.
record SeenWhole (d : DeltaDigest) (p : List ℕ) : Type 0 where
  all : d.part0 ≡ crc32c_update 0xffff_ffff p
  none_kept : d.split ≡ none

push_whole :
    (d : DeltaDigest) (c : List ℕ)
    → d.split ≡ none
    → push d c ≡ record d { part0 = crc32c_update d.part0 c; at = d.at + length c }
unfolding push
push_whole d c e = ground (arith, e)

push_all-SeenWhole :
    (chunks : List (List ℕ)) (d : DeltaDigest) (p : List ℕ)
    → SeenWhole d p
    → SeenWhole (push_all d chunks) (p ++ flatten chunks)
unfolding push_all flatten
push_all-SeenWhole [] d p s = rw (append-nil p) s
push_all-SeenWhole (c ∷ chunks) d p s =
    let d' : DeltaDigest = record d { part0 = crc32c_update d.part0 c; at = d.at + length c } in
    let pushed = push_whole d c s.none_kept in
    rw (← append_assoc p c (flatten chunks), pushed)
      (push_all-SeenWhole chunks d' (p ++ c) (record {
        all = rw s.all (sym (crc32c_update-append p c 0xffff_ffff));
        none_kept = s.none_kept;
      }))

take_nil : (n : ℕ) → take {A = ℕ} n [] ≡ []
take_nil n = take_all n [] (omega arith)

drop_nil : (n : ℕ) → drop {A = ℕ} n [] ≡ []
drop_nil n = drop_all n [] (omega arith)

new-Seen : (total : ℕ) → leb 4096 total ≡ true → Seen (total / 3) (total / 3 * 2) (new total) []
unfolding new crc32c_update
new-Seen total long =
    let third = total / 3 in
    let empty = drop_nil third in
    record {
      count = refl;
      first = rw (take_nil third);
      second = rw (empty, take_nil (third * 2 - third));
      third = rw (empty, drop_nil (third * 2 - third));
      kept = rw long;
    }

new-SeenWhole : (total : ℕ) → leb 4096 total ≡ false → SeenWhole (new total) []
unfolding new crc32c_update
new-SeenWhole total short = record { all = refl; none_kept = rw short }

finish_split :
    (d : DeltaDigest) (s1 s2 : ℕ)
    → d.split ≡ some (s1, s2)
    → finish d
      ≡ crc32_one (
          to_le_bytes 4 (complement d.part0)
          ++ to_le_bytes 4 (complement d.part1)
          ++ to_le_bytes 4 (complement d.part2))
unfolding finish
finish_split d s1 s2 e = ground (arith, e)

finish_whole : (d : DeltaDigest) → d.split ≡ none → finish d ≡ complement d.part0
unfolding finish
finish_whole d e = ground (arith, e)

-- However the bytes are cut into pieces, the accumulator ends with the checksum of all of them,
-- provided that it was told their number.
pub finish-crc32 :
    (total : ℕ) (chunks : List (List ℕ))
    → total ≡ length (flatten chunks)
    → finish (push_all (new total) chunks) ≡ crc32 (flatten chunks)
unfolding crc32 crc32_one
finish-crc32 total chunks e = elim (Bool-cases (leb 4096 total)) [
  | inr small ↦
      let s = push_all-SeenWhole chunks (new total) [] (new-SeenWhole total small) in
      let short : ltb (length (flatten chunks)) 4096 ≡ true = ground arith in
      rw (finish_whole (push_all (new total) chunks) s.none_kept, s.all, short)
  | inl long ↦
      let third = total / 3 in
      let s =
        push_all-Seen third (third * 2) (omega arith) chunks (new total) [] (new-Seen total long) in
      let enough : ltb (length (flatten chunks)) 4096 ≡ false = ground arith in
      let twice : third * 2 - third ≡ third = omega arith in
      rw (
        finish_split (push_all (new total) chunks) third (third * 2) s.kept,
        s.first,
        s.second,
        s.third,
        enough,
        ← e,
        twice,
      )
]

units_len_lem :
    (units : List (ℕ × List ℕ)) (n : ℕ)
    → units_len n units ≡ n + length (flatten (unit_chunks units))
unfolding units_len unit_chunks flatten
units_len_lem [] n = omega arith
units_len_lem ((b, body) ∷ units) n =
    let rest = flatten (unit_chunks units) in
    omega (
      arith,
      units_len_lem units (n + (4 + length body)),
      length-to_le_bytes 4 b,
      length-append (to_le_bytes 4 b) (body ++ rest),
      length-append body rest,
    )

-- The digest of a commit is the checksum of its generation followed by each unit behind its block
-- index, as one byte string.
pub delta_digest-crc32 :
    (gen : ℕ) (units : List (ℕ × List ℕ))
    → delta_digest gen units ≡ crc32 (to_le_bytes 8 gen ++ flatten (unit_chunks units))
unfolding delta_digest
delta_digest-crc32 gen units =
    let rest = flatten (unit_chunks units) in
    let chunks : List (List ℕ) = to_le_bytes 8 gen ∷ unit_chunks units in
    let size : units_len 8 units ≡ length (to_le_bytes 8 gen ++ rest) = omega (
      arith,
      units_len_lem units 8,
      length-to_le_bytes 8 gen,
      length-append (to_le_bytes 8 gen) rest,
    ) in
    unfold push_all flatten in finish-crc32 (units_len 8 units) chunks size
