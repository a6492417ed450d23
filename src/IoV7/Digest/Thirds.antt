-- ===== src/IoV7/Digest/Thirds.antt =====
-- Each part of the streaming digest is the checksum of its third of the bytes.
use turbovec.Common.{
  ℕ, zero, suc, ◌+◌, ◌-◌, ◌≤◌, ◌<◌, ◌≡◌, sym, ap, ◌∙◌, true, false, some, List, [], ◌∷◌, ◌++◌, inl,
  inr, length, length-append, length-take, length-drop, take, drop, take-append-drop, take_all,
  drop_all, take-append_left, drop-append_left, ltb, Bool-cases, min, arith,
}
use mathlib.Core.List.{append-nil, append_assoc, flatten}
use turbovec.IoV7.Crc.{crc32c_update, crc32c_update-append}
use turbovec.IoV7.Digest.{DeltaDigest, feed, room, push_loop, push, push_all}

-- What the accumulator has seen: each part holds the bytes of its third.
pub record Seen (s1 s2 : ℕ) (d : DeltaDigest) (p : List ℕ) : Type 0 where
  pub count : d.at ≡ length p
  pub first : d.part0 ≡ crc32c_update 0xffff_ffff (take s1 p)
  pub second : d.part1 ≡ crc32c_update 0xffff_ffff (take (s2 - s1) (drop s1 p))
  pub third : d.part2 ≡ crc32c_update 0xffff_ffff (drop (s2 - s1) (drop s1 p))
  pub kept : d.split ≡ some (s1, s2)

module _ (s1 s2 : ℕ) (le : s1 ≤ s2) where
  feed-Seen0 :
      (d : DeltaDigest) (p q : List ℕ)
      → Seen s1 s2 d p
      → length p < s1
      → length p + length q ≤ s1
      → Seen s1 s2 (feed d s1 s2 q) (p ++ q)
  unfolding feed
  feed-Seen0 d p q s h k =
      let size = length-append p q in
      let before : take s1 p ≡ p = take_all s1 p (omega arith) in
      let after : take s1 (p ++ q) ≡ p ++ q = take_all s1 (p ++ q) (omega (arith, size)) in
      let gone : drop s1 p ≡ [] = drop_all s1 p (omega arith) in
      let gone' : drop s1 (p ++ q) ≡ [] = drop_all s1 (p ++ q) (omega (arith, size)) in
      let here : ltb d.at s1 ≡ true = ground (arith, s.count) in
      rw (here, feed)
        (record {
          count = omega (arith, s.count, size);
          first = rw (after, s.first, before) (sym (crc32c_update-append p q 0xffff_ffff));
          second = rw (gone', s.second, gone);
          third = rw (gone', s.third, gone);
          kept = s.kept;
        })

  feed-Seen1 :
      (d : DeltaDigest) (p q : List ℕ)
      → Seen s1 s2 d p
      → s1 ≤ length p
      → length p < s2
      → length p + length q ≤ s2
      → Seen s1 s2 (feed d s1 s2 q) (p ++ q)
  unfolding feed
  feed-Seen1 d p q s lo h k =
      let size = length-append p q in
      let rest = drop s1 p in
      let split : drop s1 (p ++ q) ≡ rest ++ q = drop-append_left s1 p q lo in
      let whole = length-append rest q in
      let n = length-drop s1 p in
      let before : take (s2 - s1) rest ≡ rest = take_all (s2 - s1) rest (omega (arith, n)) in
      let after : take (s2 - s1) (rest ++ q) ≡ rest ++ q =
        take_all (s2 - s1) (rest ++ q) (omega (arith, n, whole)) in
      let gone : drop (s2 - s1) rest ≡ [] = drop_all (s2 - s1) rest (omega (arith, n)) in
      let gone' : drop (s2 - s1) (rest ++ q) ≡ [] =
        drop_all (s2 - s1) (rest ++ q) (omega (arith, n, whole)) in
      let past : ltb d.at s1 ≡ false = ground (arith, s.count) in
      let here : ltb d.at s2 ≡ true = ground (arith, s.count) in
      rw (past, here, feed)
        (record {
          count = omega (arith, s.count, size);
          first = rw (take-append_left s1 p q lo) s.first;
          second =
              rw (split, after, s.second, before) (sym (crc32c_update-append rest q 0xffff_ffff));
          third = rw (split, gone', s.third, gone);
          kept = s.kept;
        })

  feed-Seen2 :
      (d : DeltaDigest) (p q : List ℕ)
      → Seen s1 s2 d p
      → s2 ≤ length p
      → Seen s1 s2 (feed d s1 s2 q) (p ++ q)
  unfolding feed
  feed-Seen2 d p q s lo =
      let rest = drop s1 p in
      let split : drop s1 (p ++ q) ≡ rest ++ q = drop-append_left s1 p q (omega arith) in
      let n = length-drop s1 p in
      let inside : s2 - s1 ≤ length rest = omega (arith, n) in
      let past : ltb d.at s1 ≡ false = ground (arith, s.count) in
      let past2 : ltb d.at s2 ≡ false = ground (arith, s.count) in
      rw (past, past2, feed)
        (record {
          count = omega (arith, s.count, length-append p q);
          first = rw (take-append_left s1 p q (omega arith)) s.first;
          second = rw (split, take-append_left (s2 - s1) rest q inside) s.second;
          third =
              rw (split, drop-append_left (s2 - s1) rest q inside, s.third)
                (sym (crc32c_update-append (drop (s2 - s1) rest) q 0xffff_ffff));
          kept = s.kept;
        })

  round-Seen :
      (d : DeltaDigest) (p q : List ℕ)
      → Seen s1 s2 d p
      → 0 < length q
      → (1 ≤ room d s1 s2 q)
        × Seen s1 s2 (feed d s1 s2 (take (room d s1 s2 q) q)) (p ++ take (room d s1 s2 q) q)
  unfolding room
  round-Seen d p q s h = elim (Bool-cases (ltb d.at s1)) [
    | inl e ↦
        let lt : length p < s1 = ground (arith, s.count) in
        rw (e, room)
          (
            ground (arith, s.count),
            feed-Seen0 d p _ s lt
                (omega (arith, s.count, length-take (min (length q) (s1 - d.at)) q)),
          )
    | inr e ↦ elim (Bool-cases (ltb d.at s2)) [
      | inl e2 ↦
          let ge : s1 ≤ length p = ground (arith, s.count) in
          let lt : length p < s2 = ground (arith, s.count) in
          rw (e, e2, room)
            (
              ground (arith, s.count),
              feed-Seen1 d p _ s ge lt
                  (omega (arith, s.count, length-take (min (length q) (s2 - d.at)) q)),
            )
      | inr e2 ↦ rw (e, e2, room) (omega arith, feed-Seen2 d p _ s (ground (arith, s.count)))
    ]
  ]

  push_loop-Seen :
      (fuel : ℕ) (d : DeltaDigest) (p q : List ℕ)
      → Seen s1 s2 d p
      → length q ≤ fuel
      → Seen s1 s2 (push_loop fuel d s1 s2 q) (p ++ q)
  unfolding push_loop
  push_loop-Seen zero d p [] s h = rw (append-nil p) s
  push_loop-Seen zero d p (b ∷ q) s h = absurd (omega arith)
  push_loop-Seen (suc fuel) d p [] s h = rw (append-nil p) s
  push_loop-Seen (suc fuel) d p (b ∷ q) s h =
      let n = room d s1 s2 (b ∷ q) in
      let piece = take n (b ∷ q) in
      let (some_room, seen) = round-Seen d p (b ∷ q) s (omega arith) in
      let left = length-drop n (b ∷ q) in
      let glue : (p ++ piece) ++ drop n (b ∷ q) ≡ p ++ b ∷ q =
        append_assoc p piece (drop n (b ∷ q)) ∙ ap (◌++◌ p) (take-append-drop n (b ∷ q)) in
      rw (← glue)
        (push_loop-Seen fuel (feed d s1 s2 piece) (p ++ piece) (drop n (b ∷ q)) seen (omega arith))

  push_split :
      (d : DeltaDigest) (c : List ℕ)
      → d.split ≡ some (s1, s2)
      → push d c ≡ push_loop (length c) d s1 s2 c
  unfolding push
  push_split d c e = ground (arith, e)

  pub push_all-Seen :
      (chunks : List (List ℕ)) (d : DeltaDigest) (p : List ℕ)
      → Seen s1 s2 d p
      → Seen s1 s2 (push_all d chunks) (p ++ flatten chunks)
  unfolding push_all flatten
  push_all-Seen [] d p s = rw (append-nil p) s
  push_all-Seen (c ∷ chunks) d p s =
      let pushed = push_split d c s.kept in
      rw (← append_assoc p c (flatten chunks), pushed)
        (push_all-Seen chunks (push_loop (length c) d s1 s2 c) (p ++ c)
          (push_loop-Seen (length c) d p c s (omega arith)))
