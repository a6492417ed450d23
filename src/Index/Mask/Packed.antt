-- ===== src/Index/Mask/Packed.antt =====
-- The words of a mask let through the slots that the mask lets through.
use turbovec.Common.{
  ℕ, zero, suc, ◌+◌, ◌-◌, ◌/◌, ◌%◌, ◌^◌, ◌≤◌, ◌≡◌, refl, sym, ap, ◌∙◌, inl, inr, Bool, true, false,
  some, List, [], ◌∷◌, ◌++◌, length, length-take, length-drop, get_elem?, get-take, get-drop,
  get_or, take, drop, take-append-drop, ltb, ◌==◌, Bool-cases, arith,
}
use turbovec.Index.Chunks.{chunks}
use turbovec.Index.Mask.{pack_word, count_ones, pack_chunks, packed_mask, allows_bit}
use turbovec.Index.Mask.Bits.{bit_of, trues, word-value, value-bit, count_ones-value}

chunk_bit :
    (fuel : ℕ) (xs : List Bool) (slot : ℕ) (b : Bool)
    → length xs ≤ fuel
    → get_elem? xs slot ≡ some b
    → get_or (pack_chunks (chunks 64 fuel xs)).0 (slot / 64) 0 / 2 ^ (slot % 64) % 2 ≡ bit_of b
chunk_bit fuel [] slot b fits h = absurd (cc h)
chunk_bit zero (x ∷ xs) slot b fits h = absurd (omega (arith, fits))
chunk_bit (suc fuel) (x ∷ xs) slot b fits h = elim (Bool-cases (ltb slot 64)) [
  | inl near ↦
      let first : slot / 64 ≡ 0 = ground (arith, near) in
      let place : slot % 64 ≡ slot = ground (arith, near) in
      let here : get_elem? (take 64 (x ∷ xs)) slot ≡ some b =
        get-take 64 (x ∷ xs) slot ∙ rw near h in
      rw (first, place, word-value (take 64 (x ∷ xs))) (value-bit (take 64 (x ∷ xs)) slot b here)
  | inr far ↦
      let s = slot - 64 in
      let next : slot / 64 ≡ suc (s / 64) = ground (arith, far) in
      let place : slot % 64 ≡ s % 64 = ground (arith, far) in
      let whole : 64 + s ≡ slot = ground (arith, far) in
      let there : get_elem? (drop 64 (x ∷ xs)) s ≡ some b =
        get-drop 64 (x ∷ xs) s ∙ ap (get_elem? (x ∷ xs)) whole ∙ h in
      rw (next, place)
        (chunk_bit fuel (drop 64 (x ∷ xs)) s b (omega (arith, fits, length-drop 64 (x ∷ xs))) there)
]

trues-append : (xs ys : List Bool) → trues (xs ++ ys) ≡ trues xs + trues ys
trues-append [] ys = omega arith
trues-append (x ∷ xs) ys = omega (arith, trues-append xs ys)

chunk_count :
    (fuel : ℕ) (xs : List Bool)
    → length xs ≤ fuel
    → ((pack_chunks (chunks 64 fuel xs)).1 ≡ trues xs)
      × (length (pack_chunks (chunks 64 fuel xs)).0 ≡ (length xs + 63) / 64)
chunk_count zero [] fits = (refl, omega arith)
chunk_count (suc fuel) [] fits = (refl, omega arith)
chunk_count zero (x ∷ xs) fits = absurd (omega (arith, fits))
chunk_count (suc fuel) (x ∷ xs) fits =
    let front = take 64 (x ∷ xs) in
    let back = drop 64 (x ∷ xs) in
    let dropped = length-drop 64 (x ∷ xs) in
    let (ones, words) = chunk_count fuel back (omega (arith, fits, dropped)) in
    let parts : trues front + trues back ≡ trues (x ∷ xs) =
      sym (trues-append front back) ∙ ap trues (take-append-drop 64 (x ∷ xs)) in
    let counted : count_ones 64 (pack_word 0 0 front) ≡ trues front =
      ap (count_ones 64) (word-value front)
      ∙ count_ones-value 64 front (omega (arith, length-take 64 (x ∷ xs))) in
    (omega (arith, counted, ones, parts), omega (arith, words, dropped))

bit_test : (b : Bool) → (bit_of b == 1) ≡ b
bit_test true = refl
bit_test false = refl

-- The words of a mask have a bit for each of its slots, which is set if and only if the mask lets the
-- slot through; their number is a 64th of the mask's length, rounded up, and the count that goes with
-- them is the number of slots that the mask lets through.
pub packed_mask_lem :
    (mask : List Bool)
    → ((slot : ℕ) (b : Bool)
        → get_elem? mask slot ≡ some b
        → allows_bit (packed_mask mask).0 slot ≡ b)
      × (length (packed_mask mask).0 ≡ (length mask + 63) / 64)
      × ((packed_mask mask).1 ≡ trues mask)
unfolding allows_bit packed_mask
packed_mask_lem mask =
    let (ones, words) = chunk_count (length mask) mask (omega arith) in
    (λ slot b h. rw (chunk_bit (length mask) mask slot b (omega arith) h) (bit_test b), words, ones)
