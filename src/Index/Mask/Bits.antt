-- ===== src/Index/Mask/Bits.antt =====
-- The bits of a word of a mask.
use Prim.Native.Nat.{bit_or, digits, bit_or-bitwise, max}
use native.Mathlib.Nat.{pow-suc, pow-succ', div-div-eq-div-mul}
use turbovec.Common.{
  ℕ, zero, suc, ◌+◌, ◌*◌, ◌/◌, ◌%◌, ◌^◌, ◌≤◌, ◌<◌, ◌≡◌, refl, ◌∙◌, Bool, true, false, List, [], ◌∷◌,
  length, get_elem?, some, if◌then◌else◌, arith,
}
use turbovec.Index.Mask.{pack_word, count_ones}

abbrev pub bit_of : Bool → ℕ
bit_of b = if b then 1 else 0

-- A chunk as a number, its first slot the lowest bit.
abbrev pub value : List Bool → ℕ
value [] = 0
value (b ∷ bs) = bit_of b + 2 * value bs

abbrev pub trues : List Bool → ℕ
trues [] = 0
trues (b ∷ bs) = bit_of b + trues bs

twice_shift : (b : Bool) (k : ℕ) → bit_of b * 2 ^ suc k ≡ 2 * (bit_of b * 2 ^ k)
twice_shift true k = omega (arith, pow-suc 2 k)
twice_shift false k = omega arith

-- Above the bits of `w`, an or is a sum.
or_add :
    (fuel bit w : ℕ) (b : Bool)
    → w ≤ fuel
    → w < 2 ^ bit
    → digits (λ b. b) max fuel w (bit_of b * 2 ^ bit) ≡ w + bit_of b * 2 ^ bit
or_add zero bit zero b fits small = omega arith
or_add zero bit (suc w) b fits small = absurd (omega (arith, fits))
or_add (suc fuel) bit zero b fits small = omega arith
or_add (suc fuel) zero (suc w) b fits small = absurd (omega (arith, small))
or_add (suc fuel) (suc k) (suc w) b fits small =
    let p = bit_of b * 2 ^ k in
    let twice = twice_shift b k in
    let half : bit_of b * 2 ^ suc k / 2 ≡ p = omega (arith, twice) in
    let even : bit_of b * 2 ^ suc k % 2 ≡ 0 = omega (arith, twice) in
    let rest =
      or_add fuel k (suc w / 2) b (omega (arith, fits)) (omega (arith, small, pow-suc 2 k)) in
    rw (half, even) (omega (arith, rest, twice))

bit_or-add :
    (bit w : ℕ) (b : Bool) → w < 2 ^ bit → bit_or w (bit_of b * 2 ^ bit) ≡ w + bit_of b * 2 ^ bit
bit_or-add bit w b small =
    bit_or-bitwise w (bit_of b * 2 ^ bit) ∙ or_add w bit w b (omega arith) small

next_small : (b : Bool) (word p q : ℕ) → word < p → q ≡ p * 2 → word + bit_of b * p < q
next_small true word p q h e = omega (arith, h, e)
next_small false word p q h e = omega (arith, h, e)

spread : (b : Bool) (word p v : ℕ) → word + bit_of b * p + p * 2 * v ≡ word + p * (bit_of b + 2 * v)
spread true word p v = omega arith
spread false word p v = omega arith

halved : (b : Bool) (v : ℕ) → (bit_of b + 2 * v) / 2 ≡ v
halved true v = omega arith
halved false v = omega arith

low_bit : (b : Bool) (v : ℕ) → (bit_of b + 2 * v) % 2 ≡ bit_of b
low_bit true v = omega arith
low_bit false v = omega arith

bit_low : (b : Bool) (v : ℕ) → (bit_of b + 2 * v) / 2 ^ 0 % 2 ≡ bit_of b
bit_low true v = omega arith
bit_low false v = omega arith

no_ones : (bits : ℕ) → count_ones bits 0 ≡ 0
no_ones zero = refl
no_ones (suc bits) = omega (arith, no_ones bits)

pack_word-value :
    (word bit : ℕ) (bs : List Bool)
    → word < 2 ^ bit
    → pack_word word bit bs ≡ word + 2 ^ bit * value bs
pack_word-value word bit [] small = omega arith
pack_word-value word bit (b ∷ bs) small =
    let next = bit_or-add bit word b small in
    let small2 : word + bit_of b * 2 ^ bit < 2 ^ suc bit =
      next_small b word (2 ^ bit) (2 ^ suc bit) small (pow-suc 2 bit) in
    let rest = pack_word-value (word + bit_of b * 2 ^ bit) (suc bit) bs small2 in
    let power = pow-suc 2 bit in rw next (rest ∙ rw power (spread b word (2 ^ bit) (value bs)))

pub word-value : (bs : List Bool) → pack_word 0 0 bs ≡ value bs
word-value bs = omega (arith, pack_word-value 0 0 bs (omega arith))

pub value-bit :
    (bs : List Bool) (i : ℕ) (b : Bool) → get_elem? bs i ≡ some b → value bs / 2 ^ i % 2 ≡ bit_of b
value-bit [] i b h = absurd (cc h)
value-bit (c ∷ bs) zero b h = let same : c ≡ b = cc h in rw same (bit_low b (value bs))
value-bit (c ∷ bs) (suc i) b h =
    let half : value (c ∷ bs) / 2 ≡ value bs = halved c (value bs) in
    let power = pow-succ' 2 i in
    rw power (rw (← div-div-eq-div-mul (value (c ∷ bs)) 2 (2 ^ i), half) (value-bit bs i b h))

pub count_ones-value :
    (bits : ℕ) (bs : List Bool) → length bs ≤ bits → count_ones bits (value bs) ≡ trues bs
count_ones-value bits [] h = no_ones bits
count_ones-value zero (b ∷ bs) h = absurd (omega (arith, h))
count_ones-value (suc bits) (b ∷ bs) h =
    let half : value (b ∷ bs) / 2 ≡ value bs = halved b (value bs) in
    let low : value (b ∷ bs) % 2 ≡ bit_of b = low_bit b (value bs) in
    rw (half, low) (omega (arith, count_ones-value bits bs (omega (arith, h))))
