-- ===== src/Index/Mask.antt =====
-- The mask of a search in turbovec/src/lib.rs (`try_search_with_options`, `search_mapped`): 64 slots to
-- a word, with the number of slots let through; and the test that a kernel makes on the words.
pub mod Bits
pub mod Packed
use Prim.Native.Nat.{bit_or}
use turbovec.Common.{
  ℕ, zero, suc, ◌+◌, ◌*◌, ◌/◌, ◌%◌, ◌^◌, Bool, true, false, List, [], ◌∷◌, length, get_or, ◌==◌,
  if◌then◌else◌,
}
use turbovec.Index.Chunks.{chunks}

-- `word |= (b as u64) << bit` for each slot of a chunk; `bit` stays below 64.
abbrev pub pack_word : ℕ → ℕ → List Bool → ℕ
pack_word word bit [] = word
pack_word word bit (b ∷ bs) = pack_word (bit_or word ((if b then 1 else 0) * 2 ^ bit)) (suc bit) bs

-- `u64::count_ones`.
abbrev pub count_ones : ℕ → ℕ → ℕ
count_ones zero word = 0
count_ones (suc bits) word = word % 2 + count_ones bits (word / 2)

abbrev pub pack_chunks : List (List Bool) → List ℕ × ℕ
pack_chunks [] = ([], 0)
pack_chunks (chunk ∷ rest) =
    let (words, allowed) = pack_chunks rest in
    let word = pack_word 0 0 chunk in (word ∷ words, count_ones 64 word + allowed)

unfoldable pub packed_mask : List Bool → List ℕ × ℕ
packed_mask mask = pack_chunks (chunks 64 (length mask) mask)

-- Whether the words let a slot through.
unfoldable pub allows_bit : List ℕ → ℕ → Bool
allows_bit words slot = get_or words (slot / 64) 0 / 2 ^ (slot % 64) % 2 == 1
