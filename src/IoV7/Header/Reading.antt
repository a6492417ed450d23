-- ===== src/IoV7/Header/Reading.antt =====
-- Reading at a position from which a known byte string goes on.
use turbovec.Common.{
  All, ℕ, suc, ◌+◌, ◌*◌, ◌/◌, ◌%◌, ◌^◌, ◌≤◌, ◌<◌, ◌≡◌, refl, sym, ap, ◌∙◌, true, some, List, [],
  ◌∷◌, ◌++◌, length, length-append, length-drop, drop, drop-drop, take-append_exact,
  drop-append_exact, leb, ltb, to_le_bytes, from_le_bytes, length-to_le_bytes,
  from_le_bytes-to_le_bytes, arith,
}
use mathlib.Core.List.{append_assoc}
use turbovec.IoV7.Header.{
  read, SyncSource, row_record, op_records, group_records, words, parse_ops, parse_groups,
  parse_words,
}
use turbovec.Pack.Geometry.{block}

-- From position `p` on, the bytes are `rest`.
pub record At (bytes : List ℕ) (p : ℕ) (rest : List ℕ) : Type 0 where
  pub onward : drop p bytes ≡ rest
  pub inside : p ≤ length bytes

pub At-start : (bytes : List ℕ) → At bytes 0 bytes
At-start bytes = record { onward = refl; inside = omega arith }

module _ (bytes : List ℕ) (p : ℕ) where
  pub At-skip : (x rest : List ℕ) → At bytes p (x ++ rest) → At bytes (p + length x) rest
  At-skip x rest a = record {
    onward = sym (drop-drop p (length x) bytes) ∙ rw a.onward (drop-append_exact x rest);
    inside = omega (arith, length-drop p bytes, ap length a.onward, length-append x rest, a.inside);
  }

  At-read-At :
      (x rest : List ℕ) → At bytes p (x ++ rest) → read bytes (length x) p ≡ some (from_le_bytes x)
  unfolding read
  At-read-At x rest a =
      let fits : leb (p + length x) (length bytes) ≡ true =
        ground (arith, length-drop p bytes, ap length a.onward, length-append x rest, a.inside) in
      rw (fits, a.onward, take-append_exact x rest)

  pub At-read :
      (w v : ℕ) (rest : List ℕ)
      → v < 256 ^ w
      → At bytes p (to_le_bytes w v ++ rest)
      → read bytes w p ≡ some v
  At-read w v rest h a =
      rw (length-to_le_bytes w v, from_le_bytes-to_le_bytes w v h) at
        (At-read-At (to_le_bytes w v) rest a)

  pub At-byte : (b : ℕ) (rest : List ℕ) → At bytes p (b ∷ rest) → read bytes 1 p ≡ some b
  unfolding from_le_bytes
  At-byte b rest a = At-read-At (b ∷ []) rest a ∙ ap some (omega arith)

  pub At-word :
      (w v : ℕ) (rest : List ℕ) → At bytes p (to_le_bytes w v ++ rest) → At bytes (p + w) rest
  At-word w v rest a = rw (length-to_le_bytes w v) at (At-skip (to_le_bytes w v) rest a)

  pub At-next : (b : ℕ) (rest : List ℕ) → At bytes p (b ∷ rest) → At bytes (p + 1) rest
  At-next b rest a = At-skip (b ∷ []) rest a

-- The redo ops of one block, as the parser lists them.
unfoldable pub ops_at : ℕ → ℕ → ℕ → List ℕ → List (ℕ × ℕ)
ops_at at size p [] = []
ops_at at size p (s ∷ slots) = (s, at + p + 1) ∷ ops_at at size (p + size) slots

unfoldable pub groups_at : ℕ → ℕ → ℕ → List (ℕ × List ℕ) → List (ℕ × List (ℕ × ℕ))
groups_at at size p [] = []
groups_at at size p ((b, slots) ∷ ops) =
    (b, ops_at at size (p + 5) slots) ∷ groups_at at size (p + 5 + length slots * size) ops

-- The bytes that groups of ops take.
unfoldable pub groups_len : ℕ → List (ℕ × List ℕ) → ℕ
groups_len size [] = 0
groups_len size ((b, slots) ∷ ops) = 5 + length slots * size + groups_len size ops

-- A group is legal for a commit of `n` rows: its block is whole, and its slots stand in that block.
abbrev pub IsGroup : ℕ → ℕ × List ℕ → Type 0
IsGroup n (b, slots) =
    (b < n / block) × (b < 2 ^ 32) × (length slots ≤ block) × All (λ s. s / block ≡ b) slots

module _ (src : SyncSource) (bytes : List ℕ) (at size : ℕ)
    (sized : (s : ℕ) → suc (length (row_record src s)) ≡ size) where
  pub length-op_records : (slots : List ℕ) → length (op_records src slots) ≡ length slots * size
  unfolding op_records
  length-op_records [] = omega arith
  length-op_records (s ∷ slots) = omega (
    arith,
    length-append (row_record src s) (op_records src slots),
    sized s,
    length-op_records slots,
  )

  parse_ops_lem :
      (slots : List ℕ) (b p : ℕ) (rest : List ℕ)
      → All (λ s. s / block ≡ b) slots
      → At bytes p (op_records src slots ++ rest)
      → parse_ops (length slots) bytes at size b p
        ≡ some (ops_at at size p slots, p + length slots * size)
  unfolding parse_ops op_records ops_at
  parse_ops_lem [] b p rest h a = let e : p + 0 * size ≡ p = omega arith in rw e
  parse_ops_lem (s ∷ slots) b p rest (here, h) a =
      let row = row_record src s in
      let more = op_records src slots ++ rest in
      let a' : At bytes p ((s % block ∷ row) ++ more) =
        rw (append_assoc row (op_records src slots) rest) at a in
      let next : At bytes (p + size) more =
        rw (sized s) at (At-skip bytes p (s % block ∷ row) more a') in
      let lane = At-byte bytes p (s % block) (row ++ more) a' in
      let inside : ltb (s % block) block ≡ true = ground arith in
      let slot : b * block + s % block ≡ s = omega arith in
      let last : p + size + length slots * size ≡ p + suc (length slots) * size = omega arith in
      rw (lane, inside, parse_ops_lem slots b (p + size) rest h next, slot, last)

  pub length-group_records :
      (ops : List (ℕ × List ℕ)) → length (group_records src ops) ≡ groups_len size ops
  unfolding group_records groups_len to_le_bytes
  length-group_records [] = refl
  length-group_records ((b, slots) ∷ ops) = omega (
    arith,
    length-to_le_bytes 4 b,
    length-op_records slots,
    length-group_records ops,
    length-append (to_le_bytes 4 b)
        ((length slots % 256 ∷ op_records src slots) ++ group_records src ops),
    length-append (op_records src slots) (group_records src ops),
  )

  -- The loop over the groups reads back what the writer put there.
  pub parse_groups_lem :
      (ops : List (ℕ × List ℕ)) (n p : ℕ) (rest : List ℕ)
      → All (IsGroup n) ops
      → At bytes p (group_records src ops ++ rest)
      → parse_groups (length ops) bytes at size n p
        ≡ some (groups_at at size p ops, p + groups_len size ops)
  unfolding parse_groups group_records groups_at groups_len to_le_bytes
  parse_groups_lem [] n p rest h a = let e : p + 0 ≡ p = omega arith in rw e
  parse_groups_lem ((b, slots) ∷ ops) n p rest ((low, word, few, own), h) a =
      let body = op_records src slots in
      let more = group_records src ops ++ rest in
      let count = length slots % 256 in
      let exact : count ≡ length slots = omega arith in
      let a1 : At bytes p (to_le_bytes 4 b ++ (count ∷ (body ++ more))) =
        rw
          (
            append_assoc (to_le_bytes 4 b) ((count ∷ body) ++ group_records src ops) rest,
            append_assoc body (group_records src ops) rest,
          )
          at a in
      let a2 = At-word bytes p 4 b (count ∷ (body ++ more)) a1 in
      let a3 : At bytes (p + 5) (body ++ more) =
        let e : p + 4 + 1 ≡ p + 5 = omega arith in
        rw e at (At-next bytes (p + 4) count (body ++ more) a2) in
      let a4 : At bytes (p + 5 + length slots * size) more =
        rw (length-op_records slots) at (At-skip bytes (p + 5) body more a3) in
      let known : ltb b (n / block) ≡ true = ground arith in
      let last : p + 5 + length slots * size + groups_len size ops
          ≡ p + (5 + length slots * size + groups_len size ops) =
        omega arith in
      rw (
        At-read bytes p 4 b (count ∷ (body ++ more)) word a1,
        known,
        At-byte bytes (p + 4) count (body ++ more) a2,
        exact,
        parse_ops_lem slots b (p + 5) more own a3,
        parse_groups_lem ops n (p + 5 + length slots * size) rest h a4,
        last,
      )

-- The loop over the materialized units reads back the list.
pub length-words : (bs : List ℕ) → length (words bs) ≡ length bs * 4
unfolding words
length-words [] = refl
length-words (b ∷ bs) =
    omega
      (arith, length-append (to_le_bytes 4 b) (words bs), length-to_le_bytes 4 b, length-words bs)

pub parse_words_lem :
    (bytes : List ℕ) (bs : List ℕ) (p : ℕ) (rest : List ℕ)
    → All (λ b. b < 2 ^ 32) bs
    → At bytes p (words bs ++ rest)
    → parse_words (length bs) bytes p ≡ some (bs, p + length bs * 4)
unfolding parse_words words
parse_words_lem bytes [] p rest h a = let e : p + 0 * 4 ≡ p = omega arith in rw e
parse_words_lem bytes (b ∷ bs) p rest (word, h) a =
    let a1 : At bytes p (to_le_bytes 4 b ++ (words bs ++ rest)) =
      rw (append_assoc (to_le_bytes 4 b) (words bs) rest) at a in
    let last : p + 4 + length bs * 4 ≡ p + suc (length bs) * 4 = omega arith in
    rw (
      At-read bytes p 4 b (words bs ++ rest) word a1,
      parse_words_lem bytes bs (p + 4) rest h (At-word bytes p 4 b (words bs ++ rest) a1),
      last,
    )
