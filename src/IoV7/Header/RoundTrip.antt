-- ===== src/IoV7/Header/RoundTrip.antt =====
-- `parse_header_at` reads what `header_slot` wrote.
use turbovec.Common.{
  ℕ, ◌+◌, ◌-◌, ◌*◌, ◌/◌, ◌%◌, ◌^◌, ◌≡◌, ap, true, some, List, ◌++◌, length, length-append, take,
  take-append_exact, ltb, leb, lt→ltb, le→leb, length-drop, ◌==◌, to_le_bytes, length-to_le_bytes,
  arith,
}
use mathlib.Core.List.{append_assoc}
use turbovec.Pack.Geometry.{block}
use turbovec.IoV7.Crc.{crc32, crc32-lt}
use turbovec.IoV7.Geo.{Geo, max_ops, row_bytes, id_bytes, op_size, unit_len, unit_at}
use turbovec.IoV7.Header.{
  SyncSource, geo_of, tail_records, group_records, words, Delta, header_body, header_slot,
  parse_header_at, checked,
}
use turbovec.IoV7.Header.Reading.{
  At, At-start, At-skip, At-read, At-word, groups_len, parse_groups_lem, parse_words_lem,
  length-group_records, length-words,
}
use turbovec.IoV7.Header.Legal.{IsSource, length-row_record, length-tail_records, IsCommit, parsed}

module _ (src : SyncSource) (gen n : ℕ) (ops : List (ℕ × List ℕ)) (delta : Delta)
    (rest : List ℕ) where
  abbrev pub bytes : List ℕ
  bytes = header_slot src gen n ops delta ++ rest

  abbrev crc_bytes : List ℕ
  crc_bytes = to_le_bytes 4 (crc32 (header_body src gen n ops delta))

  -- The header with its fields nested to the right.
  abbrev pub after_words : List ℕ
  after_words =
      to_le_bytes 4 delta.app_start
      ++ (to_le_bytes 4 delta.app_end ++ (to_le_bytes 4 delta.crc ++ (crc_bytes ++ rest)))

  abbrev pub after_groups : List ℕ
  after_groups = to_le_bytes 4 (length delta.mat) ++ (words delta.mat ++ after_words)

  abbrev pub after_tail : List ℕ
  after_tail = to_le_bytes 4 (length ops) ++ (group_records src ops ++ after_groups)

  fields :
      bytes
      ≡ to_le_bytes 8 gen
        ++ (to_le_bytes 8 n ++ (tail_records src (n - n % block) (n % block) ++ after_tail))
  unfolding header_slot header_body
  fields = simp append_assoc

  body_first : bytes ≡ header_body src gen n ops delta ++ (crc_bytes ++ rest)
  unfolding header_slot
  body_first = append_assoc (header_body src gen n ops delta) crc_bytes rest

  module _ (file_len : ℕ) (v : IsSource src) (c : IsCommit src gen n ops delta file_len) where
    abbrev geo : Geo
    geo = geo_of src

    abbrev pub tail_end : ℕ
    tail_end = 16 + n % block * (row_bytes geo + 4 + id_bytes geo 1)

    abbrev groups_end : ℕ
    groups_end = tail_end + 4 + groups_len (op_size geo) ops

    abbrev words_end : ℕ
    words_end = groups_end + 4 + length delta.mat * 4

    At-gen : At bytes 0 (
        to_le_bytes 8 gen
        ++ (to_le_bytes 8 n ++ (tail_records src (n - n % block) (n % block) ++ after_tail)))
    At-gen = rw (← fields) (At-start bytes)

    pub At-n :
        At bytes 8 (to_le_bytes 8 n ++ (tail_records src (n - n % block) (n % block) ++ after_tail))
    At-n = At-word bytes 0 8 gen _ At-gen

    At-tail : At bytes tail_end after_tail
    At-tail =
        let rows = tail_records src (n - n % block) (n % block) in
        rw (length-tail_records src (n % block) (n - n % block) v) at
          (At-skip bytes 16 rows after_tail (At-word bytes 8 8 n (rows ++ after_tail) At-n))

    pub At-groups : At bytes (tail_end + 4) (group_records src ops ++ after_groups)
    At-groups = At-word bytes tail_end 4 (length ops) _ At-tail

    At-mat : At bytes groups_end after_groups
    At-mat =
        rw (length-group_records src bytes 0 (op_size geo) (λ s. length-row_record src s v) ops) at
          (At-skip bytes (tail_end + 4) (group_records src ops) after_groups At-groups)

    At-words : At bytes (groups_end + 4) (words delta.mat ++ after_words)
    At-words = At-word bytes groups_end 4 (length delta.mat) _ At-mat

    At-app : At bytes words_end after_words
    At-app =
        rw (length-words delta.mat) at
          (At-skip bytes (groups_end + 4) (words delta.mat) after_words At-words)

    At-end :
        At bytes
          (words_end + 4)
          (to_le_bytes 4 delta.app_end ++ (to_le_bytes 4 delta.crc ++ (crc_bytes ++ rest)))
    At-end = At-word bytes words_end 4 delta.app_start _ At-app

    At-digest : At bytes (words_end + 8) (to_le_bytes 4 delta.crc ++ (crc_bytes ++ rest))
    At-digest =
        let e : words_end + 4 + 4 ≡ words_end + 8 = omega arith in
        rw e at (At-word bytes (words_end + 4) 4 delta.app_end _ At-end)

    At-stored : At bytes (words_end + 12) (crc_bytes ++ rest)
    At-stored =
        let e : words_end + 8 + 4 ≡ words_end + 12 = omega arith in
        rw e at (At-word bytes (words_end + 8) 4 delta.crc _ At-digest)

    -- The body ends where the stored checksum begins.
    body_length : length (header_body src gen n ops delta) ≡ words_end + 12
    body_length = omega (
      arith,
      ap length At-stored.onward,
      length-drop (words_end + 12) bytes,
      At-stored.inside,
      ap length body_first,
      length-append (header_body src gen n ops delta) (crc_bytes ++ rest),
    )

    take_body : take (words_end + 12) bytes ≡ header_body src gen n ops delta
    take_body =
        rw (← body_length, body_first)
          (take-append_exact (header_body src gen n ops delta) (crc_bytes ++ rest))

    pub used_length : words_end + 12 + 4 ≡ length (header_slot src gen n ops delta)
    unfolding header_slot
    used_length = omega (
      arith,
      body_length,
      length-append (header_body src gen n ops delta) crc_bytes,
      length-to_le_bytes 4 (crc32 (header_body src gen n ops delta)),
    )

    -- A header that was written for a legal commit, from a source whose rows have the geometry's length,
    -- is read back whole in the slot of its generation's parity, whatever bytes follow it: the
    -- generation, the count, every redo op with the place of its payload, the units of the delta, and
    -- the number of bytes used.
    pub parse_header_at-header_slot :
        (at slot : ℕ)
        → gen % 2 ≡ slot
        → parse_header_at bytes at geo slot file_len ≡ some (parsed src at gen n ops delta)
    unfolding parse_header_at parsed checked
    parse_header_at-header_slot at slot parity =
        let sized = λ (s : ℕ). length-row_record src s v in
        let right : (gen % 2 == slot) ≡ true = ground arith in
        let product : ltb (n / block * unit_len geo) (2 ^ 64) ≡ true =
          lt→ltb _ _ (omega (arith, c.units_there, c.file_fits)) in
        let total : ltb (n / block * unit_len geo + unit_at geo 0) (2 ^ 64) ≡ true =
          lt→ltb _ _ (omega (arith, c.units_there, c.file_fits)) in
        let there : leb (n / block * unit_len geo + unit_at geo 0) file_len ≡ true =
          le→leb _ _ c.units_there in
        let few : leb (length ops) max_ops ≡ true = le→leb _ _ c.few_ops in
        let few' : leb (length delta.mat) max_ops ≡ true = le→leb _ _ c.few_mat in
        let sum = crc32 (header_body src gen n ops delta) in
        let whole : (sum == sum) ≡ true = ground arith in
        rw (
          At-read bytes 0 8 gen _ c.gen_fits At-gen,
          right,
          At-read bytes 8 8 n _ c.n_fits At-n,
          product,
          total,
          there,
          At-read bytes tail_end 4 (length ops) _ (omega (arith, c.few_ops)) At-tail,
          few,
          parse_groups_lem src bytes at (op_size geo) sized ops n (tail_end + 4) after_groups
              c.groups_legal At-groups,
          At-read bytes groups_end 4 (length delta.mat) _ (omega (arith, c.few_mat)) At-mat,
          few',
          parse_words_lem bytes delta.mat (groups_end + 4) after_words c.mat_fits At-words,
          At-read bytes words_end 4 delta.app_start _ c.start_fits At-app,
          At-read bytes (words_end + 4) 4 delta.app_end _ c.end_fits At-end,
          At-read bytes (words_end + 8) 4 delta.crc _ c.crc_fits At-digest,
          At-read bytes (words_end + 12) 4 sum _ (crc32-lt (header_body src gen n ops delta))
              At-stored,
          take_body,
          whole,
          used_length,
        )
