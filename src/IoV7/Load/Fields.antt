-- ===== src/IoV7/Load/Fields.antt =====
-- `parse_superblock` reads back what `superblock` of turbovec/src/io_v7.rs wrote.
use turbovec.Common.{
  ℕ, ◌+◌, ◌-◌, ◌*◌, ◌/◌, ◌%◌, ◌^◌, ◌≤◌, ◌<◌, ◌≡◌, refl, sym, ap, ◌∙◌, inl, inr, Bool, true, false,
  not, ◌&&◌, ◌||◌, some, List, [], ◌∷◌, ◌++◌, length, length-append, length-drop, All, take,
  take-append_exact, leb, le→leb, ◌==◌, if◌then◌else◌, to_le_bytes, length-to_le_bytes, Bool-cases,
  arith,
}
use mathlib.Core.List.{append_assoc}
use turbovec.IoV7.Crc.{crc32, crc32-lt}
use turbovec.IoV7.Geo.{max_ops, row_bytes, layout_planes}
use turbovec.IoV7.Header.{SyncSource, geo_of, words}
use turbovec.IoV7.Header.Reading.{
  At, At-start, At-skip, At-read, At-word, length-words, parse_words_lem,
}
use turbovec.IoV7.Full.{sb_head, superblock_body, superblock}
use turbovec.IoV7.Full.Pieces.{IsCodebook}
use turbovec.IoV7.Load.{planes_geom_ok, check_codebook, parse_superblock}
use turbovec.IoV7.Load.Head.{IsHead, parse_head-sb_head, match_words-words}
use turbovec.Index.{max_dim}

words-append : (xs ys : List ℕ) → words (xs ++ ys) ≡ words xs ++ words ys
unfolding words
words-append [] ys = refl
words-append (x ∷ xs) ys =
    rw (words-append xs ys) (sym (append_assoc (to_le_bytes 4 x) (words xs) (words ys)))

All-both : (p : ℕ → Type 0) (xs ys : List ℕ) → All p xs → All p ys → All p (xs ++ ys)
All-both p [] ys a b = b
All-both p (x ∷ xs) ys (h, a) b = (h, All-both p xs ys a b)

module _ (codebook : ℕ → ℕ → List ℕ × List ℕ) (calibration_ok : List ℕ → List ℕ → Bool) where
  -- A source that a load accepts: its fields are in range, its codebook is the canonical one, and its
  -- calibration is valid.
  pub record IsLoadable (src : SyncSource) : Type 0 where
    pub head : IsHead src
    pub tables : IsCodebook src
    pub dim : ((src.dim == 0) || ((src.dim % 8 == 0) && leb src.dim max_dim)) ≡ true
    pub no_rows : (not ((src.dim == 0) && not (src.n_vectors == 0))) ≡ true
    pub canonical :
        (src.dim == 0) ≡ false → codebook src.bit_width src.dim ≡ (src.boundaries, src.centroids)
    pub boundary_words : All (λ w. w < 2 ^ 32) src.boundaries
    pub centroid_words : All (λ w. w < 2 ^ 32) src.centroids
    pub shift_words : All (λ w. w < 2 ^ 32) src.tqplus_shift
    pub scale_words : All (λ w. w < 2 ^ 32) src.tqplus_scale
    pub n_calib : ((length src.tqplus_shift == 0) || (length src.tqplus_shift == src.dim)) ≡ true
    pub calibration : calibration_ok src.tqplus_shift src.tqplus_scale ≡ true
    pub planes :
        not (
          (src.layout == layout_planes)
          && (not (src.dim == 0) && not (planes_geom_ok src.bit_width (row_bytes (geo_of src)))))
        ≡ true

  module _ (src : SyncSource) (nonce : ℕ) (rest : List ℕ) (v : IsLoadable src) where
    abbrev raw : List ℕ
    raw = superblock src nonce ++ rest

    abbrev crc_bytes : List ℕ
    crc_bytes = to_le_bytes 4 (crc32 (superblock_body src nonce)) ++ rest

    abbrev calib : List ℕ
    calib = words src.tqplus_shift ++ (words src.tqplus_scale ++ crc_bytes)

    abbrev book : List ℕ
    book =
        words src.boundaries
        ++ (words src.centroids ++ (to_le_bytes 4 (length src.tqplus_shift) ++ calib))

    abbrev after_head : List ℕ
    after_head = to_le_bytes 4 src.dim ++ (to_le_bytes 8 nonce ++ (to_le_bytes 4 max_ops ++ book))

    fields : raw ≡ sb_head src ++ after_head
    unfolding superblock superblock_body
    fields = simp append_assoc

    body_first : raw ≡ superblock_body src nonce ++ crc_bytes
    unfolding superblock
    body_first =
        append_assoc (superblock_body src nonce) (to_le_bytes 4 (crc32 (superblock_body src nonce)))
          rest

    abbrev sb_fixed : ℕ
    sb_fixed = if src.version == 8 then 24 else 23

    head_length : length (sb_head src) + 16 ≡ sb_fixed
    unfolding sb_head
    head_length = ground arith

    At-dim : At raw (sb_fixed - 16) after_head
    At-dim =
        let place : 0 + length (sb_head src) ≡ sb_fixed - 16 = omega (arith, head_length) in
        rw place at (At-skip raw 0 (sb_head src) after_head (rw (← fields) (At-start raw)))

    At-nonce : At raw (sb_fixed - 12) (to_le_bytes 8 nonce ++ (to_le_bytes 4 max_ops ++ book))
    At-nonce =
        let place : sb_fixed - 16 + 4 ≡ sb_fixed - 12 = omega (arith, head_length) in
        rw place at (At-word raw (sb_fixed - 16) 4 src.dim _ At-dim)

    At-ops : At raw (sb_fixed - 4) (to_le_bytes 4 max_ops ++ book)
    At-ops =
        let place : sb_fixed - 12 + 8 ≡ sb_fixed - 4 = omega (arith, head_length) in
        rw place at (At-word raw (sb_fixed - 12) 8 nonce _ At-nonce)

    At-book : At raw sb_fixed book
    At-book =
        let place : sb_fixed - 4 + 4 ≡ sb_fixed = omega (arith, head_length) in
        rw place at (At-word raw (sb_fixed - 4) 4 max_ops _ At-ops)

    abbrev book_end : ℕ
    book_end = sb_fixed + (length src.boundaries + length src.centroids) * 4

    At-tables : At raw sb_fixed (
        words (src.boundaries ++ src.centroids)
        ++ (to_le_bytes 4 (length src.tqplus_shift) ++ calib))
    At-tables =
        rw
          (
            words-append src.boundaries src.centroids,
            append_assoc (words src.boundaries) (words src.centroids)
                (to_le_bytes 4 (length src.tqplus_shift) ++ calib),
          )
          At-book

    At-count : At raw book_end (to_le_bytes 4 (length src.tqplus_shift) ++ calib)
    At-count =
        let all = src.boundaries ++ src.centroids in
        let place : sb_fixed + length (words all) ≡ book_end =
          omega (arith, length-words all, length-append src.boundaries src.centroids) in
        rw place at (At-skip raw sb_fixed (words all) _ At-tables)

    At-shift : At raw (book_end + 4) calib
    At-shift = At-word raw book_end 4 (length src.tqplus_shift) calib At-count

    abbrev shift_end : ℕ
    shift_end = book_end + 4 + length src.tqplus_shift * 4

    At-scale : At raw shift_end (words src.tqplus_scale ++ crc_bytes)
    At-scale =
        rw (length-words src.tqplus_shift) at
          (At-skip raw (book_end + 4) (words src.tqplus_shift) _ At-shift)

    abbrev scale_end : ℕ
    scale_end = shift_end + length src.tqplus_shift * 4

    At-stored : At raw scale_end crc_bytes
    At-stored =
        rw (length-words src.tqplus_scale, v.tables.calibration) at
          (At-skip raw shift_end (words src.tqplus_scale) _ At-scale)

    body_length : length (superblock_body src nonce) ≡ scale_end
    body_length = omega (
      arith,
      ap length At-stored.onward,
      length-drop scale_end raw,
      At-stored.inside,
      ap length body_first,
      length-append (superblock_body src nonce) crc_bytes,
    )

    take_body : take scale_end raw ≡ superblock_body src nonce
    take_body =
        rw (← body_length, body_first) (take-append_exact (superblock_body src nonce) crc_bytes)

    -- Whether it is compared or passed over, the codebook ends where the calibration begins.
    checked_book :
        check_codebook codebook calibration_ok raw src.bit_width src.dim sb_fixed ≡ some book_end
    unfolding check_codebook geo_of
    checked_book = elim (Bool-cases (src.dim == 0)) [
      | inl e ↦
          let place : sb_fixed + (2 * 2 ^ src.bit_width - 1) * 4 ≡ book_end =
            omega (arith, v.tables.boundaries, v.tables.centroids) in
          rw (e, place) refl
      | inr e ↦
          let all = src.boundaries ++ src.centroids in
          let place : sb_fixed + length all * 4 ≡ book_end =
            omega (arith, length-append src.boundaries src.centroids) in
          rw (e, v.canonical e)
            (match_words-words raw all sb_fixed _
                (All-both (λ w. w < 2 ^ 32) src.boundaries src.centroids v.boundary_words
                  v.centroid_words)
                At-tables
              ∙ ap some place)
    ]

    pub parse_superblock-superblock :
        nonce < 2 ^ 64
        → max_ops * (src.dim * src.bit_width / 8) ≤ length raw
        → parse_superblock codebook calibration_ok raw src.kind
          ≡ some (record {
            geo = geo_of src;
            nonce = nonce;
            tqplus_shift = src.tqplus_shift;
            tqplus_scale = src.tqplus_scale;
          })
    unfolding parse_superblock geo_of
    parse_superblock-superblock fits room =
        let head = parse_head-sb_head src after_head v.head (
          omega (
            arith,
            length-append (to_le_bytes 4 src.dim)
                (to_le_bytes 8 nonce ++ (to_le_bytes 4 max_ops ++ book)),
            length-to_le_bytes 4 src.dim,
          )) in
        let here = rw (← fields) at head in
        let big : leb (max_ops * (src.dim * src.bit_width / 8)) (length raw) ≡ true =
          le→leb _ _ room in
        let small : src.dim < 256 ^ 4 = ground (arith, v.dim) in
        let few : length src.tqplus_shift < 256 ^ 4 = ground (arith, v.n_calib, small) in
        let shifts =
          parse_words_lem raw src.tqplus_shift (book_end + 4) (words src.tqplus_scale ++ crc_bytes)
            v.shift_words At-shift in
        let scales =
          rw v.tables.calibration at
            (parse_words_lem raw src.tqplus_scale shift_end crc_bytes v.scale_words At-scale) in
        let sum = crc32 (superblock_body src nonce) in
        let whole : (sum == sum) ≡ true = ground arith in
        rw
          (
            here,
            At-read raw (sb_fixed - 16) 4 src.dim _ small At-dim,
            v.dim,
            big,
            At-read raw (sb_fixed - 12) 8 nonce _ fits At-nonce,
            At-read raw (sb_fixed - 4) 4 max_ops _ (omega arith) At-ops,
            checked_book,
            At-read raw book_end 4 (length src.tqplus_shift) _ few At-count,
            v.n_calib,
            shifts,
            scales,
            v.calibration,
            At-read raw scale_end 4 sum rest (crc32-lt (superblock_body src nonce)) At-stored,
            take_body,
            whole,
            v.planes,
          )
          refl
