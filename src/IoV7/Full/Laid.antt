-- ===== src/IoV7/Full/Laid.antt =====
-- A whole image (turbovec/src/io_v7.rs) has the length that `image_len` says, and loads.
use turbovec.Common.{
  ℕ, ◌+◌, ◌-◌, ◌*◌, ◌/◌, ◌%◌, ◌^◌, ◌≤◌, ◌<◌, ◌≡◌, refl, ap, ◌∙◌, true, none, some, List, [], ◌++◌,
  length, length-append, length-replicate, length-drop, replicate, to_le_bytes, arith,
}
use mathlib.Core.List.{append_assoc}
use turbovec.Pack.Geometry.{block}
use turbovec.IoV7.Crc.{crc32-lt}
use turbovec.IoV7.Digest.{delta_digest, new, push, push_all, finish, unit_chunks, units_len}
use turbovec.IoV7.Digest.Streaming.{delta_digest-crc32}
use turbovec.IoV7.Geo.{row_bytes, id_bytes, sb_len, hdr_len, hdr_at, unit_at, unit_len, full_len}
use turbovec.IoV7.Header.{SyncSource, geo_of, header_slot, ParsedHdr}
use turbovec.IoV7.Header.Reading.{groups_len, At, At-start, At-skip}
use turbovec.IoV7.Header.Legal.{IsSource, IsCommit, parsed}
use turbovec.IoV7.Header.RoundTrip.{used_length, parse_header_at-header_slot}
use turbovec.IoV7.Sync.{
  unit_bytes, range, get_range, parse_header_slot, delta_verified, feed_units, choose_header,
  newest_verified, verified, saturating,
}
use turbovec.IoV7.Sync.Commit.{mul_le}
use turbovec.IoV7.Sync.Written.{length-range}
use turbovec.IoV7.Full.{superblock, units_of, write_blocks, no_delta, write_image}
use turbovec.IoV7.Full.Pieces.{
  IsCodebook, length-superblock, write_blocks-units_of, parse_header_at-zeros, get_range-At,
  length-units_of, At-unit,
}

-- An image of a source whose numbers fit the fields.
pub record IsImage (src : SyncSource) : Type 0 where
  pub source : IsSource src
  pub codebook : IsCodebook src
  pub n_fits : src.n_vectors < 2 ^ 64
  pub image_fits : src.n_vectors / block * unit_len (geo_of src) + unit_at (geo_of src) 0 < 2 ^ 64

module _ (src : SyncSource) (nonce : ℕ) (i : IsImage src) where
  abbrev image : List ℕ
  image = write_image src 0 nonce

  abbrev h : List ℕ
  h = header_slot src 0 src.n_vectors [] (no_delta 0)

  abbrev n_blocks : ℕ
  n_blocks = src.n_vectors / block

  abbrev zeros : ℕ → List ℕ
  zeros n = replicate n 0

  pub empty-IsCommit :
      (file_len : ℕ)
      → n_blocks * unit_len (geo_of src) + unit_at (geo_of src) 0 ≤ file_len
      → file_len < 2 ^ 64
      → IsCommit src 0 src.n_vectors [] (no_delta 0) file_len
  empty-IsCommit file_len there fits = record {
    gen_fits = omega arith;
    n_fits = i.n_fits;
    few_ops = omega arith;
    groups_legal = tt;
    few_mat = omega arith;
    mat_fits = tt;
    start_fits = omega arith;
    end_fits = omega arith;
    crc_fits = rw (delta_digest-crc32 0 []) (crc32-lt _);
    units_there = there;
    file_fits = fits;
  }

  pub header_room : length h ≤ hdr_len (geo_of src)
  unfolding groups_len
  header_room =
      let geo = geo_of src in
      let file_len = n_blocks * unit_len geo + unit_at geo 0 in
      let c = empty-IsCommit file_len (omega arith) i.image_fits in
      let tail =
        mul_le (src.n_vectors % block) 31 (row_bytes geo + 4 + id_bytes geo 1) (omega arith) in
      omega (arith, used_length src 0 src.n_vectors [] (no_delta 0) [] file_len i.source c, tail)

  At-header : At image (sb_len (geo_of src)) (
      h
      ++ (zeros (hdr_len (geo_of src) - length h)
          ++ (zeros (hdr_len (geo_of src)) ++ write_blocks n_blocks src 0 n_blocks)))
  unfolding write_image
  At-header =
      let rest =
        h
        ++ (zeros (hdr_len (geo_of src) - length h)
            ++ (zeros (hdr_len (geo_of src)) ++ write_blocks n_blocks src 0 n_blocks)) in
      let start : 0 + length (superblock src nonce) ≡ sb_len (geo_of src) =
        omega (arith, length-superblock src nonce i.codebook) in
      rw start at (
        At-skip (superblock src nonce ++ rest) 0 (superblock src nonce) rest
          (At-start (superblock src nonce ++ rest)))

  first_slot : length (h ++ zeros (hdr_len (geo_of src) - length h)) ≡ hdr_len (geo_of src)
  first_slot = omega (
    arith,
    header_room,
    length-append h (zeros (hdr_len (geo_of src) - length h)),
    length-replicate {A = ℕ} (hdr_len (geo_of src) - length h) 0,
  )

  At-second :
      At image
        (sb_len (geo_of src) + hdr_len (geo_of src))
        (zeros (hdr_len (geo_of src)) ++ write_blocks n_blocks src 0 n_blocks)
  At-second =
      let pad = zeros (hdr_len (geo_of src) - length h) in
      let rest = zeros (hdr_len (geo_of src)) ++ write_blocks n_blocks src 0 n_blocks in
      rw first_slot at (
        At-skip image (sb_len (geo_of src)) (h ++ pad) rest
          (rw (append_assoc h pad rest) At-header))

  At-units : At image (unit_at (geo_of src) 0) (units_of src (range 0 n_blocks))
  At-units =
      let geo = geo_of src in
      let zero_row = zeros (hdr_len geo) in
      let blocks : write_blocks n_blocks src 0 n_blocks ≡ units_of src (range 0 n_blocks) =
        write_blocks-units_of n_blocks src 0 n_blocks (omega arith)
        ∙ ap (λ k. units_of src (range 0 k)) (omega arith) in
      let place : sb_len geo + hdr_len geo + length zero_row ≡ unit_at geo 0 =
        omega (arith, length-replicate {A = ℕ} (hdr_len geo) 0) in
      rw (place, blocks) at
        (At-skip image (sb_len geo + hdr_len geo) zero_row (write_blocks n_blocks src 0 n_blocks)
          At-second)

  -- A whole image has the length that `image_len` says, where the numbers fit the fields.
  pub length-write_image : length image ≡ full_len (geo_of src) src.n_vectors
  length-write_image = omega (
    arith,
    At-units.inside,
    length-drop (unit_at (geo_of src) 0) image,
    ap length At-units.onward,
    rw (length-range n_blocks 0) at (length-units_of src i.source (range 0 n_blocks)),
  )

  -- Each unit of a whole image is where the geometry has it.
  write_image-unit :
      (b : ℕ)
      → b < n_blocks
      → get_range image (unit_at (geo_of src) b) (unit_len (geo_of src)) ≡ some (unit_bytes src b)
  write_image-unit b lt =
      let geo = geo_of src in
      let place : unit_at geo 0 + (b - 0) * unit_len geo ≡ unit_at geo b =
        let z : b - 0 ≡ b = omega arith in rw z (omega arith) in
      rw place at (
        At-unit src i.source image n_blocks 0 (unit_at geo 0) b At-units (omega arith)
          (omega arith))

  -- The first slot parses to a commit of generation 0, and the second to none.
  abbrev pub fresh_commit : ParsedHdr
  fresh_commit = parsed src (hdr_at (geo_of src) 0) 0 src.n_vectors [] (no_delta 0)

  first_parses : parse_header_slot image (geo_of src) 0 (length image) ≡ some fresh_commit
  unfolding parse_header_slot
  first_parses =
      let geo = geo_of src in
      let pad = zeros (hdr_len geo - length h) in
      let rest = zeros (hdr_len geo) ++ write_blocks n_blocks src 0 n_blocks in
      let place : hdr_at geo 0 ≡ sb_len geo = omega arith in
      let there : get_range image (hdr_at geo 0) (hdr_len geo) ≡ some (h ++ pad) = rw place (
        rw first_slot at (
          get_range-At image (sb_len geo) (h ++ pad) rest
            (rw (append_assoc h pad rest) At-header))) in
      let fits : length image < 2 ^ 64 = omega (arith, length-write_image, i.image_fits) in
      rw (there, parse_header_slot)
        (parse_header_at-header_slot src 0 src.n_vectors [] (no_delta 0) pad (length image) i.source
          (empty-IsCommit (length image) (omega (arith, length-write_image)) fits) (hdr_at geo 0) 0
          refl)

  second_fails : parse_header_slot image (geo_of src) 1 (length image) ≡ none
  unfolding parse_header_slot
  second_fails =
      let geo = geo_of src in
      let zero_row = zeros (hdr_len geo) in
      let place : hdr_at geo 1 ≡ sb_len geo + hdr_len geo = omega arith in
      let size = length-replicate {A = ℕ} (hdr_len geo) 0 in
      let there : get_range image (hdr_at geo 1) (hdr_len geo) ≡ some zero_row = rw place (
        rw size at (
          get_range-At image (sb_len geo + hdr_len geo) zero_row
            (write_blocks n_blocks src 0 n_blocks) At-second)) in
      rw (there, parse_header_slot)
        (parse_header_at-zeros (hdr_len geo) (hdr_at geo 1) (length image) geo (omega arith))

  fresh_verified : delta_verified image (geo_of src) fresh_commit ≡ true
  unfolding delta_verified parsed range feed_units delta_digest push_all unit_chunks units_len
  fresh_verified =
      let total : saturating (8 + saturating (0 * (4 + unit_len (geo_of src)))) ≡ 8 =
        let none_there : 0 * (4 + unit_len (geo_of src)) ≡ 0 = omega arith in rw none_there refl in
      let same : delta_digest 0 [] ≡ finish (push (new 8) (to_le_bytes 8 0)) = refl in
      rw (delta_verified, total, same) (ground arith)

  -- A whole image, whatever its nonce, loads as the commit of generation 0 with no redo op, and each of
  -- its units is where the geometry has it; where the numbers fit the fields.
  pub write_image-choose_header :
      (choose_header image (geo_of src) ≡ some fresh_commit)
      × ((b : ℕ)
          → b < n_blocks
          → get_range image (unit_at (geo_of src) b) (unit_len (geo_of src))
            ≡ some (unit_bytes src b))
  unfolding choose_header newest_verified verified
  write_image-choose_header =
      (rw (first_parses, second_fails, fresh_verified) refl, write_image-unit)
