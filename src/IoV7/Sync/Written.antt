-- ===== src/IoV7/Sync/Written.antt =====
-- The units that a plan of turbovec/src/io_v7.rs writes, and their digest.
use turbovec.Common.{
  ℕ, zero, suc, ◌+◌, ◌-◌, ◌*◌, ◌/◌, ◌≡◌, refl, ap, Option, none, some, List, [], ◌∷◌, ◌++◌, length,
  length-append, map, mem, ◌≤◌, ◌<◌, true, get_or, ltb, if◌then◌else◌, to_le_bytes,
  length-to_le_bytes, min, arith,
}
use turbovec.Pack.Geometry.{block}
use turbovec.IoV7.Geo.{unit_len, unit_at}
use turbovec.IoV7.Digest.{DeltaDigest, push, push_all, unit_chunks, units_len, delta_digest}
use turbovec.IoV7.Header.{SyncSource, geo_of}
use turbovec.IoV7.Header.Legal.{IsSource, has_ids}
use turbovec.IoV7.Sync.{
  SyncCursor, unit_scales, unit_ids, unit_bytes, write_units, range, written, materialize,
  plan_units, plan_delta,
}

length-unit_scales : (src : SyncSource) (lanes r : ℕ) → length (unit_scales src r lanes) ≡ lanes * 4
unfolding unit_scales
length-unit_scales src zero r = refl
length-unit_scales src (suc lanes) r =
    let v = if ltb r src.n_vectors then get_or src.scales r 0 else 0 in
    omega (
      arith,
      length-append (to_le_bytes 4 v) (unit_scales src (suc r) lanes),
      length-to_le_bytes 4 v,
      length-unit_scales src lanes (suc r),
    )

length-unit_ids : (ids : List ℕ) (n lanes r : ℕ) → length (unit_ids ids n r lanes) ≡ lanes * 8
unfolding unit_ids
length-unit_ids ids n zero r = refl
length-unit_ids ids n (suc lanes) r =
    let v = if ltb r n then get_or ids r 0 else 0 in
    omega (
      arith,
      length-append (to_le_bytes 8 v) (unit_ids ids n (suc r) lanes),
      length-to_le_bytes 8 v,
      length-unit_ids ids n lanes (suc r),
    )

length-ids_part :
    (o : Option (List ℕ)) (n from : ℕ)
    → length (elim o as (λ _. List ℕ) [ none ↦ [] | some ids ↦ unit_ids ids n from block ])
      ≡ (if has_ids o then block * 8 else 0)
length-ids_part none n from = refl
length-ids_part (some ids) n from = length-unit_ids ids n block from

module _ (src : SyncSource) (v : IsSource src) where
  pub length-unit_bytes : (b : ℕ) → length (unit_bytes src b) ≡ unit_len (geo_of src)
  unfolding unit_bytes geo_of
  length-unit_bytes b =
      let from = b * block in
      let codes = src.unit_codes from (from + block) in
      let scales = unit_scales src from block in
      let ids = elim src.ids as (λ _. List ℕ) [
        | none ↦ []
        | some ids ↦ unit_ids ids src.n_vectors from block
      ] in
      ground (
        arith,
        v.units b,
        v.with_ids,
        length-append codes (scales ++ ids),
        length-append scales ids,
        length-unit_scales src block from,
        length-ids_part src.ids src.n_vectors from,
      )

  abbrev pub body : ℕ → ℕ × List ℕ
  body b = (b, unit_bytes src b)

  units_len-body :
      (bs : List ℕ) (n : ℕ)
      → units_len n (map body bs) ≡ n + length bs * (4 + unit_len (geo_of src))
  unfolding units_len
  units_len-body [] n = omega arith
  units_len-body (b ∷ bs) n =
      omega (arith, length-unit_bytes b, units_len-body bs (n + (4 + length (unit_bytes src b))))

pub write_units-digest :
    (src : SyncSource) (bs : List ℕ) (d : DeltaDigest)
    → (write_units src d bs).0 ≡ push_all d (unit_chunks (map (λ b. (b, unit_bytes src b)) bs))
unfolding write_units push_all unit_chunks
write_units-digest src [] d = refl
write_units-digest src (b ∷ bs) d =
    write_units-digest src bs (push (push d (to_le_bytes 4 b)) (unit_bytes src b))

pub write_units-ops :
    (src : SyncSource) (bs : List ℕ) (d : DeltaDigest)
    → (write_units src d bs).1 ≡ map (λ b. (unit_at (geo_of src) b, unit_bytes src b)) bs
unfolding write_units
write_units-ops src [] d = refl
write_units-ops src (b ∷ bs) d =
    rw (write_units-ops src bs (push (push d (to_le_bytes 4 b)) (unit_bytes src b)))

pub length-range : (k from : ℕ) → length (range from k) ≡ k
unfolding range
length-range zero from = refl
length-range (suc k) from = ap suc (length-range k (suc from))

pub mem-range : (k from a : ℕ) → from ≤ a → a < from + k → mem (range from k) a ≡ true
unfolding range
mem-range zero from a lo hi = absurd (omega arith)
mem-range (suc k) from a lo hi = ground (arith, mem-range k (suc from) a)

pub of_mem-range : (k from a : ℕ) → mem (range from k) a ≡ true → a < from + k
unfolding range
of_mem-range zero from a h = absurd (ground arith)
of_mem-range (suc k) from a h = ground (arith, of_mem-range k (suc from) a)

-- The digest that the header of a plan stores, folded while the units are built, is the digest of the
-- plan's generation and of the units that it writes, each of which the source gives in its full length.
pub plan_delta-delta_digest :
    (src : SyncSource) (cursor : SyncCursor) (pending fresh : List ℕ)
    → IsSource src
    → (plan_delta src cursor pending fresh).crc
      ≡ delta_digest
          (cursor.gen + 1)
          (map (λ b. (b, unit_bytes src b)) (written src cursor pending fresh))
unfolding plan_delta plan_units delta_digest
plan_delta-delta_digest src cursor pending fresh v =
    let bs = written src cursor pending fresh in
    let chosen =
      materialize (min (cursor.n_synced / block) (src.n_vectors / block)) pending fresh in
    let added = src.n_vectors / block - cursor.n_synced / block in
    let count : length bs ≡ length chosen + added = omega (
      arith,
      length-append chosen (range (cursor.n_synced / block) added),
      length-range added (cursor.n_synced / block),
    ) in
    let size = units_len-body src v bs 8 in rw (write_units-digest, size, count)
