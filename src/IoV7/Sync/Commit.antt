-- ===== src/IoV7/Sync/Commit.antt =====
-- The header of a plan of turbovec/src/io_v7.rs is legal, and fits its slot.
use turbovec.Common.{
  ℕ, zero, suc, ◌+◌, ◌*◌, ◌/◌, ◌%◌, ◌^◌, ◌≤◌, ◌<◌, List, [], length, All_of_mem, min, arith, map,
}
use turbovec.Pack.Geometry.{block}
use turbovec.IoV7.Crc.{crc32-lt}
use turbovec.IoV7.Digest.Streaming.{delta_digest-crc32}
use turbovec.IoV7.Geo.{max_ops, row_bytes, id_bytes, op_size, hdr_len, unit_len, unit_at}
use turbovec.IoV7.Header.{SyncSource, geo_of, header_slot}
use turbovec.IoV7.Header.Legal.{IsSource, IsCommit}
use turbovec.IoV7.Header.RoundTrip.{used_length}
use turbovec.IoV7.Sync.{
  SyncCursor, unit_bytes, materialize, carried_slots, plan_groups, plan_delta, written,
}
use turbovec.IoV7.Sync.Chosen.{few_materialize, materialize-lt}
use turbovec.IoV7.Sync.Grouped.{carried-IsGroup, groups_len-carried}
use turbovec.IoV7.Sync.Written.{plan_delta-delta_digest}

-- What a sync relies on: the numbers fit the fields of the format, and no more slots are pending, or
-- carried, than one header can hold.
pub record IsPlannable (src : SyncSource) (cursor : SyncCursor) (pending fresh : List ℕ)
    : Type 0 where
  pub source : IsSource src
  pub gen_fits : cursor.gen + 1 < 2 ^ 64
  pub n_fits : src.n_vectors < 2 ^ 64
  pub image_fits : src.n_vectors / block * unit_len (geo_of src) + unit_at (geo_of src) 0 < 2 ^ 64
  pub old_fits : cursor.n_synced / block < 2 ^ 32
  pub new_fits : src.n_vectors / block < 2 ^ 32
  pub few_pending : length pending ≤ max_ops
  pub few_carried :
      length (carried_slots (min (cursor.n_synced / block) (src.n_vectors / block)) pending fresh)
      ≤ max_ops

pub mul_le : (a b c : ℕ) → a ≤ b → a * c ≤ b * c
mul_le a b zero h = omega arith
mul_le a b (suc c) h = omega (arith, mul_le a b c h)

module _ (src : SyncSource) (cursor : SyncCursor) (pending fresh : List ℕ)
    (p : IsPlannable src cursor pending fresh) where
  abbrev blocks : ℕ
  blocks = min (cursor.n_synced / block) (src.n_vectors / block)

  crc_fits : (plan_delta src cursor pending fresh).crc < 2 ^ 32
  crc_fits =
      rw
        (
          plan_delta-delta_digest src cursor pending fresh p.source,
          delta_digest-crc32 (cursor.gen + 1)
              (map (λ b. (b, unit_bytes src b)) (written src cursor pending fresh)),
        )
        (crc32-lt _)

  pub plan-IsCommit :
      (file_len : ℕ)
      → src.n_vectors / block * unit_len (geo_of src) + unit_at (geo_of src) 0 ≤ file_len
      → file_len < 2 ^ 64
      → IsCommit src
          (cursor.gen + 1)
          src.n_vectors
          (plan_groups src cursor pending fresh)
          (plan_delta src cursor pending fresh)
          file_len
  unfolding plan_groups plan_delta
  plan-IsCommit file_len there fits = record {
    gen_fits = p.gen_fits;
    n_fits = p.n_fits;
    few_ops =
        let (len, few) = groups_len-carried blocks pending fresh 0 in
        omega (arith, few, p.few_carried);
    groups_legal =
        carried-IsGroup blocks pending fresh src.n_vectors (omega (arith, p.new_fits))
          (omega arith);
    few_mat = omega (arith, few_materialize blocks pending fresh, p.few_pending);
    mat_fits =
        All_of_mem (λ b. b < 2 ^ 32) (materialize blocks pending fresh)
          (λ b m. omega (arith, materialize-lt blocks pending fresh b m, p.old_fits));
    start_fits = p.old_fits;
    end_fits = p.new_fits;
    crc_fits = crc_fits;
    units_there = there;
    file_fits = fits;
  }

  -- The header of a plan fits its slot, where the numbers fit the fields.
  pub plan-hdr_len :
      length (
        header_slot src
          (cursor.gen + 1)
          src.n_vectors
          (plan_groups src cursor pending fresh)
          (plan_delta src cursor pending fresh))
      ≤ hdr_len (geo_of src)
  unfolding plan_groups plan_delta
  plan-hdr_len =
      let geo = geo_of src in
      let file_len = src.n_vectors / block * unit_len geo + unit_at geo 0 in
      let c = plan-IsCommit file_len (omega arith) p.image_fits in
      let used =
        used_length src (cursor.gen + 1) src.n_vectors (plan_groups src cursor pending fresh)
          (plan_delta src cursor pending fresh) [] file_len p.source c in
      let (len, few) = groups_len-carried blocks pending fresh (op_size geo) in
      let tail =
        mul_le (src.n_vectors % block) 31 (row_bytes geo + 4 + id_bytes geo 1) (omega arith) in
      let ops =
        mul_le (length (carried_slots blocks pending fresh)) max_ops (5 + op_size geo)
          p.few_carried in
      omega (arith, used, len, tail, ops, few_materialize blocks pending fresh, p.few_pending)
