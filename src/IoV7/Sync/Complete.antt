-- ===== src/IoV7/Sync/Complete.antt =====
-- What a sync of turbovec/src/io_v7.rs that runs to its end leaves in the file.
use turbovec.Common.{
  ℕ, suc, ◌+◌, ◌-◌, ◌*◌, ◌/◌, ◌%◌, ◌^◌, ◌≤◌, ◌<◌, ◌≡◌, refl, true, false, Option, some, List, [],
  ◌∷◌, ◌++◌, length, length-append, ◌⊎◌, inl, inr, mem, mem-append, All-map, ltb, leb, Bool-cases,
  Option-cases, min, arith, map, to_le_bytes, ◌==◌,
}
use mathlib.Core.List.{flatten}
use turbovec.Pack.Geometry.{block}
use turbovec.IoV7.Geo.{max_ops, hdr_len, hdr_at, unit_len, unit_at, sb_len}
use turbovec.IoV7.Digest.{DeltaDigest, push, push_all, new, unit_chunks}
use turbovec.IoV7.Header.{SyncSource, geo_of, header_slot, ParsedHdr}
use turbovec.IoV7.Header.Legal.{parsed}
use turbovec.IoV7.Header.RoundTrip.{parse_header_at-header_slot}
use turbovec.IoV7.Image.{write_at, length-write_at}
use turbovec.IoV7.Sync.{
  SyncCursor, SyncPlan, unit_bytes, wiped, plan_groups, plan_delta, plan_units, plan_batch,
  plan_incremental, written, materialize, carried_slots, apply_batch, apply_batches, run_sync,
  parse_header_slot, get_range, feed_units, delta_verified, range, choose_header,
}
use turbovec.IoV7.Sync.Commit.{IsPlannable, plan-IsCommit, plan-hdr_len}
use turbovec.IoV7.Sync.Torn.{Torn, Torn-get, apply_batch-Torn, apply_batches-flatten}
use turbovec.IoV7.Sync.Written.{
  write_units-ops, write_units-digest, length-range, mem-range, of_mem-range,
}
use turbovec.IoV7.Sync.Chosen.{materialize-lt}
use turbovec.IoV7.Sync.Crash.{torn-parse_header_slot}
use turbovec.IoV7.Sync.Writes.{IsWrite, slot_before_unit, plan_incremental-IsWrite}
use turbovec.IoV7.Sync.Applied.{
  batch, apply_batch-unit, apply_batch-hdr, newest_verified-newer, newest_verified-older, same_slot,
  get_range-le, saturated, unit_end, length-apply_batch, write_end,
}

module _ (src : SyncSource) (cursor : SyncCursor) (pending fresh : List ℕ)
    (p : IsPlannable src cursor pending fresh) (clear_target : Option ℕ) (plan : SyncPlan)
    (made : plan_incremental src cursor pending fresh clear_target ≡ some plan) (file : List ℕ)
    (whole : unit_at (geo_of src) (cursor.n_synced / block) ≤ length file) where
  abbrev pub final : List ℕ
  final = (run_sync file plan).0

  abbrev header : List ℕ
  header =
      header_slot src (cursor.gen + 1) src.n_vectors (plan_groups src cursor pending fresh)
        (plan_delta src cursor pending fresh)

  abbrev gone : List ℕ
  gone = written src cursor pending fresh

  -- After the bytes of a rejected header are wiped, if any, the units are written and then the header.
  plan_batch-batch :
      plan_batch src cursor pending fresh
      ≡ batch src p.source cursor.gen header (plan-hdr_len src cursor pending fresh p) gone
  unfolding plan_batch plan_units
  plan_batch-batch = rw (write_units-ops src gone _) refl

  last_batch :
      (start : List ℕ) × (length file ≤ length start)
      × (final
          ≡ apply_batch start
              (batch src p.source cursor.gen header (plan-hdr_len src cursor pending fresh p) gone))
  unfolding run_sync apply_batch apply_batches plan_incremental
  last_batch =
      let blocks = min (cursor.n_synced / block) (src.n_vectors / block) in
      let few : ltb max_ops (length (carried_slots blocks pending fresh)) ≡ false =
        ground (arith, p.few_carried) in
      elim (Option-cases clear_target) [
        | inl e ↦
            let same : plan.batches ≡ plan_batch src cursor pending fresh ∷ [] =
              cc (e, few, made) in
            (file, omega arith, rw (same, plan_batch-batch) refl)
        | inr (used, e) ↦
            let at = hdr_at (geo_of src) ((cursor.gen + 1) % 2) in
            let bytes = wiped src (cursor.gen + 1) used in
            let wipe : ℕ × List ℕ = (at, bytes) in
            let same : plan.batches ≡ (wipe ∷ []) ∷ plan_batch src cursor pending fresh ∷ [] =
              cc (e, few, made) in
            (
              write_at file at bytes,
              (length-write_at file at bytes).1,
              rw (same, plan_batch-batch) refl,
            )
      ]

  -- Every unit that the plan writes is in the file.
  pub final-unit :
      (b : ℕ)
      → mem gone b ≡ true
      → get_range final (unit_at (geo_of src) b) (unit_len (geo_of src)) ≡ some (unit_bytes src b)
  final-unit b m =
      let (start, longer, e) = last_batch in
      rw e (
        apply_batch-unit src p.source cursor.gen header (plan-hdr_len src cursor pending fresh p)
          gone start b m)

  -- The file has room for every block of the new commit.
  pub final-units :
      src.n_vectors / block * unit_len (geo_of src) + unit_at (geo_of src) 0 ≤ length final
  final-units =
      let geo = geo_of src in
      let old = cursor.n_synced / block in
      let new_blocks = src.n_vectors / block in
      let (start, longer, e) = last_batch in
      let ops =
        batch src p.source cursor.gen header (plan-hdr_len src cursor pending fresh p) gone in
      let (grows, same) = Torn-get ops start (apply_batch start ops) (apply_batch-Torn ops start) in
      let room : unit_at geo old ≤ length final = rw e (omega arith) in
      let last : (new_blocks ≤ old)
          ⊎ ((k : ℕ) × (new_blocks ≡ suc k)
              × (hdr_at geo 2 + k * unit_len geo + unit_len geo ≤ length final)) =
        elim (Bool-cases (leb new_blocks old)) [
          | inl le ↦ inl (ground arith)
          | inr lt ↦
              let k = new_blocks - 1 in
              let inside : mem gone k ≡ true = ground (
                arith,
                mem-append (materialize (min old new_blocks) pending fresh)
                    (range old (new_blocks - old)) k,
                mem-range (new_blocks - old) old k (ground arith) (ground arith),
              ) in
              inr (
                k,
                ground arith,
                get_range-le final (unit_at geo k) (unit_len geo) (unit_bytes src k)
                    (final-unit k inside),
              )
        ] in
      unit_end (hdr_at geo 2) (unit_len geo) old new_blocks (length final) last room

  -- The file grows to the end of the last block at most.
  pub final-sized : length file < 2 ^ 64 → length final < 2 ^ 64
  unfolding run_sync
  final-sized h =
      let geo = geo_of src in
      let old = cursor.n_synced / block in
      let new_blocks = src.n_vectors / block in
      let bound = 2 ^ 64 - 1 in
      let ends = λ (op : ℕ × List ℕ) (w : IsWrite geo gone (cursor.gen + 1) op).
        write_end geo old new_blocks (cursor.gen + 1) bound op gone
          (λ b m. ground (
            arith,
            mem-append (materialize (min old new_blocks) pending fresh)
                (range old (new_blocks - old)) b,
            materialize-lt (min old new_blocks) pending fresh b,
            of_mem-range (new_blocks - old) old b,
          ))
          (omega arith) (omega (arith, p.image_fits)) w in
      let all =
        All-map (IsWrite geo gone (cursor.gen + 1)) (λ op. op.0 + length op.1 ≤ bound)
          (flatten plan.batches) ends
          (plan_incremental-IsWrite src cursor pending fresh p clear_target plan made) in
      let short : length final ≤ bound =
        rw (apply_batches-flatten plan.batches file)
          (length-apply_batch (flatten plan.batches) file bound (omega arith) all) in
      omega arith

  module _ (file_fits : length file < 2 ^ 64)
      (digest_fits : 8 + length gone * (4 + unit_len (geo_of src)) < 2 ^ 64) where
    abbrev new_slot : ℕ
    new_slot = (cursor.gen + 1) % 2

    abbrev pub committed : ParsedHdr
    committed =
        parsed src (hdr_at (geo_of src) new_slot) (cursor.gen + 1) src.n_vectors
          (plan_groups src cursor pending fresh) (plan_delta src cursor pending fresh)

    -- After a sync that runs to its end, the slot of the new generation parses to the new commit.
    pub run_sync-parse_header_slot :
        parse_header_slot final (geo_of src) new_slot (length final) ≡ some committed
    unfolding parse_header_slot
    run_sync-parse_header_slot =
        let geo = geo_of src in
        let (start, longer, e) = last_batch in
        let fits = plan-hdr_len src cursor pending fresh p in
        let room : hdr_at geo new_slot + hdr_len geo ≤ length start = omega (
          arith,
          slot_before_unit (sb_len geo) (hdr_len geo) new_slot (hdr_len geo)
              (cursor.n_synced / block * unit_len geo) (omega arith) (omega arith),
        ) in
        let (rest, there) = apply_batch-hdr src p.source cursor.gen header fits gone start room in
        let there' : get_range final (hdr_at geo new_slot) (hdr_len geo) ≡ some (header ++ rest) =
          rw e there in
        rw (there', parse_header_slot)
          (parse_header_at-header_slot src (cursor.gen + 1) src.n_vectors
            (plan_groups src cursor pending fresh) (plan_delta src cursor pending fresh) rest
            (length final) p.source
            (plan-IsCommit src cursor pending fresh p (length final) final-units
              (final-sized file_fits))
            (hdr_at geo new_slot) new_slot refl)

    final-feed_units :
        (bs : List ℕ) (d : DeltaDigest)
        → ((b : ℕ) → mem bs b ≡ true → mem gone b ≡ true)
        → feed_units final (geo_of src) d bs
          ≡ some (push_all d (unit_chunks (map (λ b. (b, unit_bytes src b)) bs)))
    unfolding feed_units push_all unit_chunks
    final-feed_units [] d out = refl
    final-feed_units (b ∷ bs) d out =
        let there = final-unit b (out b (ground arith)) in
        rw (there, feed_units)
          (final-feed_units bs (push (push d (to_le_bytes 4 b)) (unit_bytes src b))
            (λ a m. out a (ground arith)))

    -- After a sync that runs to its end, the delta of the new commit verifies.
    pub run_sync-delta_verified : delta_verified final (geo_of src) committed ≡ true
    unfolding delta_verified parsed plan_delta plan_units
    run_sync-delta_verified =
        let old = cursor.n_synced / block in
        let new_blocks = src.n_vectors / block in
        let mat = materialize (min old new_blocks) pending fresh in
        let app = range old (new_blocks - old) in
        let n = length mat + (new_blocks - old) in
        let size : length (mat ++ app) ≡ n =
          omega (arith, length-append mat app, length-range (new_blocks - old) old) in
        let parts : length mat + length app ≡ n =
          omega (arith, length-range (new_blocks - old) old) in
        let total =
          saturated n (4 + unit_len (geo_of src)) (rw size at digest_fits) (omega arith) in
        let start =
          push (new (8 + n * (4 + unit_len (geo_of src)))) (to_le_bytes 8 (cursor.gen + 1)) in
        let fed = final-feed_units gone start (λ b m. m) in
        rw (parts, total, fed, write_units-digest src gone start, delta_verified) (ground arith)

    -- Let a file shorter than 2^64 bytes hold every block of the commit before, and a header of its generation
    -- in its slot. After a planned sync runs to its end over it, a load takes the new commit: the header of
    -- the plan parses, its units are there, and it wins over the old one; where the numbers fit the fields.
    pub run_sync-choose_header :
        (h : ParsedHdr)
        → parse_header_slot file (geo_of src) (cursor.gen % 2) (length file) ≡ some h
        → h.gen ≡ cursor.gen
        → choose_header final (geo_of src) ≡ some committed
    unfolding choose_header parsed run_sync
    run_sync-choose_header h e g =
        let geo = geo_of src in
        let torn : Torn (flatten plan.batches) file final =
          rw (apply_batches-flatten plan.batches file)
            (apply_batch-Torn (flatten plan.batches) file) in
        let old =
          torn-parse_header_slot src cursor pending fresh p clear_target plan made file final torn h
            e in
        let newer : h.gen < committed.gen = omega arith in
        elim (Bool-cases (cursor.gen % 2 == 0)) [
          | inl z ↦
              let here : cursor.gen % 2 ≡ 0 = ground arith in
              let there : new_slot ≡ 1 = omega arith in
              newest_verified-newer final geo (parse_header_slot final geo 0 (length final))
                (parse_header_slot final geo 1 (length final)) h committed
                (same_slot final geo (cursor.gen % 2) _ (length final) h here old)
                (same_slot final geo new_slot _ (length final) committed there
                  run_sync-parse_header_slot)
                newer run_sync-delta_verified
          | inr z ↦
              let here : cursor.gen % 2 ≡ 1 = ground arith in
              let there : new_slot ≡ 0 = omega arith in
              newest_verified-older final geo (parse_header_slot final geo 0 (length final))
                (parse_header_slot final geo 1 (length final)) h committed
                (same_slot final geo (cursor.gen % 2) _ (length final) h here old)
                (same_slot final geo new_slot _ (length final) committed there
                  run_sync-parse_header_slot)
                newer run_sync-delta_verified
        ]
