-- ===== src/IoV7/Sync/Writes.antt =====
-- Where the writes of a plan of turbovec/src/io_v7.rs go, and that the old commit lies elsewhere.
use turbovec.Common.{
  ℕ, zero, suc, ◌+◌, ◌-◌, ◌*◌, ◌/◌, ◌%◌, ◌≤◌, ◌<◌, ◌≡◌, refl, true, false, Option, some, List, [],
  ◌∷◌, length, length-append, length-replicate, ◌⊎◌, inl, inr, mem, All, All-append, ltb,
  Bool-cases, Option-cases, min, arith, map, to_le_bytes, length-to_le_bytes, replicate, ◌==◌,
}
use Prim.Native.Nat.{bit_xor}
use mathlib.Core.List.{flatten, append-nil}
use turbovec.Pack.Geometry.{block}
use turbovec.IoV7.Geo.{Geo, max_ops, hdr_len, hdr_at, unit_len, unit_at, sb_len}
use turbovec.IoV7.Header.{SyncSource, geo_of}
use turbovec.IoV7.Sync.{
  SyncCursor, SyncPlan, unit_bytes, wiped, plan_units, plan_batch, plan_incremental, written,
  carried_slots, clamp,
}
use turbovec.IoV7.Sync.Commit.{IsPlannable, plan-hdr_len, mul_le}
use turbovec.IoV7.Sync.Torn.{Apart}
use turbovec.IoV7.Sync.Written.{length-unit_bytes, write_units-ops}

-- A write of a plan is a whole unit of `units`, or starts the slot of the generation `gen` and stays in it.
abbrev pub IsWrite : Geo → List ℕ → ℕ → ℕ × List ℕ → Type 0
IsWrite geo units gen (off, bytes) =
    ((b : ℕ) × (mem units b ≡ true) × (off ≡ unit_at geo b) × (length bytes ≡ unit_len geo))
    ⊎ ((off ≡ hdr_at geo (gen % 2)) × (length bytes ≤ hdr_len geo))

pub All-units :
    (src : SyncSource) (units bs : List ℕ) (gen : ℕ)
    → ((b : ℕ) → length (unit_bytes src b) ≡ unit_len (geo_of src))
    → ((b : ℕ) → mem bs b ≡ true → mem units b ≡ true)
    → All
        (IsWrite (geo_of src) units gen)
        (map (λ b. (unit_at (geo_of src) b, unit_bytes src b)) bs)
All-units src units [] gen n h = tt
All-units src units (b ∷ bs) gen n h = (
  inl (b, h b (ground arith), refl, n b),
  All-units src units bs gen n (λ a m. h a (ground arith)),
)

length-wiped :
    (src : SyncSource) (gen used : ℕ) → length (wiped src gen used) ≤ hdr_len (geo_of src)
unfolding wiped
length-wiped src gen used =
    let n = clamp used 8 (hdr_len (geo_of src)) - 8 in
    ground (
      arith,
      length-append (to_le_bytes 8 (bit_xor (gen % 2) 1)) (replicate n 0),
      length-to_le_bytes 8 (bit_xor (gen % 2) 1),
      length-replicate {A = ℕ} n 0,
    )

module _ (src : SyncSource) (cursor : SyncCursor) (pending fresh : List ℕ)
    (p : IsPlannable src cursor pending fresh) where
  abbrev units : List ℕ
  units = written src cursor pending fresh

  pub plan_batch-IsWrite :
      All (IsWrite (geo_of src) units (cursor.gen + 1)) (plan_batch src cursor pending fresh)
  unfolding plan_batch plan_units
  plan_batch-IsWrite =
      All-append (IsWrite (geo_of src) units (cursor.gen + 1))
        (plan_units src cursor pending fresh).1 _
        (rw (write_units-ops src units _)
          (All-units src units units (cursor.gen + 1) (length-unit_bytes src p.source) (λ b m. m)))
        (inr (refl, plan-hdr_len src cursor pending fresh p), tt)

  -- Where the numbers fit the fields, a plan writes nothing but whole units that its delta names, and the slot of its own generation.
  pub plan_incremental-IsWrite :
      (clear_target : Option ℕ) (plan : SyncPlan)
      → plan_incremental src cursor pending fresh clear_target ≡ some plan
      → All (IsWrite (geo_of src) units (cursor.gen + 1)) (flatten plan.batches)
  unfolding plan_incremental flatten
  plan_incremental-IsWrite clear_target plan h =
      let blocks = min (cursor.n_synced / block) (src.n_vectors / block) in
      let few : ltb max_ops (length (carried_slots blocks pending fresh)) ≡ false =
        ground (arith, p.few_carried) in
      elim (Option-cases clear_target) [
        | inl e ↦
            let same : plan.batches ≡ plan_batch src cursor pending fresh ∷ [] = cc (e, few, h) in
            rw (same, append-nil (plan_batch src cursor pending fresh)) plan_batch-IsWrite
        | inr (used, e) ↦
            let wipe : ℕ × List ℕ =
              (hdr_at (geo_of src) ((cursor.gen + 1) % 2), wiped src (cursor.gen + 1) used) in
            let same : plan.batches ≡ (wipe ∷ []) ∷ plan_batch src cursor pending fresh ∷ [] =
              cc (e, few, h) in
            rw (same, append-nil (plan_batch src cursor pending fresh))
              (inr (refl, length-wiped src (cursor.gen + 1) used), plan_batch-IsWrite)
      ]

-- A layout of two slots of `size` bytes from `base` on, and units behind them.
slot_below :
    (base size g i rest : ℕ) → g ≤ 1 → i < base + g * size + size → i < base + 2 * size + rest
slot_below base size g i rest h lt = omega (arith, mul_le g 1 size h)

slots_apart :
    (base size g other i n : ℕ)
    → g + other ≡ 1
    → base + g * size ≤ i
    → i < base + g * size + size
    → n ≤ size
    → (i < base + other * size) ⊎ (base + other * size + n ≤ i)
slots_apart base size zero zero i n e lo hi h = absurd (omega arith)
slots_apart base size zero (suc other) i n e lo hi h =
    let one : other ≡ 0 = omega arith in inl (rw one (omega arith))
slots_apart base size (suc g) zero i n e lo hi h =
    let one : g ≡ 0 = omega arith in
    let lo' : base + 1 * size ≤ i = rw one at lo in inr (omega arith)
slots_apart base size (suc g) (suc other) i n e lo hi h = absurd (omega arith)

pub slot_before_unit :
    (base size other n rest : ℕ)
    → other ≤ 1
    → n ≤ size
    → base + other * size + n ≤ base + 2 * size + rest
slot_before_unit base size other n rest h k = omega (arith, mul_le other 1 size h)

-- Where the old commit lies: its slot and its units are apart from every write of the next.
module _ (geo : Geo) (units : List ℕ) (gen : ℕ) where
  pub slot-Apart :
      (i : ℕ) (op : ℕ × List ℕ)
      → hdr_at geo (gen % 2) ≤ i
      → i < hdr_at geo (gen % 2) + hdr_len geo
      → IsWrite geo units (gen + 1) op
      → Apart i op
  slot-Apart i (off, bytes) lo hi (inl (b, m, at, n)) = inl (
      rw at (slot_below (sb_len geo) (hdr_len geo) (gen % 2) i (b * unit_len geo) (omega arith) hi))
  slot-Apart i (off, bytes) lo hi (inr (at, n)) = rw at (
      slots_apart (sb_len geo) (hdr_len geo) (gen % 2) ((gen + 1) % 2) i (length bytes)
        (omega arith) lo hi n)

  pub unit-Apart :
      (b i : ℕ) (op : ℕ × List ℕ)
      → mem units b ≡ false
      → unit_at geo b ≤ i
      → i < unit_at geo b + unit_len geo
      → IsWrite geo units (gen + 1) op
      → Apart i op
  unit-Apart b i (off, bytes) out lo hi (inr (at, n)) = inr (
      let below =
        slot_before_unit (sb_len geo) (hdr_len geo) ((gen + 1) % 2) (length bytes)
          (b * unit_len geo) (omega arith) n in
      rw at (omega (arith, below, lo)))
  unit-Apart b i (off, bytes) out lo hi (inl (c, m, at, n)) = elim (Bool-cases (ltb b c)) [
    | inl e ↦ inl (rw at (omega (arith, mul_le (suc b) c (unit_len geo) (ground arith), hi)))
    | inr e ↦ elim (Bool-cases (b == c)) [
      | inl same ↦ let w : b ≡ c = ground arith in absurd (ground (arith, rw w at out))
      | inr ne ↦
          inr (rw (at, n) (omega (arith, mul_le (suc c) b (unit_len geo) (ground arith), lo)))
    ]
  ]
