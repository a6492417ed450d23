-- ===== src/IoV7/Sync/Applied.antt =====
-- Writes that run to their end, for turbovec/src/io_v7.rs: what is then in the file.
use turbovec.Common.{
  ℕ, zero, suc, ◌+◌, ◌-◌, ◌*◌, ◌%◌, ◌^◌, ◌≤◌, ◌<◌, ◌≡◌, refl, ap, true, false, Option, some, List,
  [], ◌∷◌, ◌++◌, length, ◌⊎◌, inl, inr, mem, All, All-append, All-map, ltb, leb, Bool-cases, arith,
  map, take, drop, take-append_exact, le→leb,
}
use turbovec.IoV7.Geo.{Geo, hdr_len, hdr_at, unit_len, unit_at, sb_len}
use turbovec.IoV7.Digest.{new}
use turbovec.IoV7.Header.{SyncSource, geo_of, ParsedHdr}
use turbovec.IoV7.Header.Legal.{IsSource}
use turbovec.IoV7.Image.{write_at, length-write_at, length-write_at_le, drop-write_at}
use turbovec.IoV7.Sync.{
  Batch, unit_bytes, apply_batch, parse_header_slot, get_range, delta_verified, saturating,
  newest_verified, verified,
}
use turbovec.IoV7.Sync.Commit.{mul_le}
use turbovec.IoV7.Sync.Torn.{Apart, Torn-get, Torn-get_range, apply_batch-Torn, apply_batch-append}
use turbovec.IoV7.Sync.Written.{length-unit_bytes}
use turbovec.IoV7.Sync.Writes.{IsWrite, All-units, unit-Apart, slot_before_unit}

-- What was just written is read.
pub get_range-write_at :
    (file : List ℕ) (off : ℕ) (bytes : List ℕ)
    → get_range (write_at file off bytes) off (length bytes) ≡ some bytes
get_range-write_at file off bytes =
    let (end, longer) = length-write_at file off bytes in
    let there : leb (off + length bytes) (length (write_at file off bytes)) ≡ true =
      le→leb _ _ end in
    rw (
      there,
      drop-write_at file off bytes,
      take-append_exact bytes (drop (off + length bytes) file),
    )

pub take-append_over :
    (n : ℕ) (xs ys : List ℕ) → length xs ≤ n → take n (xs ++ ys) ≡ xs ++ take (n - length xs) ys
take-append_over n [] ys h = let e : n - 0 ≡ n = omega arith in rw e
take-append_over zero (x ∷ xs) ys h = absurd (omega arith)
take-append_over (suc n) (x ∷ xs) ys h =
    let e : suc n - suc (length xs) ≡ n - length xs = omega arith in
    rw e (ap (◌∷◌ x) (take-append_over n xs ys (omega arith)))

module _ (src : SyncSource) (v : IsSource src) (gen : ℕ) (hdr : List ℕ)
    (fits : length hdr ≤ hdr_len (geo_of src)) where
  abbrev geo : Geo
  geo = geo_of src

  abbrev pub batch : List ℕ → Batch
  batch bs =
      map (λ b. (unit_at geo b, unit_bytes src b)) bs ++ (hdr_at geo ((gen + 1) % 2), hdr) ∷ []

  -- Units, then a header, are written: each unit is there at the end.
  pub apply_batch-unit :
      (bs : List ℕ) (file : List ℕ) (b : ℕ)
      → mem bs b ≡ true
      → get_range (apply_batch file (batch bs)) (unit_at geo b) (unit_len geo)
        ≡ some (unit_bytes src b)
  unfolding apply_batch
  apply_batch-unit [] file b m = absurd (ground arith)
  apply_batch-unit (c ∷ bs) file b m = elim (Bool-cases (mem bs b)) [
    | inl later ↦ apply_batch-unit bs (write_at file (unit_at geo c) (unit_bytes src c)) b later
    | inr last ↦
        let same : c ≡ b = ground arith in
        let now = write_at file (unit_at geo b) (unit_bytes src b) in
        let rest : All (IsWrite geo bs (gen + 1)) (batch bs) =
          All-append (IsWrite geo bs (gen + 1)) (map (λ b. (unit_at geo b, unit_bytes src b)) bs) _
            (All-units src bs bs (gen + 1) (length-unit_bytes src v) (λ b m. m))
            (inr (refl, fits), tt) in
        rw same (
          Torn-get_range (batch bs) now (apply_batch now (batch bs)) (unit_at geo b) (unit_len geo)
            (unit_bytes src b) (apply_batch-Torn (batch bs) now)
            (λ i lo hi.
              All-map (IsWrite geo bs (gen + 1)) (Apart i) (batch bs)
                (λ op w. unit-Apart geo bs gen b i op last lo hi w) rest)
            (rw (length-unit_bytes src v b) at
              (get_range-write_at file (unit_at geo b) (unit_bytes src b))))
  ]

  -- The header is written last: the slot starts with it.
  pub apply_batch-hdr :
      (bs : List ℕ) (file : List ℕ)
      → hdr_at geo ((gen + 1) % 2) + hdr_len geo ≤ length file
      → (rest : List ℕ) × (get_range
            (apply_batch file (batch bs))
            (hdr_at geo ((gen + 1) % 2))
            (hdr_len geo)
          ≡ some (hdr ++ rest))
  unfolding apply_batch
  apply_batch-hdr bs file room =
      let at = hdr_at geo ((gen + 1) % 2) in
      let ops = map (λ b. (unit_at geo b, unit_bytes src b)) bs in
      let before = apply_batch file ops in
      let (grows, same) = Torn-get ops file before (apply_batch-Torn ops file) in
      let (end, longer) = length-write_at before at hdr in
      let there : leb (at + hdr_len geo) (length (write_at before at hdr)) ≡ true =
        le→leb _ _ (omega arith) in
      let tail = drop (at + length hdr) before in
      let last = apply_batch-append ops ((at, hdr) ∷ []) file in
      (
        take (hdr_len geo - length hdr) tail,
        rw (last, there, drop-write_at before at hdr, take-append_over (hdr_len geo) hdr tail fits)
            refl,
      )

-- The newer of two headers is chosen, whichever slot it stands in, if its delta verifies.
pub newest_verified-newer :
    (raw : List ℕ) (geo : Geo) (h0 h1 : Option ParsedHdr) (a b : ParsedHdr)
    → h0 ≡ some a
    → h1 ≡ some b
    → a.gen < b.gen
    → delta_verified raw geo b ≡ true
    → newest_verified raw geo h0 h1 ≡ some b
unfolding newest_verified verified
newest_verified-newer raw geo h0 h1 a b e f lt good =
    let later : ltb a.gen b.gen ≡ true = ground arith in
    let w : verified raw geo h1 ≡ some b = rw f (rw good refl) in
    rw (e, f, newest_verified, later, w) refl

pub newest_verified-older :
    (raw : List ℕ) (geo : Geo) (h0 h1 : Option ParsedHdr) (a b : ParsedHdr)
    → h1 ≡ some a
    → h0 ≡ some b
    → a.gen < b.gen
    → delta_verified raw geo b ≡ true
    → newest_verified raw geo h0 h1 ≡ some b
unfolding newest_verified verified
newest_verified-older raw geo h0 h1 a b e f lt good =
    let later : ltb b.gen a.gen ≡ false = ground arith in
    let w : verified raw geo h0 ≡ some b = rw f (rw good refl) in
    rw (f, e, newest_verified, later, w) refl

pub same_slot :
    (raw : List ℕ) (geo : Geo) (slot slot' n : ℕ) (h : ParsedHdr)
    → slot ≡ slot'
    → parse_header_slot raw geo slot n ≡ some h
    → parse_header_slot raw geo slot' n ≡ some h
same_slot raw geo slot slot' n h e p = rw e at p

pub get_range-le :
    (raw : List ℕ) (from size : ℕ) (u : List ℕ)
    → get_range raw from size ≡ some u
    → from + size ≤ length raw
get_range-le raw from size u h = ground arith

pub saturated :
    (n m : ℕ)
    → 8 + n * m < 2 ^ 64
    → 1 ≤ m
    → saturating (8 + saturating (saturating n * m)) ≡ 8 + n * m
saturated n m h one =
    let small : n < 2 ^ 64 = omega (arith, mul_le 1 m n one) in
    let e : saturating n ≡ n = omega arith in rw e (omega arith)

pub length-apply_batch :
    (ops : Batch) (file : List ℕ) (bound : ℕ)
    → length file ≤ bound
    → All (λ op. op.0 + length op.1 ≤ bound) ops
    → length (apply_batch file ops) ≤ bound
unfolding apply_batch
length-apply_batch [] file bound h a = h
length-apply_batch ((off, bytes) ∷ ops) file bound h (k, a) =
    length-apply_batch ops (write_at file off bytes) bound
      (length-write_at_le file off bytes bound h k) a

pub write_end :
    (geo : Geo) (old new units_gen bound : ℕ) (op : ℕ × List ℕ) (units : List ℕ)
    → ((b : ℕ) → mem units b ≡ true → (b < old) ⊎ (b < new))
    → unit_at geo old ≤ bound
    → unit_at geo new ≤ bound
    → IsWrite geo units units_gen op
    → op.0 + length op.1 ≤ bound
write_end geo old new gen bound (off, bytes) units inside h k (inr (at, n)) = rw at (
    omega (
      arith,
      slot_before_unit (sb_len geo) (hdr_len geo) (gen % 2) (length bytes) (old * unit_len geo)
          (omega arith) n,
      h,
    ))
write_end geo old new gen bound (off, bytes) units inside h k (inl (b, m, at, n)) =
    elim (inside b m) [
      | inl lt ↦ rw (at, n) (omega (arith, mul_le (suc b) old (unit_len geo) lt, h))
      | inr lt ↦ rw (at, n) (omega (arith, mul_le (suc b) new (unit_len geo) lt, k))
    ]

pub unit_end :
    (base size old new bound : ℕ)
    → (new ≤ old) ⊎ ((k : ℕ) × (new ≡ suc k) × (base + k * size + size ≤ bound))
    → base + old * size ≤ bound
    → new * size + (base + 0 * size) ≤ bound
unit_end base size old new bound (inl le) h = omega (arith, mul_le new old size le)
unit_end base size old new bound (inr (k, e, end)) h = rw e (omega arith)
