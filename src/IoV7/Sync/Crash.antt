-- ===== src/IoV7/Sync/Crash.antt =====
-- What a crash in the middle of `run_sync` (turbovec/src/io_v7.rs) leaves of the commit before.
use turbovec.Common.{
  ℕ, ◌+◌, ◌-◌, ◌*◌, ◌%◌, ◌≤◌, ◌<◌, ◌≡◌, ◌≢◌, refl, ap, subst, true, false, Option, none, some, List,
  [], ◌∷◌, ◌++◌, length, ◌⊎◌, inl, inr, mem, All, All-map, ltb, Bool-cases, Option-cases, arith,
  to_le_bytes, ◌==◌,
}
use mathlib.Core.List.{flatten}
use turbovec.IoV7.Geo.{Geo, hdr_len, hdr_at, unit_len, unit_at}
use turbovec.IoV7.Digest.{DeltaDigest, push, new, finish}
use turbovec.IoV7.Header.{SyncSource, geo_of, ParsedHdr, parse_header_at}
use turbovec.IoV7.Sync.{
  SyncCursor, SyncPlan, plan_incremental, written, parse_header_slot, get_range, feed_units,
  delta_verified, range, saturating, choose_header, newest_verified, verified,
}
use turbovec.IoV7.Sync.Commit.{IsPlannable}
use turbovec.IoV7.Sync.Torn.{Torn, Apart, Torn-get, Torn-get_range}
use turbovec.IoV7.Sync.Writes.{IsWrite, plan_incremental-IsWrite, slot-Apart, unit-Apart}

-- A header that parses goes on to parse when the file grows.
parse_header_at-le :
    (bytes : List ℕ) (at : ℕ) (geo : Geo) (slot m n : ℕ) (h : ParsedHdr)
    → m ≤ n
    → parse_header_at bytes at geo slot m ≡ some h
    → parse_header_at bytes at geo slot n ≡ some h
unfolding parse_header_at
parse_header_at-le bytes at geo slot m n h le e = ground (arith, e)

-- A header stands in the slot of its generation's parity.
parse_header_at-parity :
    (bytes : List ℕ) (at : ℕ) (geo : Geo) (slot n : ℕ) (h : ParsedHdr)
    → parse_header_at bytes at geo slot n ≡ some h
    → h.gen % 2 ≡ slot
unfolding parse_header_at
parse_header_at-parity bytes at geo slot n h e = ground (arith, e)

parse_header_slot-parity :
    (raw : List ℕ) (geo : Geo) (slot n : ℕ) (h : ParsedHdr)
    → parse_header_slot raw geo slot n ≡ some h
    → h.gen % 2 ≡ slot
unfolding parse_header_slot
parse_header_slot-parity raw geo slot n h e =
    elim (Option-cases (get_range raw (hdr_at geo slot) (hdr_len geo))) [
      | inl gap ↦ absurd (ground (arith, gap))
      | inr (bytes, there) ↦
          parse_header_at-parity bytes (hdr_at geo slot) geo slot n h
            (rw (there, parse_header_slot) at e)
    ]

-- A verified header `h` of one slot is chosen where the other slot has no verified header that is newer, and else
-- that one is.
abbrev pub Newest : List ℕ → Geo → Option ParsedHdr → Option ParsedHdr → ParsedHdr → Type 0
Newest raw geo other choice h =
    ((choice ≡ some h)
      × ((n : ParsedHdr) → other ≡ some n → delta_verified raw geo n ≡ true → n.gen < h.gen))
    ⊎ ((n : ParsedHdr) × (choice ≡ some n)
        × (other ≡ some n)
        × (delta_verified raw geo n ≡ true)
        × (h.gen < n.gen))

-- Headers of the two slots have different generations.
abbrev Differ : Option ParsedHdr → ParsedHdr → Type 0
Differ other h = (n : ParsedHdr) → other ≡ some n → n.gen ≢ h.gen

newest_verified-fst :
    (raw : List ℕ) (geo : Geo) (h1 h0 : Option ParsedHdr) (h : ParsedHdr)
    → h0 ≡ some h
    → Differ h1 h
    → delta_verified raw geo h ≡ true
    → Newest raw geo h1 (newest_verified raw geo h0 h1) h
unfolding newest_verified verified
newest_verified-fst raw geo h1 none h e d v = absurd (ground arith)
newest_verified-fst raw geo none (some a) h e d v =
    let same : a ≡ h = cc in
    let good : delta_verified raw geo a ≡ true = rw same v in
    rw good (inl (e, λ n f w. absurd (cc f)))
newest_verified-fst raw geo (some b) (some a) h e d v =
    let same : a ≡ h = cc in
    let apart : b.gen ≢ a.gen = rw same (d b refl) in
    let good : delta_verified raw geo a ≡ true = rw same v in
    elim (Bool-cases (ltb a.gen b.gen)) [
      | inr old ↦
          let below : b.gen < h.gen = rw (← same) (ground (arith, old, apart)) in
          rw (old, good)
            (inl (e, λ n f w. let one : b ≡ n = cc in subst (λ m. m.gen < h.gen) one below))
      | inl newer ↦
          let above : h.gen < b.gen = rw (← same) (ground (arith, newer)) in
          elim (Bool-cases (delta_verified raw geo b)) [
            | inl ok ↦ rw (newer, ok) (inr (b, refl, refl, ok, above))
            | inr bad ↦
                rw (newer, bad, good)
                  (inl (
                    e,
                    λ n f w.
                        let one : b ≡ n = cc in
                        absurd (cc (bad, w, ap (delta_verified raw geo) one)),
                  ))
          ]
    ]

newest_verified-snd :
    (raw : List ℕ) (geo : Geo) (h0 h1 : Option ParsedHdr) (h : ParsedHdr)
    → h1 ≡ some h
    → Differ h0 h
    → delta_verified raw geo h ≡ true
    → Newest raw geo h0 (newest_verified raw geo h0 h1) h
unfolding newest_verified verified
newest_verified-snd raw geo h0 none h e d v = absurd (ground arith)
newest_verified-snd raw geo none (some b) h e d v =
    let same : b ≡ h = cc in
    let good : delta_verified raw geo b ≡ true = rw same v in
    rw good (inl (e, λ n f w. absurd (cc f)))
newest_verified-snd raw geo (some a) (some b) h e d v =
    let same : b ≡ h = cc in
    let apart : a.gen ≢ b.gen = rw same (d a refl) in
    let good : delta_verified raw geo b ≡ true = rw same v in
    elim (Bool-cases (ltb a.gen b.gen)) [
      | inl newer ↦
          let below : a.gen < h.gen = rw (← same) (ground (arith, newer)) in
          rw (newer, good)
            (inl (e, λ n f w. let one : a ≡ n = cc in subst (λ m. m.gen < h.gen) one below))
      | inr old ↦
          let above : h.gen < a.gen = rw (← same) (ground (arith, old, apart)) in
          elim (Bool-cases (delta_verified raw geo a)) [
            | inl ok ↦ rw (old, ok) (inr (a, refl, refl, ok, above))
            | inr bad ↦
                rw (old, bad, good)
                  (inl (
                    e,
                    λ n f w.
                        let one : a ≡ n = cc in
                        absurd (cc (bad, w, ap (delta_verified raw geo) one)),
                  ))
          ]
    ]

module _ (src : SyncSource) (cursor : SyncCursor) (pending fresh : List ℕ)
    (p : IsPlannable src cursor pending fresh) (clear_target : Option ℕ) (plan : SyncPlan)
    (made : plan_incremental src cursor pending fresh clear_target ≡ some plan)
    (file file' : List ℕ) (torn : Torn (flatten plan.batches) file file') where
  abbrev geo : Geo
  geo = geo_of src

  abbrev gone : List ℕ
  gone = written src cursor pending fresh

  writes : All (IsWrite geo gone (cursor.gen + 1)) (flatten plan.batches)
  writes = plan_incremental-IsWrite src cursor pending fresh p clear_target plan made

  -- Where the numbers fit the fields: whatever part of a planned sync reached the disk, a unit that the plan does not write reads as before.
  pub torn-unit :
      (b : ℕ) (u : List ℕ)
      → mem gone b ≡ false
      → get_range file (unit_at geo b) (unit_len geo) ≡ some u
      → get_range file' (unit_at geo b) (unit_len geo) ≡ some u
  torn-unit b u out =
      Torn-get_range (flatten plan.batches) file file' (unit_at geo b) (unit_len geo) u torn
        (λ i lo hi.
          All-map (IsWrite geo gone (cursor.gen + 1)) (Apart i) (flatten plan.batches)
            (λ op w. unit-Apart geo gone cursor.gen b i op out lo hi w) writes)

  -- Whatever part of a sync reached the disk, the header of the commit before parses as before.
  pub torn-parse_header_slot :
      (h : ParsedHdr)
      → parse_header_slot file geo (cursor.gen % 2) (length file) ≡ some h
      → parse_header_slot file' geo (cursor.gen % 2) (length file') ≡ some h
  unfolding parse_header_slot
  torn-parse_header_slot h e =
      let slot = cursor.gen % 2 in
      elim (Option-cases (get_range file (hdr_at geo slot) (hdr_len geo))) [
        | inl none_there ↦ absurd (ground (arith, none_there))
        | inr (bytes, there) ↦
            let kept =
              Torn-get_range (flatten plan.batches) file file' (hdr_at geo slot) (hdr_len geo) bytes
                torn
                (λ i lo hi.
                  All-map (IsWrite geo gone (cursor.gen + 1)) (Apart i) (flatten plan.batches)
                    (λ op w. slot-Apart geo gone cursor.gen i op lo hi w) writes)
                there in
            let parsed : parse_header_at bytes (hdr_at geo slot) geo slot (length file) ≡ some h =
              rw (there, parse_header_slot) at e in
            let (grows, same) = Torn-get (flatten plan.batches) file file' torn in
            rw (kept, parse_header_slot)
              (parse_header_at-le bytes (hdr_at geo slot) geo slot (length file) (length file') h
                grows parsed)
      ]

  torn-feed_units :
      (bs : List ℕ) (d d' : DeltaDigest)
      → ((b : ℕ) → mem bs b ≡ true → mem gone b ≡ false)
      → feed_units file geo d bs ≡ some d'
      → feed_units file' geo d bs ≡ some d'
  unfolding feed_units
  torn-feed_units [] d d' out h = h
  torn-feed_units (b ∷ bs) d d' out h =
      elim (Option-cases (get_range file (unit_at geo b) (unit_len geo))) [
        | inl e ↦ absurd (ground (arith, e))
        | inr (u, e) ↦
            let kept = torn-unit b u (out b (ground arith)) e in
            let fed : feed_units file geo (push (push d (to_le_bytes 4 b)) u) bs ≡ some d' =
              rw (e, feed_units) at h in
            rw (kept, feed_units)
              (torn-feed_units bs (push (push d (to_le_bytes 4 b)) u) d'
                (λ a m. out a (ground arith)) fed)
      ]

  -- Whatever part of a sync reached the disk, the delta of a header verifies if it did before, where the
  -- plan writes no unit of that delta.
  pub torn-delta_verified :
      (h : ParsedHdr)
      → ((b : ℕ)
          → mem (h.delta_mat ++ range h.app_from (h.app_to - h.app_from)) b ≡ true
          → mem gone b ≡ false)
      → delta_verified file geo h ≡ true
      → delta_verified file' geo h ≡ true
  unfolding delta_verified
  torn-delta_verified h out e =
      let app = range h.app_from (h.app_to - h.app_from) in
      let count = saturating (length h.delta_mat + length app) in
      let total = saturating (8 + saturating (count * (4 + unit_len geo))) in
      let start = push (new total) (to_le_bytes 8 h.gen) in
      elim (Option-cases (feed_units file geo start (h.delta_mat ++ app))) [
        | inl gap ↦
            let no : false ≡ true = rw (gap, delta_verified) at e in absurd (ground (arith, no))
        | inr (d, fed) ↦
            let right : (finish d == h.delta_crc) ≡ true = rw (fed, delta_verified) at e in
            rw (torn-feed_units (h.delta_mat ++ app) start d out fed, delta_verified) right
      ]

  -- Where the numbers fit the fields, the commit before was sound and the plan writes no unit of its
  -- delta: whatever part of a planned sync reached the disk, a load takes the newest whole commit. If the slot of the
  -- new generation has a header of a later generation than the commit before, and the units that it
  -- names are all there with its digest, the load takes that one; if not, it takes the commit before.
  pub torn-choose_header :
      (h : ParsedHdr)
      → parse_header_slot file geo (cursor.gen % 2) (length file) ≡ some h
      → delta_verified file geo h ≡ true
      → ((b : ℕ)
          → mem (h.delta_mat ++ range h.app_from (h.app_to - h.app_from)) b ≡ true
          → mem gone b ≡ false)
      → Newest file' geo
          (parse_header_slot file' geo ((cursor.gen + 1) % 2) (length file'))
          (choose_header file' geo)
          h
  unfolding choose_header
  torn-choose_header h e v out =
      let parses = torn-parse_header_slot h e in
      let good = torn-delta_verified h out v in
      let h0 = parse_header_slot file' geo 0 (length file') in
      let h1 = parse_header_slot file' geo 1 (length file') in
      let odd_or_even =
        parse_header_slot-parity file' geo (cursor.gen % 2) (length file') h parses in
      elim (Bool-cases (cursor.gen % 2 == 0)) [
        | inl z ↦
            let here : cursor.gen % 2 ≡ 0 = ground arith in
            let there : (cursor.gen + 1) % 2 ≡ 1 = omega arith in
            rw there (
              newest_verified-fst file' geo h1 h0 h (rw here at parses)
                (λ n f same.
                  absurd (omega (arith, parse_header_slot-parity file' geo 1 (length file') n f)))
                good)
        | inr z ↦
            let here : cursor.gen % 2 ≡ 1 = ground arith in
            let there : (cursor.gen + 1) % 2 ≡ 0 = omega arith in
            rw there (
              newest_verified-snd file' geo h0 h1 h (rw here at parses)
                (λ n f same.
                  absurd (omega (arith, parse_header_slot-parity file' geo 0 (length file') n f)))
                good)
      ]
