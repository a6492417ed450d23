-- ===== src/Index/Shrink/Moved.antt =====
-- The captures of turbovec/src/lib.rs when one row moves into a hole.
use turbovec.Common.{
  ℕ, suc, ◌≤◌, ◌<◌, ◌≡◌, ◌≢◌, refl, sym, ap, ◌∙◌, inl, inr, ◌⊎◌, Bool, true, false, Option, none,
  some, List, [], ◌∷◌, ◌++◌, All, All-map, All-append, length, get_elem?, get_lt, get_of_lt, ltb,
  ◌==◌, lt→ltb, ==_iff, if◌then◌else◌, Bool-cases, arith,
}
use turbovec.IoV7.Geo.{max_ops}
use turbovec.Index.Cache.{BlockedCache}
use turbovec.Index.Shrink.{
  capture_lane, find_capture, retire, write_capture, record_capture, slot_limit, close_hole,
}
use turbovec.Index.Shrink.Closed.{get-close_hole, length-close_hole}
use turbovec.Index.Shrink.Captured.{
  Apart, Holds, IsCaptured, retire-All, retire-kept, retire-Apart, found-free, find-All,
  get-write_capture, wrote-capture, length-write_capture,
}

pub all_and :
    (P Q : ℕ × ℕ → Type 0) (xs : List (ℕ × ℕ)) → All P xs → All Q xs → All (λ e. P e × Q e) xs
all_and P Q [] h k = tt
all_and P Q (x ∷ xs) (h, hs) (k, ks) = ((h, k), all_and P Q xs hs ks)

pub Apart-append :
    (xs : List (ℕ × ℕ)) (s off : ℕ)
    → Apart xs
    → All (λ e. e.1 ≢ off) xs
    → Apart (xs ++ (s, off) ∷ [])
Apart-append [] s off h k = (tt, tt)
Apart-append ((t, o) ∷ rest) s off (h, hs) (k, ks) = (
  All-append (λ e. e.1 ≢ o) rest ((s, off) ∷ []) h (λ e. k (sym e), tt),
  Apart-append rest s off hs ks,
)

pub choose :
    {Row : Type 0} (b : Bool) (rows buf buf2 : List Row) (captures captures2 : List (ℕ × ℕ))
    → (b ≡ true → IsCaptured rows buf captures)
    → (b ≡ false → IsCaptured rows buf2 captures2)
    → IsCaptured rows (if b then buf else buf2) (if b then captures else captures2)
choose true rows buf buf2 captures captures2 h k = h refl
choose false rows buf buf2 captures captures2 h k = k refl

-- The place of a new capture: the slot's old one, or the end of an arena that has room.
abbrev pub IsPlaceFor {ℓ} : {Row : Type ℓ} → List Row → List (ℕ × ℕ) → ℕ → ℕ → Type 0
IsPlaceFor buf captures idx off =
    (find_capture captures idx ≡ some off) ⊎ ((off ≡ length buf) × (length buf < max_ops))

module _ {Row : Type 0} (rows buf : List Row) (captures : List (ℕ × ℕ)) (idx last : ℕ)
    (size : length rows ≡ suc last) (v : IsCaptured rows buf captures) where
  -- A row that is neither moved nor overwritten stays where it is.
  pub stays :
      (s : ℕ)
      → s < length rows
      → s ≢ idx
      → s ≢ last
      → (s < last) × (get_elem? (close_hole rows idx last) s ≡ get_elem? rows s)
  stays s inside other low =
      let below : s < last = ground (arith, inside, low, size) in
      (below, get-close_hole rows idx last s size ∙ ground (arith, below, other))

  -- With nothing written, the entries that are left still hold.
  pub plain-IsCaptured : IsCaptured (close_hole rows idx last) buf (retire captures idx last)
  plain-IsCaptured = record {
    hold =
        let kept =
          all_and (Holds rows buf) (λ e. (e.0 ≢ idx) × (e.0 ≢ last)) (retire captures idx last)
            (retire-All (Holds rows buf) captures idx last v.hold)
            (retire-kept captures idx last) in
        All-map (λ e. Holds rows buf e × ((e.0 ≢ idx) × (e.0 ≢ last)))
          (Holds (close_hole rows idx last) buf) (retire captures idx last)
          (λ e h.
            let (below, same) = stays e.0 h.0.0 h.1.0 h.1.1 in
            (omega (arith, below, length-close_hole rows idx last size), h.0.1 ∙ sym same))
          kept;
    apart = retire-Apart captures idx last v.apart;
    bound = v.bound;
  }

  pub place_free :
      (off : ℕ) → IsPlaceFor buf captures idx off → All (λ e. e.1 ≢ off) (retire captures idx last)
  place_free off (inl found) = found-free captures idx last off v.apart found
  place_free off (inr (end, room)) =
      retire-All (λ e. e.1 ≢ off) captures idx last
        (All-map (Holds rows buf) (λ e. e.1 ≢ off) captures
          (λ e h.
            let (a, at) = get_of_lt rows e.0 h.0 in
            let near = get_lt buf e.1 a (h.1 ∙ at) in
            λ same. absurd (omega (arith, near, same, end)))
          v.hold)

  pub place_low : (off : ℕ) → IsPlaceFor buf captures idx off → off ≤ length buf
  place_low off (inr (end, room)) = omega (arith, end)
  place_low off (inl found) =
      let (s, h) = find-All (Holds rows buf) captures idx off v.hold found in
      let (a, at) = get_of_lt rows s h.0 in omega (arith, get_lt buf off a (h.1 ∙ at))

  pub place_room :
      (off : ℕ) → IsPlaceFor buf captures idx off → (off ≡ length buf) → length buf < max_ops
  place_room off (inr (end, room)) same = room
  place_room off (inl found) same =
      let (s, h) = find-All (Holds rows buf) captures idx off v.hold found in
      let (a, at) = get_of_lt rows s h.0 in
      absurd (omega (arith, get_lt buf off a (h.1 ∙ at), same))

  -- The moved row is written to its place and entered.
  pub wrote-IsCaptured :
      (off : ℕ) (row : Row)
      → idx < last
      → get_elem? rows last ≡ some row
      → IsPlaceFor buf captures idx off
      → IsCaptured
          (close_hole rows idx last)
          (write_capture buf (some off) (some row))
          (record_capture (retire captures idx last) (some off) idx)
  wrote-IsCaptured off row moved at place =
      let buf2 = write_capture buf (some off) (some row) in
      let kept = retire captures idx last in
      let low = place_low off place in
      let free = place_free off place in
      let plain = plain-IsCaptured in
      let held : All (Holds (close_hole rows idx last) buf2) kept =
        All-map (λ e. Holds (close_hole rows idx last) buf e × (e.1 ≢ off))
          (Holds (close_hole rows idx last) buf2) kept
          (λ e h.
            let (a, there) = get_of_lt (close_hole rows idx last) e.0 h.0.0 in
            let near = get_lt buf e.1 a (h.0.1 ∙ there) in
            (h.0.0, get-write_capture buf off e.1 row low h.1 near ∙ h.0.1))
          (all_and (Holds (close_hole rows idx last) buf) (λ e. e.1 ≢ off) kept plain.hold free) in
      let here : Holds (close_hole rows idx last) buf2 (idx, off) =
        let inside : ltb idx last ≡ true = lt→ltb idx last moved in
        let self : (idx == idx) ≡ true = (==_iff idx idx).1 refl in
        (
          omega (arith, length-close_hole rows idx last size, moved),
          wrote-capture buf off row low
              ∙ sym (get-close_hole rows idx last idx size ∙ rw (inside, self) at),
        ) in
      let grown : length buf2 ≤ max_ops = elim (Bool-cases (off == length buf)) [
        | inl e ↦
            let room = place_room off place ((==_iff off (length buf)).0 e) in
            ground (arith, room, e, length-write_capture buf off row)
        | inr e ↦ ground (arith, v.bound, e, length-write_capture buf off row)
      ] in
      elim (Bool-cases (ltb idx slot_limit)) [
        | inr e ↦ rw e (record { hold = held; apart = plain.apart; bound = grown })
        | inl e ↦ rw e (record {
          hold =
              All-append (Holds (close_hole rows idx last) buf2) kept ((idx, off) ∷ []) held
                (here, tt);
          apart = Apart-append kept idx off plain.apart free;
          bound = grown;
        })
      ]

  pub captured :
      (at : Option ℕ) (b : Option (BlockedCache Row))
      → idx < last
      → ((off : ℕ)
          → at ≡ some off
          → IsPlaceFor buf captures idx off
            × ((c : BlockedCache Row) × (b ≡ some c)
                × (get_elem? c.lanes last ≡ get_elem? rows last)))
      → IsCaptured
          (close_hole rows idx last)
          (capture_lane buf at b last)
          (record_capture (retire captures idx last) at idx)
  captured none none moved place = plain-IsCaptured
  captured none (some c) moved place = plain-IsCaptured
  captured (some off) none moved place = let (free, (c, e, lane)) = place off refl in absurd (cc e)
  captured (some off) (some d) moved place =
      let (free, (c, e, lane)) = place off refl in
      let (row, at) = get_of_lt rows last (omega (arith, size)) in
      let same : d ≡ c = cc e in
      let held : get_elem? d.lanes last ≡ some row =
        ap (λ k. get_elem? k.lanes last) same ∙ lane ∙ at in
      rw (capture_lane, held) (wrote-IsCaptured off row moved at free)

  -- The capture of a removal, with the arena that `move_lane` writes to.
  pub capture_step-IsCaptured :
      (at : Option ℕ) (b : Option (BlockedCache Row))
      → idx ≤ last
      → ((off : ℕ)
          → at ≡ some off
          → IsPlaceFor buf captures idx off
            × ((c : BlockedCache Row) × (b ≡ some c)
                × (get_elem? c.lanes last ≡ get_elem? rows last)))
      → IsCaptured
          (close_hole rows idx last)
          (if idx == last then buf else capture_lane buf at b last)
          (if idx == last
            then retire captures idx last
            else record_capture (retire captures idx last) at idx)
  capture_step-IsCaptured at b inside place =
      choose (idx == last) (close_hole rows idx last) buf (capture_lane buf at b last)
        (retire captures idx last) (record_capture (retire captures idx last) at idx)
        (λ e. plain-IsCaptured) (λ e. captured at b (ground (arith, inside, e)) place)
