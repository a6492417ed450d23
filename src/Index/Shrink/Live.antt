-- ===== src/Index/Shrink/Live.antt =====
-- A sync of turbovec/src/lib.rs that reads a row through the captures reads the row itself.
use turbovec.Common.{
  ℕ, ◌≡◌, refl, sym, ◌∙◌, subst, inl, inr, Bool, true, false, Option, none, some, List, [], ◌∷◌,
  ◌++◌, All, All-map, length, length-append, get_elem?, get-append, ltb, lt→ltb, ◌==◌, ==_iff,
  if◌then◌else◌, Bool-cases, Option-cases, arith,
}
use turbovec.Index.{TurboQuantIndex, packed, is_some}
use turbovec.Index.Shrink.{last_capture, capture_lookup, read_row, row_codes}
use turbovec.Index.Shrink.Captured.{Holds, IsCaptured}

-- An entry that the lookup finds is one of the entries.
looked_up :
    (P : ℕ × ℕ → Type 0) (captures : List (ℕ × ℕ)) (slot off : ℕ)
    → All P captures
    → last_capture captures slot ≡ some off
    → P (slot, off)
looked_up P [] slot off h e = absurd (cc e)
looked_up P ((s, o) ∷ rest) slot off (h, hs) e = elim (Option-cases (last_capture rest slot)) [
  | inr (later, f) ↦
      let same : some later ≡ some off = rw (last_capture, f) at e in
      looked_up P rest slot off hs (f ∙ same)
  | inl f ↦
      let here : (if s == slot then some o else none) ≡ some off = rw (last_capture, f) at e in
      elim (Bool-cases (s == slot)) [
        | inr g ↦ let never : none ≡ some off = rw g at here in absurd (cc never)
        | inl g ↦
            let place : some o ≡ some off = rw g at here in
            subst (λ x. P (x, off)) ((==_iff s slot).0 g) (subst (λ x. P (s, x)) (cc place) h)
      ]
]

module _ {Row : Type 0} where
  -- Rows that come behind the others leave the captures right.
  pub append-IsCaptured :
      (rows fresh buf : List Row) (captures : List (ℕ × ℕ))
      → IsCaptured rows buf captures
      → IsCaptured (rows ++ fresh) buf captures
  append-IsCaptured rows fresh buf captures v = record {
    hold =
        All-map (Holds rows buf) (Holds (rows ++ fresh) buf) captures
          (λ e h.
            let inside : ltb e.0 (length rows) ≡ true = lt→ltb e.0 (length rows) h.0 in
            let same : get_elem? (rows ++ fresh) e.0 ≡ get_elem? rows e.0 =
              get-append rows fresh e.0 ∙ rw inside refl in
            (omega (arith, h.0, length-append rows fresh), h.1 ∙ sym same))
          v.hold;
    apart = v.apart;
    bound = v.bound;
  }

  read_row-live :
      (buf rows : List Row) (slot : ℕ) (o : Option ℕ)
      → ((off : ℕ) → o ≡ some off → get_elem? buf off ≡ get_elem? rows slot)
      → read_row buf rows slot o ≡ get_elem? rows slot
  read_row-live buf rows slot none h = refl
  read_row-live buf rows slot (some off) h = h off refl

unguarded : (b : Bool) (o : Option ℕ) (off : ℕ) → (if b then none else o) ≡ some off → o ≡ some off
unguarded true o off h = absurd (cc h)
unguarded false o off h = h

module _ {F Row : Type 0} where
  -- With captures that hold, what the sync writes for a slot is the row that stands in the slot, whether
  -- it reads a capture or the row.
  pub row_codes-live :
      (t : TurboQuantIndex F Row) (slot : ℕ)
      → IsCaptured (packed t) t.capture_buf t.captures
      → row_codes t slot ≡ get_elem? (packed t) slot
  unfolding row_codes
  row_codes-live t slot v =
      read_row-live t.capture_buf (packed t) slot (capture_lookup t slot) (λ off e.
        (looked_up (Holds (packed t) t.capture_buf) t.captures slot off v.hold
          (unguarded (is_some t.packed_codes) (last_capture t.captures slot) off e)).1)
