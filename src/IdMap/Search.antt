-- ===== src/IdMap/Search.antt =====
-- `try_search_with_allowlist` of turbovec/src/id_map.rs: which ids a search can return.
use turbovec.Common.{
  All, ℕ, zero, suc, ◌<◌, ◌≡◌, refl, sym, ◌∙◌, Bool, true, false, Option, some, List, [], ◌∷◌, ◌⊎◌,
  ◌≢◌, inl, inr, length, length-set, length-replicate, get_elem?, set, replicate, ◌==◌, mem,
  mem_of_get, get_of_lt, get_lt, Bool-cases, Option-cases, arith,
}
use turbovec.Error.{SearchError, Outcome, ok, err, panic}
use turbovec.VectorIndex.{VectorIndex, Allows}
use turbovec.IdMap.{
  IdMapIndex, SlotMap, IdSearchResults, ids, build_mask, translate, search_masked,
  try_search_with_allowlist,
}
use turbovec.IdMap.Slots.{Inverse, is_some-mem, get_set}
use turbovec.IdMap.Valid.{IsValid, ids_lem}

get_replicate : (n i : ℕ) → get_elem? (replicate n false) i ≢ some true
get_replicate zero i = λ h. cc
get_replicate (suc n) zero = λ h. cc
get_replicate (suc n) (suc i) = get_replicate n i

Outcome-cases {ℓ κ} :
    {E : Type ℓ} {A : Type κ} (r : Outcome E A)
    → (((a : A) × (r ≡ ok a)) ⊎ ((e : E) × (r ≡ err e))) ⊎ (r ≡ panic)
Outcome-cases (ok a) = inl (inl (a, refl))
Outcome-cases (err e) = inl (inr (e, refl))
Outcome-cases panic = inr refl

module _ {F : Type 0} (t : SlotMap) (slots : List ℕ) (inv : Inverse t slots) where
  -- A mask has a bit for each slot, and lets through only slots of the allowlist's ids.
  build_mask_lem :
      (allowed : List ℕ) (mask : List Bool)
      → length mask ≡ length slots
      → ((mask' : List Bool) × (build_mask {F = F} t mask allowed ≡ ok mask')
          × ((id : ℕ) → mem allowed id ≡ true → mem slots id ≡ true)
          × ((s : ℕ)
              → get_elem? mask' s ≡ some true
              → (get_elem? mask s ≡ some true)
                ⊎ ((id : ℕ) × (mem allowed id ≡ true) × (get_elem? slots s ≡ some id))))
        ⊎ ((id : ℕ) × (build_mask {F = F} t mask allowed ≡ err (SearchError.unknown_id id))
            × (mem allowed id ≡ true)
            × (mem slots id ≡ false))
  unfolding build_mask
  build_mask_lem [] mask e = inl (mask, refl, λ id h. absurd (ground arith), λ s h. inl h)
  build_mask_lem (id ∷ allowed) mask e = elim (Option-cases (t id)) [
    | inl n ↦ inr (id, rw (n, build_mask), ground arith, sym (is_some-mem t slots inv id) ∙ rw n)
    | inr (slot, at) ↦
        let inside = get_lt slots slot id ((inv id slot).0 at) in
        let (b, old) = get_of_lt mask slot (omega arith) in
        let here : mem slots id ≡ true = mem_of_get slots slot id ((inv id slot).0 at) in
        elim (build_mask_lem allowed (set mask slot true) (length-set mask slot true ∙ e)) [
          | inl (mask', done, known, lets) ↦ inl (
            mask',
            rw (at, old, build_mask) done,
            λ j h. ground (arith, known j, here),
            λ s h. elim (lets s h) [
              | inl q ↦ elim (Bool-cases (s == slot)) [
                | inl w ↦
                    let z : s ≡ slot = ground arith in
                    inr (id, ground arith, rw z ((inv id slot).0 at))
                | inr w ↦ inl (ground (arith, get_set mask slot true s (omega arith)))
              ]
              | inr (j, m, g) ↦ inr (j, ground arith, g)
            ],
          )
          | inr (j, bad, m, gone) ↦ inr (j, rw (at, old, build_mask) bad, ground arith, gone)
        ]
  ]

-- The ids of the slots that a search returns.
translate_lem :
    (P Q : ℕ → Type 0) (slots : List ℕ)
    → ((s : ℕ) → P s → (id : ℕ) → get_elem? slots s ≡ some id → Q id)
    → (indices : List ℕ) → All (λ s. (s < length slots) × P s) indices
    → (found : List ℕ) × (translate slots indices ≡ some found) × All Q found
unfolding translate
translate_lem P Q slots step [] h = ([], refl, tt)
translate_lem P Q slots step (s ∷ indices) ((lt, p), h) =
    let (id, g) = get_of_lt slots s lt in
    let (found, e, q) = translate_lem P Q slots step indices h in
    (id ∷ found, rw (g, e, translate), (step s p id g, q))

All-first :
    (P : ℕ → Type 0) (n : ℕ) (xs : List ℕ)
    → All (λ s. (s < n) × P s) xs
    → All (λ s. (s < n) × Unit {0}) xs
All-first P n [] a = tt
All-first P n (x ∷ xs) ((lt, p), a) = ((lt, tt), All-first P n xs a)

module _ (V : VectorIndex) where
  search_masked_lem :
      (m : IdMapIndex V) (queries : List V.F32) (k : ℕ) (mask : Option (List Bool)) (Q : ℕ → Type 0)
      (r : IdSearchResults V.F32)
      → length m.slot_to_id ≡ V.len m.inner
      → ((s : ℕ) → Allows mask s → (id : ℕ) → get_elem? m.slot_to_id s ≡ some id → Q id)
      → search_masked V m queries k mask ≡ ok r
      → All Q r.ids
  unfolding search_masked
  search_masked_lem m queries k mask Q r sized step h =
      elim (Outcome-cases (V.try_search_with_mask m.inner queries k mask)) [
        | inl (inl (res, e)) ↦
            let slots = V.search_slots m.inner queries k mask res e in
            let (found, f, q) =
              translate_lem (Allows mask) Q m.slot_to_id step res.indices (rw sized slots) in
            let same : r.ids ≡ found = cc (e, f) in rw same q
        | inl (inr (x, e)) ↦ absurd (ground (arith, e))
        | inr e ↦ absurd (ground (arith, e))
      ]

  module _ (m : IdMapIndex V) (queries : List V.F32) (k : ℕ) (v : IsValid V m) where
    -- On a well-formed index, every id that a search under an allowlist returns is in the allowlist and
    -- in the index.
    pub try_search_with_allowlist-ids :
        (allowed : List ℕ) (r : IdSearchResults V.F32)
        → (try_search_with_allowlist V m queries k (some allowed)).1 ≡ ok r
        → All (λ id. (mem allowed id ≡ true) × (mem m.slot_to_id id ≡ true)) r.ids
    unfolding try_search_with_allowlist
    try_search_with_allowlist-ids [] r h = absurd (ground arith)
    try_search_with_allowlist-ids (id ∷ rest) r h =
        let (inv, slots, inner, built) = ids_lem V m v in
        let blank = replicate (V.len m.inner) false in
        elim (build_mask_lem {F = V.F32} (ids V m).1 m.slot_to_id inv (id ∷ rest) blank
          (length-replicate (V.len m.inner) false ∙ sym v.sized)) [
            | inl (mask, done, known, lets) ↦
                search_masked_lem (ids V m).0 queries k (some mask)
                  (λ j. (mem (id ∷ rest) j ≡ true) × (mem m.slot_to_id j ≡ true)) r
                  (rw (slots, inner) v.sized)
                  (λ s on j g. elim (lets s on) [
                    | inl q ↦ absurd (get_replicate (V.len m.inner) s q)
                    | inr (i, a, at) ↦
                        let got : get_elem? m.slot_to_id s ≡ some j = rw slots at g in
                        let same : i ≡ j = cc in (rw (← same) a, mem_of_get m.slot_to_id s j got)
                  ])
                  (cc (done, h))
            | inr (j, bad, a, gone) ↦ absurd (ground (arith, bad))
          ]

    -- On a well-formed index, an allowlist that names an id which is not in the index is refused with
    -- such an id.
    pub try_search_with_allowlist-unknown :
        (allowed : List ℕ) (id : ℕ)
        → mem allowed id ≡ true
        → mem m.slot_to_id id ≡ false
        → (j : ℕ) × ((try_search_with_allowlist V m queries k (some allowed)).1
            ≡ err (SearchError.unknown_id j))
          × (mem allowed j ≡ true)
          × (mem m.slot_to_id j ≡ false)
    unfolding try_search_with_allowlist
    try_search_with_allowlist-unknown [] id a gone = absurd (ground arith)
    try_search_with_allowlist-unknown (i ∷ rest) id a gone =
        let (inv, slots, inner, built) = ids_lem V m v in
        elim (build_mask_lem {F = V.F32} (ids V m).1 m.slot_to_id inv (i ∷ rest)
          (replicate (V.len m.inner) false)
          (length-replicate (V.len m.inner) false ∙ sym v.sized)) [
            | inl (mask, done, known, lets) ↦ absurd (ground (arith, known id a))
            | inr (j, bad, b, lost) ↦ (j, rw (bad, try_search_with_allowlist), b, lost)
          ]

    panic_from_inner :
        (allowed : List ℕ)
        → (try_search_with_allowlist V m queries k (some allowed)).1 ≡ panic
        → (mask : List Bool) × (V.try_search_with_mask m.inner queries k (some mask) ≡ panic)
    unfolding try_search_with_allowlist search_masked
    panic_from_inner [] h = absurd (ground arith)
    panic_from_inner (i ∷ rest) h =
        let (inv, slots, inner, built) = ids_lem V m v in
        elim (build_mask_lem {F = V.F32} (ids V m).1 m.slot_to_id inv (i ∷ rest)
          (replicate (V.len m.inner) false)
          (length-replicate (V.len m.inner) false ∙ sym v.sized)) [
            | inl (mask, done, known, lets) ↦
                elim (Outcome-cases (V.try_search_with_mask m.inner queries k (some mask))) [
                  | inl (inl (res, e)) ↦
                      let (found, f, q) =
                        translate_lem (λ _. Unit) (λ _. Unit) m.slot_to_id (λ s _ id g. tt)
                          res.indices
                          (All-first (Allows (some mask)) (length m.slot_to_id) res.indices (
                            rw (← v.sized) at
                              (V.search_slots m.inner queries k (some mask) res e))) in
                      absurd (ground (arith, done, e, f, slots, inner))
                  | inl (inr (x, e)) ↦ absurd (ground (arith, done, e, inner))
                  | inr e ↦ (mask, e)
                ]
            | inr (j, bad, a, gone) ↦ absurd (ground (arith, bad))
          ]

    -- On a well-formed index whose inner index panics under no mask, a search under an allowlist does not panic: the
    -- writes into the mask and the reads of `slot_to_id` are in bounds.
    pub try_search_with_allowlist-ne-panic :
        (allowed : List ℕ)
        → ((mask : List Bool) → V.try_search_with_mask m.inner queries k (some mask) ≢ panic)
        → (try_search_with_allowlist V m queries k (some allowed)).1 ≢ panic
    try_search_with_allowlist-ne-panic allowed calm h =
        let (mask, bad) = panic_from_inner allowed h in calm mask bad
