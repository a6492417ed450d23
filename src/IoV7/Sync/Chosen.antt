-- ===== src/IoV7/Sync/Chosen.antt =====
-- Which units `plan_incremental` of turbovec/src/io_v7.rs writes, and which slots its header carries.
use turbovec.Common.{
  ℕ, ◌≤◌, ◌<◌, ◌≡◌, true, false, not, ◌&&◌, ◌||◌, List, ◌++◌, ◌⊎◌, inl, inr, length, length-map,
  length-filter, length-sort, length-dedup, map, filter, mem, mem-filter, mem_of_map, of_mem-map,
  mem-append, sort, mem-sort, mem-dedup, IsStrict, sort-IsSorted, dedup-IsStrict, Bool-cases, arith,
}
use turbovec.IoV7.Sync.{block_of, live, fresh_units, materialize, carried_slots}

module _ (blocks : ℕ) (pending fresh : List ℕ) where
  pub mem-carried_slots :
      (s : ℕ)
      → mem (carried_slots blocks pending fresh) s ≡ (
          mem (fresh_units blocks fresh) (block_of s)
          && (live blocks s && (mem pending s || mem fresh s)))
  unfolding carried_slots
  mem-carried_slots s =
      let all = pending ++ fresh in
      let kept = filter (live blocks) all in
      let p = λ (t : ℕ). mem (fresh_units blocks fresh) (block_of t) in
      rw (
        mem-dedup (sort (filter p kept)) s,
        mem-sort (filter p kept) s,
        mem-filter p kept s,
        mem-filter (live blocks) all s,
        mem-append pending fresh s,
      )

  pub mem-materialize :
      (b : ℕ)
      → mem (materialize blocks pending fresh) b ≡ (
          not (mem (fresh_units blocks fresh) b)
          && mem (map block_of (filter (live blocks) pending)) b)
  unfolding materialize
  mem-materialize b =
      let units = map block_of (filter (live blocks) pending) in
      let p = λ (t : ℕ). not (mem (fresh_units blocks fresh) t) in
      rw (mem-dedup (sort (filter p units)) b, mem-sort (filter p units) b, mem-filter p units b)

  pub carried_slots-IsStrict : IsStrict (carried_slots blocks pending fresh)
  unfolding carried_slots
  carried_slots-IsStrict = dedup-IsStrict _ (sort-IsSorted _)

  pub materialize-IsStrict : IsStrict (materialize blocks pending fresh)
  unfolding materialize
  materialize-IsStrict = dedup-IsStrict _ (sort-IsSorted _)

  pub fresh_units-mem :
      (s : ℕ)
      → live blocks s ≡ true
      → mem fresh s ≡ true
      → mem (fresh_units blocks fresh) (block_of s) ≡ true
  fresh_units-mem s l m =
      mem_of_map block_of (filter (live blocks) fresh) s
        (ground (arith, mem-filter (live blocks) fresh s))

  pub pending_units-mem :
      (s : ℕ)
      → live blocks s ≡ true
      → mem pending s ≡ true
      → mem (map block_of (filter (live blocks) pending)) (block_of s) ≡ true
  pending_units-mem s l m =
      mem_of_map block_of (filter (live blocks) pending) s
        (ground (arith, mem-filter (live blocks) pending s))

  -- A unit that is written again stands below both counts of whole blocks.
  pub materialize-lt : (b : ℕ) → mem (materialize blocks pending fresh) b ≡ true → b < blocks
  materialize-lt b h =
      let (s, m, e) =
        of_mem-map block_of (filter (live blocks) pending) b (ground (arith, mem-materialize b)) in
      ground (arith, mem-filter (live blocks) pending s)

  abbrev pub Covered : List ℕ → List ℕ → ℕ → Type 0
  Covered carried units s =
      (mem fresh s ≡ true → mem carried s ≡ true)
      × (mem pending s ≡ true → (mem carried s ≡ true) ⊎ (mem units (block_of s) ≡ true))
      × (mem units (block_of s) ≡ true → (mem fresh s ≡ false) × (mem carried s ≡ false))

  pub covered_lem :
      (s : ℕ)
      → live blocks s ≡ true
      → Covered (carried_slots blocks pending fresh) (materialize blocks pending fresh) s
  covered_lem s l = (
    λ m. ground (arith, mem-carried_slots s, fresh_units-mem s l m),
    λ m. elim (Bool-cases (mem (fresh_units blocks fresh) (block_of s))) [
      | inl e ↦ inl (ground (arith, mem-carried_slots s))
      | inr e ↦ inr (ground (arith, mem-materialize (block_of s), pending_units-mem s l m))
    ],
    λ u. (
      elim (Bool-cases (mem fresh s)) [
        | inl e ↦ absurd (ground (arith, mem-materialize (block_of s), fresh_units-mem s l e))
        | inr e ↦ e
      ],
      ground (arith, mem-carried_slots s, mem-materialize (block_of s)),
    ),
  )

  pub few_materialize : length (materialize blocks pending fresh) ≤ length pending
  unfolding materialize
  few_materialize =
      let units = map block_of (filter (live blocks) pending) in
      let p = λ (b : ℕ). not (mem (fresh_units blocks fresh) b) in
      omega (
        arith,
        length-dedup (sort (filter p units)),
        length-sort (filter p units),
        length-filter p units,
        length-map (filter (live blocks) pending) block_of,
        length-filter (live blocks) pending,
      )
