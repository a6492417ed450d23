-- ===== src/Mapped/Budget.antt =====
-- The budget of the page cache of turbovec/src/mapped.rs.
use turbovec.Common.{
  ℕ, suc, ◌+◌, ◌-◌, ◌≤◌, ◌≡◌, ◌≢◌, refl, sym, ap, ◌∙◌, subst, inl, inr, ◌⊎◌, Bool, true, false,
  ◌&&◌, ◌||◌, Option, none, some, List, [], ◌∷◌, ◌++◌, length, length-append, mem, filter, not,
  mem-append, ltb, ◌==◌, ==_iff, Bool-cases, Option-cases, arith,
}
use turbovec.Mapped.{
  Chunk, bytes, PagedCache, find_chunk, drop_chunk, drop_key, get, freed, evict, insert,
}
use turbovec.Mapped.Sound.{has_key, Unique, IsCache, evicted-IsCache}

find-drop_chunk :
    (chunks : List (ℕ × Chunk)) (key k : ℕ)
    → k ≢ key
    → find_chunk (drop_chunk chunks key) k ≡ find_chunk chunks k
find-drop_chunk [] key k other = refl
find-drop_chunk ((j, c) ∷ rest) key k other = elim (Bool-cases (j == key)) [
  | inl e ↦
      let miss : (j == k) ≡ false = ground (arith, e, other) in
      rw (drop_chunk, e, find_chunk, miss) refl
  | inr e ↦ elim (Bool-cases (j == k)) [
    | inl f ↦ rw (drop_chunk, e, find_chunk, f) refl
    | inr f ↦ rw (drop_chunk, e, find_chunk, f) (find-drop_chunk rest key k other)
  ]
]

-- The cache is sound, within the budget or down to the newest chunk, and has that one.
pub record IsTrimmed (budget newest : ℕ) (chunk : Option Chunk) (t : PagedCache) : Type 0 where
  pub sound : IsCache t.used t.order t.chunks
  pub small : (t.used ≤ budget) ⊎ (length t.order ≤ 1)
  pub kept : find_chunk t.chunks newest ≡ chunk
  pub same_budget : t.budget ≡ budget

evict-IsTrimmed :
    (budget used : ℕ) (order : List ℕ) (newest : ℕ) (chunks : List (ℕ × Chunk))
    → IsCache used (order ++ newest ∷ []) chunks
    → IsTrimmed budget newest
        (find_chunk chunks newest)
        (evict budget used (order ++ newest ∷ []) chunks)
evict-IsTrimmed budget used [] newest chunks v =
    let one : (ltb budget used && ltb 1 (length (newest ∷ []))) ≡ false = ground arith in
    rw (evict, one)
      (record { sound = v; small = inr (omega arith); kept = refl; same_budget = refl })
evict-IsTrimmed budget used (old ∷ order) newest chunks v =
    let rest = order ++ newest ∷ [] in
    let long : length rest ≡ suc (length order) =
      omega (arith, length-append order (newest ∷ [])) in
    let more : ltb 1 (length (old ∷ rest)) ≡ true = ground (arith, long) in
    elim (Bool-cases (ltb budget used)) [
      | inr e ↦
          rw (evict, e)
            (record { sound = v; small = inl (ground (arith, e)); kept = refl; same_budget = refl })
      | inl e ↦
          let there : mem rest newest ≡ true =
            mem-append order (newest ∷ []) newest ∙ ground (arith, (==_iff newest newest).1 refl) in
          let other : newest ≢ old = λ same. absurd (cc (there, v.unique.0, ap (mem rest) same)) in
          let next =
            evict-IsTrimmed budget (used - freed (find_chunk chunks old)) order newest
              (drop_chunk chunks old) (evicted-IsCache used old rest chunks v) in
          rw (evict, e, more)
            (record {
              sound = next.sound;
              small = next.small;
              kept = next.kept ∙ find-drop_chunk chunks old newest other;
              same_budget = next.same_budget;
            })
    ]

absent :
    (chunks : List (ℕ × Chunk)) (key : ℕ)
    → find_chunk chunks key ≡ none
    → has_key chunks key ≡ false
absent [] key h = refl
absent ((k, c) ∷ rest) key h = elim (Bool-cases (k == key)) [
  | inl e ↦ absurd (cc (rw (find_chunk, e) at h))
  | inr e ↦ rw (has_key, e) (absent rest key (rw (find_chunk, e) at h))
]

Unique-append : (xs : List ℕ) (key : ℕ) → Unique xs → mem xs key ≡ false → Unique (xs ++ key ∷ [])
Unique-append [] key u h = (refl, tt)
Unique-append (x ∷ xs) key (u, us) h =
    let both : ((key == x) || mem xs key) ≡ false = h in
    let apart : (x == key) ≡ false = ground (arith, both) in
    let rest : mem xs key ≡ false = ground (arith, both) in
    (mem-append xs (key ∷ []) x ∙ ground (arith, u, apart), Unique-append xs key us rest)

either_way : (k key : ℕ) (b : Bool) → (b || mem (key ∷ []) k) ≡ ((key == k) || b)
either_way k key b = ground arith

added-IsCache :
    (used key : ℕ) (chunk : Chunk) (order : List ℕ) (chunks : List (ℕ × Chunk))
    → find_chunk chunks key ≡ none
    → IsCache used order chunks
    → IsCache (used + bytes chunk) (order ++ key ∷ []) ((key, chunk) ∷ chunks)
added-IsCache used key chunk order chunks miss v =
    let out : has_key chunks key ≡ false = absent chunks key miss in
    record {
      used_total = omega (arith, v.used_total);
      unique = Unique-append order key v.unique (v.same_keys key ∙ out);
      unique_keys = (out, v.unique_keys);
      same_keys = λ k.
          mem-append order (key ∷ []) k
          ∙ ap (λ b. b || mem (key ∷ []) k) (v.same_keys k)
          ∙ either_way k key (has_key chunks k);
    }

-- An insert into a sound cache that is within its budget, or has one chunk at most, leaves a sound one
-- that is within the budget, or has one chunk at most; a new key then has its chunk, and a key that was
-- there keeps the chunk it had.
pub insert-IsTrimmed :
    (t : PagedCache) (key : ℕ) (chunk : Chunk)
    → IsCache t.used t.order t.chunks
    → (t.used ≤ t.budget) ⊎ (length t.order ≤ 1)
    → IsTrimmed t.budget key
        (some (elim (find_chunk t.chunks key) [ none ↦ chunk | some old ↦ old ]))
        (insert t key chunk)
unfolding insert
insert-IsTrimmed t key chunk v small = elim (Option-cases (find_chunk t.chunks key)) [
  | inr (old, e) ↦ rw e (record { sound = v; small = small; kept = e; same_budget = refl })
  | inl e ↦
      let self : (key == key) ≡ true = (==_iff key key).1 refl in
      let found : find_chunk ((key, chunk) ∷ t.chunks) key ≡ some chunk =
        rw (find_chunk, self) refl in
      let done =
        evict-IsTrimmed t.budget (t.used + bytes chunk) t.order key ((key, chunk) ∷ t.chunks)
          (added-IsCache t.used key chunk t.order t.chunks e v) in
      rw e (record {
        sound = done.sound;
        small = done.small;
        kept = done.kept ∙ found;
        same_budget = done.same_budget;
      })
]

mem-drop_key : (order : List ℕ) (key k : ℕ) → k ≢ key → mem (drop_key order key) k ≡ mem order k
mem-drop_key [] key k other = refl
mem-drop_key (x ∷ xs) key k other = elim (Bool-cases (x == key)) [
  | inl e ↦ rw (drop_key, e) (ground (arith, e, other))
  | inr e ↦ rw (drop_key, e) (ground (arith, mem-drop_key xs key k other))
]

dropped-mem : (order : List ℕ) (key : ℕ) → Unique order → mem (drop_key order key) key ≡ false
dropped-mem [] key u = refl
dropped-mem (x ∷ xs) key (u, us) = elim (Bool-cases (x == key)) [
  | inl e ↦ rw (drop_key, e) (subst (λ y. mem xs y ≡ false) ((==_iff x key).0 e) u)
  | inr e ↦ rw (drop_key, e) (ground (arith, e, dropped-mem xs key us))
]

Unique-drop_key : (order : List ℕ) (key : ℕ) → Unique order → Unique (drop_key order key)
Unique-drop_key [] key u = tt
Unique-drop_key (x ∷ xs) key (u, us) = elim (Bool-cases (x == key)) [
  | inl e ↦ rw (Unique, drop_key, e) us
  | inr e ↦
      rw (Unique, drop_key, e)
        (mem-drop_key xs key x (ground (arith, e)) ∙ u, Unique-drop_key xs key us)
]

has_key_found :
    (chunks : List (ℕ × Chunk)) (key : ℕ) (c : Chunk)
    → find_chunk chunks key ≡ some c
    → has_key chunks key ≡ true
has_key_found [] key c h = absurd (cc h)
has_key_found ((k, d) ∷ rest) key c h = elim (Bool-cases (k == key)) [
  | inl e ↦ rw (has_key, e) refl
  | inr e ↦ rw (has_key, e) (has_key_found rest key c (rw (find_chunk, e) at h))
]

differ : true ≢ false
differ e = absurd (cc e)

filter_absent : (xs : List ℕ) (key : ℕ) → mem xs key ≡ false → filter (λ k. not (k == key)) xs ≡ xs
filter_absent [] key h = refl
filter_absent (x ∷ xs) key h =
    let other : (x == key) ≡ false = ground (arith, h) in
    rw (filter, other) (ap (◌∷◌ x) (filter_absent xs key (ground (arith, h))))

drop_key-filter :
    (order : List ℕ) (key : ℕ)
    → Unique order
    → drop_key order key ≡ filter (λ k. not (k == key)) order
drop_key-filter [] key u = refl
drop_key-filter (x ∷ xs) key (u, us) = elim (Bool-cases (x == key)) [
  | inl e ↦
      let gone : mem xs key ≡ false = subst (λ y. mem xs y ≡ false) ((==_iff x key).0 e) u in
      rw (drop_key, e) (sym (filter_absent xs key gone))
  | inr e ↦ rw (drop_key, e) (ap (◌∷◌ x) (drop_key-filter xs key us))
]

-- A look-up in a sound cache keeps it sound, with the same chunks, bytes in use and budget, and returns
-- the chunk of the key. If it has one, the key becomes the most recently used: it stands last, behind all other keys in
-- the order they had. If not, the order stays.
pub get-IsCache :
    (t : PagedCache) (key : ℕ)
    → IsCache t.used t.order t.chunks
    → let r = get t key in
      (r.1 ≡ find_chunk t.chunks key)
      × IsCache r.0.used r.0.order r.0.chunks
      × (r.0.used ≡ t.used)
      × (r.0.chunks ≡ t.chunks)
      × (r.0.budget ≡ t.budget)
      × (mem t.order key ≡ true → r.0.order ≡ filter (λ k. not (k == key)) t.order ++ key ∷ [])
      × (mem t.order key ≡ false → r.0.order ≡ t.order)
unfolding get
get-IsCache t key v = elim (Option-cases (find_chunk t.chunks key)) [
  | inl e ↦
      let out : mem t.order key ≡ false = v.same_keys key ∙ absent t.chunks key e in
      rw (get, e) (refl, v, refl, refl, refl, λ m. absurd (differ (sym m ∙ out)), λ _. refl)
  | inr (c, e) ↦
      let there : mem t.order key ≡ true = v.same_keys key ∙ has_key_found t.chunks key c e in
      let short = drop_key t.order key in
      rw (get, e)
        (
          refl,
          record {
            used_total = v.used_total;
            unique =
                Unique-append short key (Unique-drop_key t.order key v.unique)
                  (dropped-mem t.order key v.unique);
            unique_keys = v.unique_keys;
            same_keys = λ k.
                let both : mem (short ++ key ∷ []) k ≡ (mem short k || mem (key ∷ []) k) =
                  mem-append short (key ∷ []) k in
                elim (Bool-cases (k == key)) [
                  | inl f ↦
                      let same : k ≡ key = (==_iff k key).0 f in
                      let yes_key : has_key t.chunks k ≡ true =
                        ap (has_key t.chunks) same ∙ sym (v.same_keys key) ∙ there in
                      ground (arith, both, f, yes_key)
                  | inr f ↦
                      let kept = mem-drop_key t.order key k (ground (arith, f)) in
                      ground (arith, both, f, kept, v.same_keys k)
                ];
          },
          refl,
          refl,
          refl,
          λ _. ap (λ ks. ks ++ key ∷ []) (drop_key-filter t.order key v.unique),
          λ m. absurd (differ (sym there ∙ m)),
        )
]
