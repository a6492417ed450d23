-- ===== src/IdMap/Slots.antt =====
-- The two tables of an `IdMapIndex`: a map from ids to slots that inverts the list of ids by slot,
-- and what insertions, removals and the validation loop do to the pair.
use turbovec.Common.{
  ℕ, zero, suc, ◌+◌, ◌-◌, ◌≤◌, ◌<◌, ◌≡◌, refl, ◌∙◌, Bool, true, false, ◌||◌, none, some, List, [],
  ◌∷◌, ◌++◌, ◌↔◌, ◌≢◌, ◌⊎◌, inl, inr, length, length-append, get_elem?, set, take, ◌==◌,
  if◌then◌else◌, mem, mem-append, mem_of_get, get_of_mem, get_lt, Fresh, Bool-cases, Option-cases,
  ltb, count, count-append, count_of_mem, arith,
}
use mathlib.Core.List.{append-nil, append_assoc}
use turbovec.Error.{AddError}
use turbovec.IdMap.{
  SlotMap, IdSet, insert, erase, add_id, insert_from, extend, empty_map, check_batch, is_some,
  all_addable,
}

-- The map sends an id to a slot exactly when the slot holds the id.
abbrev pub Inverse : SlotMap → List ℕ → Type 0
Inverse t slots = (id slot : ℕ) → (t id ≡ some slot) ↔ (get_elem? slots slot ≡ some id)

pub Inverse-nil : Inverse empty_map []
Inverse-nil id slot = (λ h. ground arith, λ h. ground arith)

pub get_append_left {ℓ} :
    {A : Type ℓ} (xs ys : List A) (i : ℕ) → i < length xs → get_elem? (xs ++ ys) i ≡ get_elem? xs i
get_append_left [] ys i h = absurd (omega arith)
get_append_left (x ∷ xs) ys zero h = refl
get_append_left (x ∷ xs) ys (suc i) h = get_append_left xs ys i (omega arith)

pub get_append_right {ℓ} :
    {A : Type ℓ} (xs ys : List A) (i : ℕ) → get_elem? (xs ++ ys) (length xs + i) ≡ get_elem? ys i
get_append_right [] ys i = let e : 0 + i ≡ i = omega arith in rw e
get_append_right (x ∷ xs) ys i =
    let e : suc (length xs) + i ≡ suc (length xs + i) = omega arith in
    rw e (get_append_right xs ys i)

get_past {ℓ} : {A : Type ℓ} (xs : List A) (i : ℕ) → length xs ≤ i → get_elem? xs i ≡ none
get_past [] i h = refl
get_past (x ∷ xs) zero h = absurd (omega arith)
get_past (x ∷ xs) (suc i) h = get_past xs i (omega arith)

-- A list with one more element at its end.
pub get_snoc {ℓ} :
    {A : Type ℓ} (xs : List A) (a : A) (i : ℕ)
    → get_elem? (xs ++ a ∷ []) i ≡ (if i == length xs then some a else get_elem? xs i)
get_snoc [] a zero = refl
get_snoc [] a (suc i) = ground arith
get_snoc (x ∷ xs) a zero = ground arith
get_snoc (x ∷ xs) a (suc i) = get_snoc xs a i ∙ ground arith

pub is_some-mem :
    (t : SlotMap) (slots : List ℕ) → Inverse t slots → (id : ℕ) → is_some (t id) ≡ mem slots id
is_some-mem t slots inv id = elim (Option-cases (t id)) [
  | inl e ↦ elim (Bool-cases (mem slots id)) [
    | inl m ↦ let (i, g) = get_of_mem slots id m in absurd (ground (arith, (inv id i).1 g))
    | inr m ↦ rw (e, m)
  ]
  | inr (slot, e) ↦ rw (e, mem_of_get slots slot id ((inv id slot).0 e))
]

pub Inverse-insert :
    (t : SlotMap) (slots : List ℕ) (id : ℕ)
    → Inverse t slots
    → mem slots id ≡ false
    → Inverse (insert t id (length slots)) (slots ++ id ∷ [])
Inverse-insert t slots id inv new j slot = (
  λ h. ground (arith, get_snoc slots id slot, inv j slot, get_lt slots slot j),
  λ h.
      ground
        (arith, get_snoc slots id slot, inv j slot, get_lt slots slot j, mem_of_get slots slot id),
)

pub Inverse-insert_from :
    (ids : List ℕ) (t : SlotMap) (slots : List ℕ)
    → Inverse t slots
    → Fresh ids slots
    → Inverse (insert_from t (length slots) ids) (slots ++ ids)
unfolding insert_from
Inverse-insert_from [] t slots inv f = rw append-nil inv
Inverse-insert_from (id ∷ ids) t slots inv (new, f) =
    let next = slots ++ id ∷ [] in
    let e : suc (length slots) ≡ length next = omega (arith, length-append slots (id ∷ [])) in
    rw e (
      rw append_assoc at (
        Inverse-insert_from ids (insert t id (length slots)) next
          (Inverse-insert t slots id inv new) f))

pub get_take {ℓ} :
    {A : Type ℓ} (xs : List A) (n i : ℕ)
    → get_elem? (take n xs) i ≡ (if ltb i n then get_elem? xs i else none)
get_take xs zero i = ground arith
get_take [] (suc n) i = ground arith
get_take (x ∷ xs) (suc n) zero = ground arith
get_take (x ∷ xs) (suc n) (suc i) = ground (arith, get_take xs n i)

pub get_set {ℓ} :
    {A : Type ℓ} (xs : List A) (k : ℕ) (v : A) (i : ℕ)
    → k < length xs
    → get_elem? (set xs k v) i ≡ (if i == k then some v else get_elem? xs i)
get_set [] k v i h = absurd (omega arith)
get_set (x ∷ xs) zero v zero h = ground arith
get_set (x ∷ xs) zero v (suc i) h = ground arith
get_set (x ∷ xs) (suc k) v zero h = ground arith
get_set (x ∷ xs) (suc k) v (suc i) h = ground (arith, get_set xs k v i)

-- The last slot is dropped with its id.
pub Inverse-pop :
    (t : SlotMap) (slots : List ℕ) (id : ℕ)
    → Inverse t slots
    → t id ≡ some (length slots - 1)
    → Inverse (erase t id) (take (length slots - 1) slots)
Inverse-pop t slots id inv at j slot = (
  λ h. ground (
    arith,
    get_take slots (length slots - 1) slot,
    inv j slot,
    get_lt slots slot j,
    inv id slot,
    inv id (length slots - 1),
  ),
  λ h. ground (
    arith,
    get_take slots (length slots - 1) slot,
    inv j slot,
    get_lt slots slot j,
    inv id (length slots - 1),
  ),
)

-- The last id moves into the slot that is freed.
pub Inverse-swap :
    (t : SlotMap) (slots : List ℕ) (id slot moved : ℕ)
    → Inverse t slots
    → t id ≡ some slot
    → slot ≢ length slots - 1
    → get_elem? slots (length slots - 1) ≡ some moved
    → Inverse (insert (erase t id) moved slot) (take (length slots - 1) (set slots slot moved))
Inverse-swap t slots id slot moved inv at ne last j s =
    let last_slot = length slots - 1 in
    let lt : slot < length slots = get_lt slots slot id ((inv id slot).0 at) in
    let back : t moved ≡ some last_slot = (inv moved last_slot).1 last in
    let got = get_take (set slots slot moved) last_slot s in
    let was = get_set slots slot moved s lt in
    (
      λ h. ground (arith, got, was, inv j s, get_lt slots s j, inv id s, inv id slot, lt),
      λ h. ground (arith, got, was, inv j s, get_lt slots s j, inv id s, inv moved s),
    )

pub extend-mem : (ids : List ℕ) (s : IdSet) (a : ℕ) → extend s ids a ≡ (s a || mem ids a)
unfolding extend
extend-mem [] s a = ground arith
extend-mem (id ∷ ids) s a = extend-mem ids (add_id s id) a ∙ ground arith

-- The loop passes a batch exactly when no id of it is present or repeats.
module _ {F : Type 0} (present : ℕ → Bool) where
  pub check_batch-Fresh :
      (ids seen : List ℕ) (set : IdSet)
      → ((a : ℕ) → set a ≡ mem seen a)
      → check_batch {F = F} present set ids ≡ none
      → (Fresh ids seen) × ((a : ℕ) → mem ids a ≡ true → present a ≡ false)
  unfolding check_batch
  check_batch-Fresh [] seen set h c = (tt, λ a m. absurd (ground arith))
  check_batch-Fresh (id ∷ ids) seen set h c =
      let (f, p) =
        check_batch-Fresh ids (seen ++ id ∷ []) (add_id set id)
          (λ a. ground (arith, h a, mem-append seen (id ∷ []) a)) (ground arith) in
      ((ground (arith, h id), f), λ a m. ground (arith, p a))

  pub all_addable-check_batch :
      (ids : List ℕ) (set : IdSet)
      → (all_addable present set ids ≡ true) ↔ (check_batch {F = F} present set ids ≡ none)
  unfolding check_batch all_addable
  all_addable-check_batch [] set = (λ h. refl, λ h. refl)
  all_addable-check_batch (id ∷ ids) set = (
    λ h. ground (arith, (all_addable-check_batch ids (add_id set id)).0),
    λ h. ground (arith, (all_addable-check_batch ids (add_id set id)).1),
  )

  -- What the loop reports is true of the batch.
  pub check_batch-some :
      (ids seen : List ℕ) (set : IdSet) (e : AddError F)
      → ((a : ℕ) → set a ≡ mem seen a)
      → check_batch present set ids ≡ some e
      → ((id : ℕ) × (e ≡ AddError.id_already_present id)
          × (mem ids id ≡ true)
          × (present id ≡ true))
        ⊎ ((id : ℕ) × (e ≡ AddError.duplicate_id_in_batch id) × (2 ≤ count (seen ++ ids) id))
  unfolding check_batch
  check_batch-some [] seen set e h c = absurd (ground arith)
  check_batch-some (id ∷ ids) seen set e h c = elim (Bool-cases (present id)) [
    | inl p ↦ inl (id, ground arith, ground arith, p)
    | inr p ↦ elim (Bool-cases (set id)) [
      | inl s ↦ inr (
        id,
        ground arith,
        ground (arith, h id, count-append seen (id ∷ ids) id, count_of_mem seen id),
      )
      | inr s ↦
          elim (check_batch-some ids (seen ++ id ∷ []) (add_id set id) e
            (λ a. ground (arith, h a, mem-append seen (id ∷ []) a)) (ground arith)) [
              | inl (j, q, m, r) ↦ inl (j, q, ground arith, r)
              | inr (j, q, two) ↦ inr (j, q, rw append_assoc at two)
            ]
    ]
  ]
