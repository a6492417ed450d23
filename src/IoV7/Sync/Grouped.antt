-- ===== src/IoV7/Sync/Grouped.antt =====
-- The groups of redo ops that `plan_incremental` of turbovec/src/io_v7.rs forms.
use turbovec.Common.{
  ℕ, ◌+◌, ◌*◌, ◌/◌, ◌^◌, ◌≤◌, ◌<◌, ◌≡◌, refl, sym, ap, ◌∙◌, List, [], ◌∷◌, ◌++◌, inl, inr, length,
  length-append, All, All-append, All-append_left, All-append_right, All-map, All_of_mem, IsStrict,
  IsStrict-append_left, IsStrict-append_right, IsStrict-room, ◌==◌, Bool-cases, arith,
}
use mathlib.Core.List.{append-nil, append_assoc}
use turbovec.Pack.Geometry.{block}
use turbovec.IoV7.Header.Reading.{groups_len, IsGroup}
use turbovec.IoV7.Sync.{block_of, push_slot, push_slots, carried_slots}
use turbovec.IoV7.Sync.Chosen.{mem-carried_slots, carried_slots-IsStrict}

-- The slots of all groups, in order.
unfoldable pub all_slots : List (ℕ × List ℕ) → List ℕ
all_slots [] = []
all_slots ((b, slots) ∷ groups) = slots ++ all_slots groups

all_slots-push_slot :
    (groups : List (ℕ × List ℕ)) (s : ℕ)
    → all_slots (push_slot groups s) ≡ all_slots groups ++ s ∷ []
unfolding all_slots push_slot
all_slots-push_slot [] s = refl
all_slots-push_slot ((b, slots) ∷ []) s = elim (Bool-cases (b == block_of s)) [
  | inl e ↦ rw (e, append-nil (slots ++ s ∷ []), append-nil slots)
  | inr e ↦ rw (e, append-nil slots)
]
all_slots-push_slot ((b, slots) ∷ h ∷ groups) s =
    rw (all_slots-push_slot (h ∷ groups) s)
      (sym (append_assoc slots (all_slots (h ∷ groups)) (s ∷ [])))

all_slots-push_slots :
    (slots : List ℕ) (groups : List (ℕ × List ℕ))
    → all_slots (push_slots groups slots) ≡ all_slots groups ++ slots
unfolding push_slots
all_slots-push_slots [] groups = sym (append-nil (all_slots groups))
all_slots-push_slots (s ∷ slots) groups =
    all_slots-push_slots slots (push_slot groups s)
    ∙ ap (λ x. x ++ slots) (all_slots-push_slot groups s)
    ∙ append_assoc (all_slots groups) (s ∷ []) slots

-- A group holds a slot at least, and slots of its own block only.
abbrev pub Owned : ℕ × List ℕ → Type 0
Owned (b, slots) = (1 ≤ length slots) × All (λ s. s / block ≡ b) slots

push_slot-Owned :
    (groups : List (ℕ × List ℕ)) (s : ℕ) → All Owned groups → All Owned (push_slot groups s)
unfolding push_slot
push_slot-Owned [] s a = ((omega arith, (refl, tt)), tt)
push_slot-Owned ((b, slots) ∷ []) s ((some_slot, own), a) = elim (Bool-cases (b == block_of s)) [
  | inl e ↦ rw e (
    (
      omega (arith, length-append slots (s ∷ [])),
      All-append (λ t. t / block ≡ b) slots (s ∷ []) own (ground arith, tt),
    ),
    tt,
  )
  | inr e ↦ rw e ((some_slot, own), ((omega arith, (refl, tt)), tt))
]
push_slot-Owned (g ∷ h ∷ groups) s (o, a) = (o, push_slot-Owned (h ∷ groups) s a)

pub push_slots-Owned :
    (slots : List ℕ) (groups : List (ℕ × List ℕ))
    → All Owned groups
    → All Owned (push_slots groups slots)
unfolding push_slots
push_slots-Owned [] groups a = a
push_slots-Owned (s ∷ slots) groups a =
    push_slots-Owned slots (push_slot groups s) (push_slot-Owned groups s a)

-- Of groups whose slots are strictly sorted, each has a whole block's slots at most.
IsGroup-of_Owned :
    (n : ℕ) (groups : List (ℕ × List ℕ))
    → n / block ≤ 2 ^ 32
    → IsStrict (all_slots groups)
    → All (λ s. s / block < n / block) (all_slots groups)
    → All Owned groups
    → All (IsGroup n) groups
unfolding all_slots
IsGroup-of_Owned n [] w s l a = tt
IsGroup-of_Owned n ((b, slots) ∷ groups) w s l ((one, own), a) =
    let mine = IsStrict-append_left slots (all_slots groups) s in
    let low = All-append_left (λ t. t / block < n / block) slots (all_slots groups) l in
    let inside : All (λ t. (b * block ≤ t) × (t < b * block + block)) slots =
      All-map (λ t. t / block ≡ b) (λ t. (b * block ≤ t) × (t < b * block + block)) slots
        (λ t e. (omega arith, omega arith)) own in
    let room = IsStrict-room slots (b * block) (b * block + block) mine inside in
    let bound = first_below slots own low one in
    (
      (bound, omega arith, omega arith, own),
      IsGroup-of_Owned n groups w (IsStrict-append_right slots (all_slots groups) s)
          (All-append_right (λ t. t / block < n / block) slots (all_slots groups) l) a,
    )
  where
    first_below :
        (slots : List ℕ)
        → All (λ s. s / block ≡ b) slots
        → All (λ s. s / block < n / block) slots
        → 1 ≤ length slots
        → b < n / block
    first_below [] own low h = absurd (omega arith)
    first_below (s ∷ slots) (o, own) (k, low) h = omega arith

-- The bytes that the groups take: five and the slots' ops each.
groups_len-Owned :
    (size : ℕ) (groups : List (ℕ × List ℕ))
    → All Owned groups
    → groups_len size groups ≤ length (all_slots groups) * (5 + size)
      × length groups ≤ length (all_slots groups)
unfolding groups_len all_slots
groups_len-Owned size [] a = (omega arith, omega arith)
groups_len-Owned size ((b, slots) ∷ groups) ((one, own), a) =
    let (fit, few) = groups_len-Owned size groups a in
    (
      rw (length-append slots (all_slots groups)) (omega arith),
      omega (arith, length-append slots (all_slots groups)),
    )

-- The groups of a plan.
module _ (blocks : ℕ) (pending fresh : List ℕ) where
  abbrev carried : List ℕ
  carried = carried_slots blocks pending fresh

  -- The groups hold exactly the carried slots, in order.
  pub all_slots-push_slots_nil : all_slots (push_slots [] carried) ≡ carried
  unfolding all_slots
  all_slots-push_slots_nil = all_slots-push_slots carried []

  pub carried-IsGroup :
      (n : ℕ) → n / block ≤ 2 ^ 32 → blocks ≤ n / block → All (IsGroup n) (push_slots [] carried)
  carried-IsGroup n w h =
      let all = all_slots-push_slots_nil in
      IsGroup-of_Owned n (push_slots [] carried) w
        (rw all (carried_slots-IsStrict blocks pending fresh))
        (rw all (
          All_of_mem (λ s. s / block < n / block) carried
            (λ s m. ground (arith, mem-carried_slots blocks pending fresh s))))
        (push_slots-Owned carried [] tt)

  pub groups_len-carried :
      (size : ℕ)
      → groups_len size (push_slots [] carried) ≤ length carried * (5 + size)
        × length (push_slots [] carried) ≤ length carried
  groups_len-carried size =
      rw all_slots-push_slots_nil at
        (groups_len-Owned size (push_slots [] carried) (push_slots-Owned carried [] tt))
