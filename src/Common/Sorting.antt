-- ===== src/Common/Sorting.antt =====
-- Sorted lists of numbers, with `sort_unstable` as an insertion sort, and `dedup`.
use Prim.Native.Nat.{ℕ, suc, ◌-◌, ◌+◌, ◌≤◌, ◌<◌}
use mathlib.Core.Path.{◌≡◌, refl}
use mathlib.Core.Logic.{inl, inr}
use mathlib.Core.Bool.{true, ◌||◌}
use mathlib.Core.List.{List, [], ◌∷◌, ◌++◌}
use native.Mathlib.Omega.{arith}
use turbovec.Common.Tests.{leb, ◌==◌, Bool-cases, if◌then◌else◌}
use turbovec.Common.Lists.{length}
use turbovec.Common.Members.{mem, count}

-- Every element has the property.
abbrev pub All {ℓ κ} : {A : Type ℓ} → (A → Type κ) → List A → Type κ
All P [] = Unit
All P (x ∷ xs) = P x × All P xs

unfoldable pub insert_sorted : ℕ → List ℕ → List ℕ
insert_sorted a [] = a ∷ []
insert_sorted a (x ∷ xs) = if leb a x then a ∷ x ∷ xs else x ∷ insert_sorted a xs

unfoldable pub sort : List ℕ → List ℕ
unfolding insert_sorted
sort [] = []
sort (x ∷ xs) = insert_sorted x (sort xs)

abbrev pub IsSorted : List ℕ → Type 0
IsSorted [] = Unit
IsSorted (x ∷ xs) = All (λ y. x ≤ y) xs × IsSorted xs

pub All-le_trans : (a b : ℕ) (xs : List ℕ) → a ≤ b → All (λ y. b ≤ y) xs → All (λ y. a ≤ y) xs
All-le_trans a b [] h k = tt
All-le_trans a b (x ∷ xs) h (k, ks) = (omega arith, All-le_trans a b xs h ks)

All-insert_sorted :
    (a b : ℕ) (xs : List ℕ) → b ≤ a → All (λ y. b ≤ y) xs → All (λ y. b ≤ y) (insert_sorted a xs)
unfolding insert_sorted
All-insert_sorted a b [] h k = (h, tt)
All-insert_sorted a b (x ∷ xs) h (k, ks) = elim (Bool-cases (leb a x)) [
  | inl e ↦ rw e (h, (k, ks))
  | inr e ↦ rw e (k, All-insert_sorted a b xs h ks)
]

insert_sorted-IsSorted : (a : ℕ) (xs : List ℕ) → IsSorted xs → IsSorted (insert_sorted a xs)
unfolding insert_sorted
insert_sorted-IsSorted a [] h = (tt, tt)
insert_sorted-IsSorted a (x ∷ xs) (h, s) = elim (Bool-cases (leb a x)) [
  | inl e ↦ rw e ((ground arith, All-le_trans a x xs (ground arith) h), (h, s))
  | inr e ↦ rw e (All-insert_sorted a x xs (ground arith) h, insert_sorted-IsSorted a xs s)
]

pub sort-IsSorted : (xs : List ℕ) → IsSorted (sort xs)
unfolding sort
sort-IsSorted [] = tt
sort-IsSorted (x ∷ xs) = insert_sorted-IsSorted x (sort xs) (sort-IsSorted xs)

mem-insert_sorted :
    (a : ℕ) (xs : List ℕ) (b : ℕ) → mem (insert_sorted a xs) b ≡ (b == a || mem xs b)
unfolding insert_sorted
mem-insert_sorted a [] b = refl
mem-insert_sorted a (x ∷ xs) b = ground (arith, mem-insert_sorted a xs b)

pub mem-sort : (xs : List ℕ) (b : ℕ) → mem (sort xs) b ≡ mem xs b
unfolding sort
mem-sort [] b = refl
mem-sort (x ∷ xs) b = ground (arith, mem-sort xs b, mem-insert_sorted x (sort xs) b)

count-insert_sorted :
    (a : ℕ) (xs : List ℕ) (b : ℕ)
    → count (insert_sorted a xs) b ≡ (if b == a then 1 else 0) + count xs b
unfolding insert_sorted
count-insert_sorted a [] b = refl
count-insert_sorted a (x ∷ xs) b = ground (arith, count-insert_sorted a xs b)

pub count-sort : (xs : List ℕ) (b : ℕ) → count (sort xs) b ≡ count xs b
unfolding sort
count-sort [] b = refl
count-sort (x ∷ xs) b = omega (arith, count-sort xs b, count-insert_sorted x (sort xs) b)

pub All-append_left {ℓ κ} :
    {A : Type ℓ} (P : A → Type κ) (xs ys : List A) → All P (xs ++ ys) → All P xs
All-append_left P [] ys a = tt
All-append_left P (x ∷ xs) ys (h, a) = (h, All-append_left P xs ys a)

pub All-append_right {ℓ κ} :
    {A : Type ℓ} (P : A → Type κ) (xs ys : List A) → All P (xs ++ ys) → All P ys
All-append_right P [] ys a = a
All-append_right P (x ∷ xs) ys (h, a) = All-append_right P xs ys a

pub All-append {ℓ κ} :
    {A : Type ℓ} (P : A → Type κ) (xs ys : List A) → All P xs → All P ys → All P (xs ++ ys)
All-append P [] ys a b = b
All-append P (x ∷ xs) ys (h, a) b = (h, All-append P xs ys a b)

pub All_of_mem : (P : ℕ → Type 0) (xs : List ℕ) → ((a : ℕ) → mem xs a ≡ true → P a) → All P xs
All_of_mem P [] h = tt
All_of_mem P (x ∷ xs) h = (h x (ground arith), All_of_mem P xs (λ a m. h a (ground arith)))

pub All-map {ℓ κ μ} :
    {A : Type ℓ} (P : A → Type κ) (Q : A → Type μ) (xs : List A)
    → ((a : A) → P a → Q a)
    → All P xs
    → All Q xs
All-map P Q [] f a = tt
All-map P Q (x ∷ xs) f (h, a) = (f x h, All-map P Q xs f a)

All-above :
    (a low high : ℕ) (xs : List ℕ)
    → All (λ x. a < x) xs
    → All (λ x. (low ≤ x) × (x < high)) xs
    → All (λ x. (suc a ≤ x) × (x < high)) xs
All-above a low high [] h k = tt
All-above a low high (x ∷ xs) (h, hs) ((lo, hi), ks) =
    ((omega arith, hi), All-above a low high xs hs ks)

-- `Vec::dedup`: one of each run of equal elements stays.
unfoldable pub dedup : List ℕ → List ℕ
dedup [] = []
dedup (x ∷ []) = x ∷ []
dedup (x ∷ y ∷ xs) = let rest = dedup (y ∷ xs) in if x == y then rest else x ∷ rest

abbrev pub IsStrict : List ℕ → Type 0
IsStrict [] = Unit
IsStrict (x ∷ xs) = All (λ y. x < y) xs × IsStrict xs

All-lt_le : (a b : ℕ) (xs : List ℕ) → a < b → All (λ y. b ≤ y) xs → All (λ y. a < y) xs
All-lt_le a b [] h k = tt
All-lt_le a b (x ∷ xs) h (k, ks) = (omega arith, All-lt_le a b xs h ks)

pub All-dedup : (P : ℕ → Type 0) (xs : List ℕ) → All P xs → All P (dedup xs)
unfolding dedup
All-dedup P [] h = tt
All-dedup P (x ∷ []) h = h
All-dedup P (x ∷ y ∷ xs) (h, hs) = elim (Bool-cases (x == y)) [
  | inl e ↦ rw e (All-dedup P (y ∷ xs) hs)
  | inr e ↦ rw e (h, All-dedup P (y ∷ xs) hs)
]

pub dedup-IsStrict : (xs : List ℕ) → IsSorted xs → IsStrict (dedup xs)
unfolding dedup
dedup-IsStrict [] s = tt
dedup-IsStrict (x ∷ []) s = (tt, tt)
dedup-IsStrict (x ∷ y ∷ xs) ((le, les), (s, ss)) = elim (Bool-cases (x == y)) [
  | inl e ↦ rw e (dedup-IsStrict (y ∷ xs) (s, ss))
  | inr e ↦
      let below = All-lt_le x y (y ∷ xs) (ground arith) (omega arith, s) in
      rw e (All-dedup (λ z. x < z) (y ∷ xs) below, dedup-IsStrict (y ∷ xs) (s, ss))
]

pub mem-dedup : (xs : List ℕ) (a : ℕ) → mem (dedup xs) a ≡ mem xs a
unfolding dedup
mem-dedup [] a = refl
mem-dedup (x ∷ []) a = refl
mem-dedup (x ∷ y ∷ xs) a = ground (arith, mem-dedup (y ∷ xs) a)

length-insert_sorted : (a : ℕ) (xs : List ℕ) → length (insert_sorted a xs) ≡ suc (length xs)
unfolding insert_sorted
length-insert_sorted a [] = refl
length-insert_sorted a (x ∷ xs) = ground (arith, length-insert_sorted a xs)

pub length-sort : (xs : List ℕ) → length (sort xs) ≡ length xs
unfolding sort
length-sort [] = refl
length-sort (x ∷ xs) = omega (arith, length-sort xs, length-insert_sorted x (sort xs))

pub length-dedup : (xs : List ℕ) → length (dedup xs) ≤ length xs
unfolding dedup
length-dedup [] = omega arith
length-dedup (x ∷ []) = omega arith
length-dedup (x ∷ y ∷ xs) = ground (arith, length-dedup (y ∷ xs))

-- The parts of a strictly sorted list, and the room that one needs.
pub IsStrict-append_left : (xs ys : List ℕ) → IsStrict (xs ++ ys) → IsStrict xs
IsStrict-append_left [] ys s = tt
IsStrict-append_left (x ∷ xs) ys (h, s) =
    (All-append_left (λ y. x < y) xs ys h, IsStrict-append_left xs ys s)

pub IsStrict-append_right : (xs ys : List ℕ) → IsStrict (xs ++ ys) → IsStrict ys
IsStrict-append_right [] ys s = s
IsStrict-append_right (x ∷ xs) ys (h, s) = IsStrict-append_right xs ys s

pub IsStrict-room :
    (xs : List ℕ) (low high : ℕ)
    → IsStrict xs
    → All (λ x. (low ≤ x) × (x < high)) xs
    → length xs ≤ high - low
IsStrict-room [] low high s b = omega arith
IsStrict-room (x ∷ xs) low high (h, s) ((lo, hi), b) =
    omega (arith, IsStrict-room xs (suc x) high s (All-above x low high xs h b))
