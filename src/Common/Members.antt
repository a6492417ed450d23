-- ===== src/Common/Members.antt =====
-- Membership of numbers in lists, as a test, and the lists with no repeat.
use Prim.Native.Nat.{ℕ, zero, suc, ◌+◌, ◌<◌, ◌≤◌}
use mathlib.Core.Path.{◌≡◌, refl}
use mathlib.Core.Logic.{inl, inr}
use mathlib.Core.Bool.{Bool, true, false, ◌||◌, ◌&&◌}
use mathlib.Core.List.{List, [], ◌∷◌, ◌++◌, append-nil, append_assoc, map}
use mathlib.Core.Option.{some}
use native.Mathlib.Omega.{arith}
use turbovec.Common.Tests.{◌==◌, Bool-cases, if◌then◌else◌}
use turbovec.Common.Lists.{length, get_elem?}

-- `xs.contains(&a)`
abbrev pub mem : List ℕ → ℕ → Bool
mem [] a = false
mem (x ∷ xs) a = (a == x) || mem xs a

-- No element of the first list repeats, or stands in the second.
abbrev pub Fresh : List ℕ → List ℕ → Type 0
Fresh [] seen = Unit
Fresh (x ∷ xs) seen = (mem seen x ≡ false) × Fresh xs (seen ++ x ∷ [])

abbrev pub Distinct : List ℕ → Type 0
Distinct xs = Fresh xs []

pub mem-append : (xs ys : List ℕ) (a : ℕ) → mem (xs ++ ys) a ≡ (mem xs a || mem ys a)
mem-append [] ys a = refl
mem-append (x ∷ xs) ys a = ground (arith, mem-append xs ys a)

pub mem_of_get : (xs : List ℕ) (i a : ℕ) → get_elem? xs i ≡ some a → mem xs a ≡ true
mem_of_get [] i a h = cc
mem_of_get (x ∷ xs) zero a h = ground arith
mem_of_get (x ∷ xs) (suc i) a h = ground (arith, mem_of_get xs i a h)

pub get_of_mem : (xs : List ℕ) (a : ℕ) → mem xs a ≡ true → (i : ℕ) × (get_elem? xs i ≡ some a)
get_of_mem [] a h = absurd (ground arith)
get_of_mem (x ∷ xs) a h = elim (Bool-cases (a == x)) [
  | inl e ↦ (0, ground arith)
  | inr e ↦ let (i, g) = get_of_mem xs a (ground arith) in (suc i, g)
]

pub get_lt {ℓ} :
    {A : Type ℓ} (xs : List A) (i : ℕ) (a : A) → get_elem? xs i ≡ some a → i < length xs
get_lt [] i a h = absurd (ground arith)
get_lt (x ∷ xs) zero a h = omega arith
get_lt (x ∷ xs) (suc i) a h = omega (arith, get_lt xs i a h)

pub get_of_lt {ℓ} :
    {A : Type ℓ} (xs : List A) (i : ℕ) → i < length xs → (a : A) × (get_elem? xs i ≡ some a)
get_of_lt [] i h = absurd (omega arith)
get_of_lt (x ∷ xs) zero h = (x, refl)
get_of_lt (x ∷ xs) (suc i) h = get_of_lt xs i (omega arith)

pub Fresh-append :
    (xs ys seen : List ℕ) → Fresh xs seen → Fresh ys (seen ++ xs) → Fresh (xs ++ ys) seen
Fresh-append [] ys seen h k = rw append-nil at k
Fresh-append (x ∷ xs) ys seen (hx, h) k =
    (hx, Fresh-append xs ys (seen ++ x ∷ []) h (rw append_assoc k))

abbrev pub count : List ℕ → ℕ → ℕ
count [] a = 0
count (x ∷ xs) a = (if a == x then 1 else 0) + count xs a

pub count-append : (xs ys : List ℕ) (a : ℕ) → count (xs ++ ys) a ≡ count xs a + count ys a
count-append [] ys a = omega arith
count-append (x ∷ xs) ys a = omega (arith, count-append xs ys a)

pub count_of_mem : (xs : List ℕ) (a : ℕ) → mem xs a ≡ true → 1 ≤ count xs a
count_of_mem [] a h = absurd (ground arith)
count_of_mem (x ∷ xs) a h = ground (arith, count_of_mem xs a)

pub count_absent : (xs : List ℕ) (a : ℕ) → mem xs a ≡ false → count xs a ≡ 0
count_absent [] a h = refl
count_absent (x ∷ xs) a h = ground (arith, count_absent xs a)

-- A list with no repeat counts each number at most once, and the other way round.
pub Fresh-of_count : (xs seen : List ℕ) → ((a : ℕ) → count (seen ++ xs) a ≤ 1) → Fresh xs seen
Fresh-of_count [] seen h = tt
Fresh-of_count (x ∷ xs) seen h = (
  elim (Bool-cases (mem seen x)) [
    | inl e ↦ absurd (ground (arith, h x, count-append seen (x ∷ xs) x, count_of_mem seen x e))
    | inr e ↦ e
  ],
  Fresh-of_count xs (seen ++ x ∷ []) (λ a. rw append_assoc (h a)),
)

pub count_of_Fresh :
    (xs seen : List ℕ)
    → ((a : ℕ) → count seen a ≤ 1)
    → Fresh xs seen
    → (a : ℕ) → count (seen ++ xs) a ≤ 1
count_of_Fresh [] seen h f a = rw append-nil (h a)
count_of_Fresh (x ∷ xs) seen h (fresh, f) a = rw append_assoc at (
    count_of_Fresh xs (seen ++ x ∷ [])
      (λ b. ground (arith, h b, count-append seen (x ∷ []) b, count_absent seen x fresh)) f a)

pub Fresh-under :
    (xs seen front : List ℕ)
    → Fresh xs seen
    → ((a : ℕ) → mem xs a ≡ true → mem front a ≡ false)
    → Fresh xs (front ++ seen)
Fresh-under [] seen front f h = tt
Fresh-under (x ∷ xs) seen front (new, f) h = (
  ground (arith, mem-append front seen x, h x),
  rw (append_assoc front seen (x ∷ []))
      (Fresh-under xs (seen ++ x ∷ []) front f (λ a m. ground (arith, h a))),
)

-- `Iterator::filter`, by a Boolean test.
abbrev pub filter : (ℕ → Bool) → List ℕ → List ℕ
filter p [] = []
filter p (x ∷ xs) = let rest = filter p xs in if p x then x ∷ rest else rest

pub mem-filter : (p : ℕ → Bool) (xs : List ℕ) (a : ℕ) → mem (filter p xs) a ≡ (p a && mem xs a)
mem-filter p [] a = ground arith
mem-filter p (x ∷ xs) a = elim (Bool-cases (a == x)) [
  | inl e ↦ let same : a ≡ x = ground arith in rw same (ground (arith, mem-filter p xs x))
  | inr e ↦ ground (arith, mem-filter p xs a, e)
]

pub mem_of_map : (f : ℕ → ℕ) (xs : List ℕ) (a : ℕ) → mem xs a ≡ true → mem (map f xs) (f a) ≡ true
mem_of_map f [] a h = absurd (ground arith)
mem_of_map f (x ∷ xs) a h = elim (Bool-cases (a == x)) [
  | inl e ↦ let same : a ≡ x = ground arith in rw same (ground arith)
  | inr e ↦ ground (arith, mem_of_map f xs a)
]

pub of_mem-map :
    (f : ℕ → ℕ) (xs : List ℕ) (b : ℕ)
    → mem (map f xs) b ≡ true
    → (a : ℕ) × (mem xs a ≡ true) × (f a ≡ b)
of_mem-map f [] b h = absurd (ground arith)
of_mem-map f (x ∷ xs) b h = elim (Bool-cases (b == f x)) [
  | inl e ↦ (x, ground arith, ground arith)
  | inr e ↦ let (a, m, g) = of_mem-map f xs b (ground arith) in (a, ground arith, g)
]

pub length-filter : (p : ℕ → Bool) (xs : List ℕ) → length (filter p xs) ≤ length xs
length-filter p [] = omega arith
length-filter p (x ∷ xs) = ground (arith, length-filter p xs)
