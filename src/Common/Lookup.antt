-- ===== src/Common/Lookup.antt =====
-- What is at each place of a list: lists that agree at every place are equal.
use Prim.Native.Nat.{ℕ, zero, suc, ◌+◌, ◌-◌, ◌≤◌}
use mathlib.Core.Path.{◌≡◌, refl, ap}
use mathlib.Core.Bool.{false, ◌&&◌}
use mathlib.Core.List.{List, [], ◌∷◌, ◌++◌}
use mathlib.Core.Option.{none, some}
use native.Mathlib.Omega.{arith}
use turbovec.Common.Tests.{ltb, ◌==◌, if◌then◌else◌}
use turbovec.Common.Lists.{length, get_elem?, set, take, drop, replicate}

module _ {ℓ} {A : Type ℓ} where
  pub same_places : (xs ys : List A) → ((i : ℕ) → get_elem? xs i ≡ get_elem? ys i) → xs ≡ ys
  same_places [] [] h = refl
  same_places [] (y ∷ ys) h = absurd (ground (arith, h 0))
  same_places (x ∷ xs) [] h = absurd (ground (arith, h 0))
  same_places (x ∷ xs) (y ∷ ys) h =
      let head : x ≡ y = cc (h 0) in rw (head, same_places xs ys (λ i. h (suc i))) refl

  pub get_beyond : (xs : List A) (i : ℕ) → ltb i (length xs) ≡ false → get_elem? xs i ≡ none
  get_beyond [] i h = refl
  get_beyond (x ∷ xs) zero h = absurd (ground (arith, h))
  get_beyond (x ∷ xs) (suc i) h = get_beyond xs i (ground (arith, h))

  pub get_none : (xs : List A) (i : ℕ) → get_elem? xs i ≡ none → length xs ≤ i
  get_none [] i h = omega arith
  get_none (x ∷ xs) zero h = cc
  get_none (x ∷ xs) (suc i) h = omega (arith, get_none xs i h)

  pub get-take :
      (n : ℕ) (xs : List A) (i : ℕ)
      → get_elem? (take n xs) i ≡ (if ltb i n then get_elem? xs i else none)
  get-take zero xs i = ground arith
  get-take (suc n) [] i = ground arith
  get-take (suc n) (x ∷ xs) zero = ground arith
  get-take (suc n) (x ∷ xs) (suc i) = ground (arith, get-take n xs i)

  pub get-drop : (n : ℕ) (xs : List A) (i : ℕ) → get_elem? (drop n xs) i ≡ get_elem? xs (n + i)
  get-drop zero xs i = ap (get_elem? xs) (omega arith)
  get-drop (suc n) [] i = refl
  get-drop (suc n) (x ∷ xs) i =
      let deeper : suc n + i ≡ suc (n + i) = omega arith in rw deeper (get-drop n xs i)

  pub get-append :
      (xs ys : List A) (i : ℕ)
      → get_elem? (xs ++ ys) i
        ≡ (if ltb i (length xs) then get_elem? xs i else get_elem? ys (i - length xs))
  get-append [] ys i = ground arith
  get-append (x ∷ xs) ys zero = ground arith
  get-append (x ∷ xs) ys (suc i) = ground (arith, get-append xs ys i)

  pub get-replicate :
      (n : ℕ) (a : A) (i : ℕ) → get_elem? (replicate n a) i ≡ (if ltb i n then some a else none)
  get-replicate zero a i = ground arith
  get-replicate (suc n) a zero = ground arith
  get-replicate (suc n) a (suc i) = ground (arith, get-replicate n a i)

  pub get-set :
      (xs : List A) (j : ℕ) (a : A) (i : ℕ)
      → get_elem? (set xs j a) i
        ≡ (if (i == j) && ltb i (length xs) then some a else get_elem? xs i)
  get-set [] j a i = ground arith
  get-set (x ∷ xs) zero a zero = ground arith
  get-set (x ∷ xs) zero a (suc i) = ground arith
  get-set (x ∷ xs) (suc j) a zero = ground arith
  get-set (x ∷ xs) (suc j) a (suc i) = ground (arith, get-set xs j a i)
