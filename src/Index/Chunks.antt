-- ===== src/Index/Chunks.antt =====
-- `slice::chunks` and `Iterator::min`, as `par_first_invalid_coord` of turbovec/src/encode.rs and the
-- mask of a search in turbovec/src/lib.rs use them.
use turbovec.Common.{
  ℕ, zero, suc, ◌≤◌, min, ◌≡◌, refl, ap, inl, inr, Option, none, some, List, [], ◌∷◌, All, take,
  drop, Option-cases, arith,
}

-- A list in pieces of `c` elements, the last one shorter.
abbrev pub chunks {ℓ} : {A : Type ℓ} → ℕ → ℕ → List A → List (List A)
chunks c zero xs = []
chunks c (suc fuel) [] = []
chunks c (suc fuel) (x ∷ xs) = take c (x ∷ xs) ∷ chunks c fuel (drop c (x ∷ xs))

abbrev pub minimum : List ℕ → Option ℕ
minimum [] = none
minimum (x ∷ xs) = elim (minimum xs) [ none ↦ some x | some y ↦ some (min x y) ]

some_inj : {a b : ℕ} → some a ≡ some b → a ≡ b
some_inj h = cc

pub minimum_first : (x : ℕ) (xs : List ℕ) → All (λ y. x ≤ y) xs → minimum (x ∷ xs) ≡ some x
minimum_first x [] h = refl
minimum_first x (y ∷ ys) (h, t) = elim (Option-cases (minimum ys)) [
  | inl e ↦ rw e (ap some (omega (arith, h)))
  | inr (m, e) ↦
      let first : elim (minimum ys) [ none ↦ some x | some z ↦ some (min x z) ] ≡ some x =
        minimum_first x ys t in
      let below : min x m ≡ x = some_inj (rw e at first) in rw e (ap some (omega (arith, h, below)))
]
