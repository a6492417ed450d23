-- ===== src/Index/Valid/Pairs.antt =====
-- Rows with their scales, when a hole is closed in both.
use turbovec.Common.{
  ℕ, zero, suc, ◌≤◌, ◌≡◌, refl, sym, ◌∙◌, inl, inr, Bool, true, false, Option, none, some, List, [],
  ◌∷◌, length, same_places, get_elem?, ltb, ◌==◌, if◌then◌else◌, Option-cases,
}
use mathlib.Core.Path.{ap₂}
use turbovec.VectorIndex.{swap_remove_at}
use turbovec.Index.Shrink.{close_hole}
use turbovec.Index.Shrink.Closed.{close_hole-swap_remove_at, get-close_hole}
use turbovec.Index.Valid.{pairs}
use turbovec.Index.Valid.Batch.{length-pairs}

module _ {A B : Type 0} where
  abbrev pub zip_at : Option A → Option B → Option (A × B)
  zip_at none b = none
  zip_at (some a) none = none
  zip_at (some a) (some b) = some (a, b)

  pub get-pairs :
      (xs : List A) (ys : List B) (i : ℕ)
      → get_elem? (pairs xs ys) i ≡ zip_at (get_elem? xs i) (get_elem? ys i)
  get-pairs [] ys i = refl
  get-pairs (x ∷ xs) [] zero = refl
  get-pairs (x ∷ xs) [] (suc i) = elim (Option-cases (get_elem? xs i)) [
    | inl e ↦ rw e refl
    | inr (a, e) ↦ rw e refl
  ]
  get-pairs (x ∷ xs) (y ∷ ys) zero = refl
  get-pairs (x ∷ xs) (y ∷ ys) (suc i) = get-pairs xs ys i

  pub zip_pick :
      (b c : Bool) (x x2 : Option A) (y y2 : Option B)
      → zip_at
          (if b then (if c then x else x2) else none)
          (if b then (if c then y else y2) else none)
        ≡ (if b then (if c then zip_at x y else zip_at x2 y2) else none)
  zip_pick false c x x2 y y2 = refl
  zip_pick true true x x2 y y2 = refl
  zip_pick true false x x2 y y2 = refl

  pub close_hole-pairs :
      (xs : List A) (ys : List B) (idx last : ℕ)
      → length xs ≡ suc last
      → length ys ≡ suc last
      → idx ≤ last
      → pairs (close_hole xs idx last) (close_hole ys idx last) ≡ swap_remove_at (pairs xs ys) idx
  close_hole-pairs xs ys idx last h k inside =
      let size : length (pairs xs ys) ≡ suc last = length-pairs xs ys (h ∙ sym k) ∙ h in
      same_places (pairs (close_hole xs idx last) (close_hole ys idx last))
        (close_hole (pairs xs ys) idx last)
        (λ i.
          get-pairs (close_hole xs idx last) (close_hole ys idx last) i
          ∙ ap₂ zip_at (get-close_hole xs idx last i h) (get-close_hole ys idx last i k)
          ∙ zip_pick (ltb i last) (i == idx) (get_elem? xs last) (get_elem? xs i)
              (get_elem? ys last) (get_elem? ys i)
          ∙ sym (
              ap₂ (λ p q. if ltb i last then (if i == idx then p else q) else none)
                (get-pairs xs ys last) (get-pairs xs ys i))
          ∙ sym (get-close_hole (pairs xs ys) idx last i size))
      ∙ close_hole-swap_remove_at (pairs xs ys) idx last size inside
