-- ===== src/Common/Division.antt =====
-- A quotient and a remainder are determined by what they make up.
use Prim.Native.Nat.{ℕ, zero, suc, ◌+◌, ◌*◌, ◌/◌, ◌%◌, ◌<◌}
use mathlib.Core.Path.{◌≡◌, refl, ap}
use native.Mathlib.Nat.{mod-lt, div-add-mod'}
use native.Mathlib.Omega.{arith}

pub quotient_unique : (q r d m c : ℕ) → q * d + m ≡ r * d + c → m < d → c < d → q ≡ r
quotient_unique zero zero d m c h p s = refl
quotient_unique zero (suc r) d m c h p s = absurd (omega (arith, h, p, s))
quotient_unique (suc q) zero d m c h p s = absurd (omega (arith, h, p, s))
quotient_unique (suc q) (suc r) d m c h p s =
    ap suc (quotient_unique q r d m c (omega (arith, h)) p s)

pub div_of_row : (row col d : ℕ) → col < d → (row * d + col) / d ≡ row
div_of_row row col d h =
    let n = row * d + col in
    quotient_unique (n / d) row d (n % d) col (div-add-mod' n d) (mod-lt n (omega (arith, h))) h

pub mod_of_row : (row col d : ℕ) → col < d → (row * d + col) % d ≡ col
mod_of_row row col d h =
    let n = row * d + col in
    let q : n / d ≡ row = div_of_row row col d h in
    let parts : n / d * d + n % d ≡ n = div-add-mod' n d in
    let whole : row * d + n % d ≡ n = rw q at parts in omega (arith, whole)
