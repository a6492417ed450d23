-- ===== src/Pack/Lanes/Lens.antt =====
-- A code byte that is written is read back, and no other code byte changes (turbovec/src/pack.rs).
use turbovec.Common.{
  ℕ, zero, suc, ◌+◌, ◌*◌, ◌/◌, ◌%◌, ◌<◌, ◌≡◌, refl, sym, ◌∙◌, Bool, true, false, ◌&&◌, List, [],
  ◌∷◌, length, get_or, set, ◌==◌, if◌then◌else◌, arith,
}
use turbovec.Pack.Geometry.{block}
use turbovec.Pack.Lanes.{
  Layout, vm8, vector_major, perm0, sequential, inv_perm0, vm_byte_index, vm8_byte_index, read_code,
  write_code,
}

pub get_or-set :
    (xs : List ℕ) (i j v : ℕ)
    → i < length xs
    → get_or (set xs i v) j 0 ≡ (if i == j then v else get_or xs j 0)
get_or-set [] i j v h = absurd (omega arith)
get_or-set (x ∷ xs) zero zero v h = refl
get_or-set (x ∷ xs) zero (suc j) v h = ground arith
get_or-set (x ∷ xs) (suc i) zero v h = ground arith
get_or-set (x ∷ xs) (suc i) (suc j) v h = ground (arith, get_or-set xs i j v (omega arith))

-- The groups that a layout takes together.
abbrev pub Fits : Layout → ℕ → Type 0
Fits vm8 n_byte_groups = n_byte_groups % 8 ≡ 0
Fits vector_major n_byte_groups = n_byte_groups % 4 ≡ 0
Fits perm0 n_byte_groups = Unit
Fits sequential n_byte_groups = Unit

pub inv_perm0_lem : (l : ℕ) → l < 16 → get_or inv_perm0 l 0 ≡ l % 8 * 2 + l / 8
inv_perm0_lem zero h = refl
inv_perm0_lem (suc zero) h = refl
inv_perm0_lem (suc (suc zero)) h = refl
inv_perm0_lem (suc (suc (suc zero))) h = refl
inv_perm0_lem (suc (suc (suc (suc zero)))) h = refl
inv_perm0_lem (suc (suc (suc (suc (suc zero))))) h = refl
inv_perm0_lem (suc (suc (suc (suc (suc (suc zero)))))) h = refl
inv_perm0_lem (suc (suc (suc (suc (suc (suc (suc zero))))))) h = refl
inv_perm0_lem (suc (suc (suc (suc (suc (suc (suc (suc zero)))))))) h = refl
inv_perm0_lem (suc (suc (suc (suc (suc (suc (suc (suc (suc zero))))))))) h = refl
inv_perm0_lem (suc (suc (suc (suc (suc (suc (suc (suc (suc (suc zero)))))))))) h = refl
inv_perm0_lem (suc (suc (suc (suc (suc (suc (suc (suc (suc (suc (suc zero))))))))))) h = refl
inv_perm0_lem (suc (suc (suc (suc (suc (suc (suc (suc (suc (suc (suc (suc zero)))))))))))) h = refl
inv_perm0_lem (suc (suc (suc (suc (suc (suc (suc (suc (suc (suc (suc (suc (suc zero))))))))))))) h =
    refl
inv_perm0_lem
      (suc (suc (suc (suc (suc (suc (suc (suc (suc (suc (suc (suc (suc (suc zero)))))))))))))) h =
    refl
inv_perm0_lem
      (suc (suc (suc (suc (suc (suc (suc (suc (suc (suc (suc (suc (suc (suc (suc zero)))))))))))))))
      h =
    refl
inv_perm0_lem
      (suc
        (suc (suc (suc (suc (suc (suc (suc (suc (suc (suc (suc (suc (suc (suc (suc l))))))))))))))))
      h =
    absurd (omega arith)

-- One place in the buffer: a block, a byte group of it, and a lane.
pub record IsPlace (n_byte_groups n_blocks b g lane : ℕ) : Type 0 where
  pub group_lt : g < n_byte_groups
  pub lane_lt : lane < block
  pub block_lt : b < n_blocks

abbrev pub same_place : ℕ → ℕ → ℕ → ℕ → ℕ → ℕ → Bool
same_place b g lane b' g' lane' = (b == b') && ((g == g') && (lane == lane'))

-- Cells of `size` bytes: two offsets in cells meet only in the same cell.
pub cells :
    (size b b' o o' : ℕ)
    → o < size
    → o' < size
    → b * size + o ≡ b' * size + o'
    → (b ≡ b') × (o ≡ o')
cells size zero zero o o' h h' e = (refl, omega arith)
cells size zero (suc b') o o' h h' e = absurd (omega arith)
cells size (suc b) zero o o' h h' e = absurd (omega arith)
cells size (suc b) (suc b') o o' h h' e =
    let (x, y) = cells size b b' o o' h h' (omega arith) in (omega arith, y)

pub cell_lt : (size n b o : ℕ) → o < size → b < n → b * size + o < n * size
cell_lt size zero b o h lt = absurd (omega arith)
cell_lt size (suc n) zero o h lt = omega arith
cell_lt size (suc n) (suc b) o h lt = omega (arith, cell_lt size n b o h (omega arith))

-- A write into one of the byte layouts: the places of two bytes are the same only if the bytes are.
set_lem :
    (xs : List ℕ) (i j c : ℕ) (same : Bool)
    → i < length xs
    → (same ≡ true → i ≡ j)
    → (i ≡ j → same ≡ true)
    → get_or (set xs i c) j 0 ≡ (if same then c else get_or xs j 0)
set_lem xs i j c true h f g = ground (arith, get_or-set xs i j c h, f refl)
set_lem xs i j c false h f g = ground (arith, get_or-set xs i j c h, g)

module _ (n_byte_groups n_blocks b g lane b' g' lane' : ℕ)
    (p : IsPlace n_byte_groups n_blocks b g lane)
    (q : IsPlace n_byte_groups n_blocks b' g' lane') where
  abbrev here : Bool
  here = same_place b g lane b' g' lane'

  byte_lem :
      (blocked : List ℕ) (c i j o o' : ℕ)
      → length blocked ≡ n_blocks * (n_byte_groups * block)
      → i ≡ b * (n_byte_groups * block) + o
      → j ≡ b' * (n_byte_groups * block) + o'
      → o < n_byte_groups * block
      → o' < n_byte_groups * block
      → (o ≡ o' → (g ≡ g') × (lane ≡ lane'))
      → (b ≡ b' → g ≡ g' → lane ≡ lane' → i ≡ j)
      → get_or (set blocked i c) j 0 ≡ (if here then c else get_or blocked j 0)
  byte_lem blocked c i j o o' n e e' lt lt' inj back =
      set_lem blocked i j c here
        (omega (arith, n, e, cell_lt (n_byte_groups * block) n_blocks b o lt p.block_lt))
        (λ h. ground (arith, back))
        (λ h.
          let (x, y) = cells (n_byte_groups * block) b b' o o' lt lt' (sym e ∙ h ∙ e') in
          let (u, w) = inj y in ground arith)

  pub vm_lem :
      (blocked : List ℕ) (c : ℕ)
      → length blocked ≡ n_blocks * (n_byte_groups * block)
      → Fits vector_major n_byte_groups
      → read_code vector_major
          (write_code vector_major blocked n_byte_groups b g lane c)
          n_byte_groups
          b'
          g'
          lane'
        ≡ (if here then c else read_code vector_major blocked n_byte_groups b' g' lane')
  unfolding read_code write_code vm_byte_index
  vm_lem blocked c n fits =
      byte_lem blocked c _ _ (g / 4 * 128 + lane / 16 * 64 + lane % 16 * 4 + g % 4)
        (g' / 4 * 128 + lane' / 16 * 64 + lane' % 16 * 4 + g' % 4) n (omega arith) (omega arith)
        (omega (arith, p.group_lt, p.lane_lt, fits)) (omega (arith, q.group_lt, q.lane_lt, fits))
        (λ e. (omega (arith, p.lane_lt, q.lane_lt), omega (arith, p.lane_lt, q.lane_lt)))
        (λ x y z. rw (x, y, z) refl)

  pub vm8_lem :
      (blocked : List ℕ) (c : ℕ)
      → length blocked ≡ n_blocks * (n_byte_groups * block)
      → Fits vm8 n_byte_groups
      → read_code vm8 (write_code vm8 blocked n_byte_groups b g lane c) n_byte_groups b' g' lane'
        ≡ (if here then c else read_code vm8 blocked n_byte_groups b' g' lane')
  unfolding read_code write_code vm8_byte_index
  vm8_lem blocked c n fits =
      byte_lem blocked c _ _ (g / 8 * 256 + lane / 2 * 16 + lane % 2 * 8 + g % 8)
        (g' / 8 * 256 + lane' / 2 * 16 + lane' % 2 * 8 + g' % 8) n (omega arith) (omega arith)
        (omega (arith, p.group_lt, p.lane_lt, fits)) (omega (arith, q.group_lt, q.lane_lt, fits))
        (λ e. (omega (arith, p.lane_lt, q.lane_lt), omega (arith, p.lane_lt, q.lane_lt)))
        (λ x y z. rw (x, y, z) refl)

  pub sequential_lem :
      (blocked : List ℕ) (c : ℕ)
      → length blocked ≡ n_blocks * (n_byte_groups * block)
      → read_code sequential
          (write_code sequential blocked n_byte_groups b g lane c)
          n_byte_groups
          b'
          g'
          lane'
        ≡ (if here then c else read_code sequential blocked n_byte_groups b' g' lane')
  unfolding read_code write_code
  sequential_lem blocked c n =
      byte_lem blocked c _ _ (g * block + lane) (g' * block + lane') n (omega arith) (omega arith)
        (omega (arith, p.group_lt, p.lane_lt)) (omega (arith, q.group_lt, q.lane_lt))
        (λ e. (omega (arith, p.lane_lt, q.lane_lt), omega (arith, p.lane_lt, q.lane_lt)))
        (λ x y z. rw (x, y, z) refl)
