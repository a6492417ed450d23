-- ===== src/Pack/Lanes/Nibbles.antt =====
-- `write_x86_code_byte` and `deinterleave_x86_code_byte` of turbovec/src/pack.rs invert each other.
use turbovec.Common.{
  ℕ, ◌+◌, ◌*◌, ◌/◌, ◌%◌, ◌≤◌, ◌<◌, ◌≡◌, refl, ap, ◌∙◌, ◌⊎◌, true, false, List, length, length-set,
  inl, inr, get_or, set, ltb, ◌==◌, if◌then◌else◌, Bool-cases, arith,
}
use turbovec.Pack.Lanes.{inv_perm0, deinterleave_x86_code_byte, write_x86_code_byte}
use turbovec.Pack.Lanes.Lens.{get_or-set, inv_perm0_lem}

get_or-set-set :
    (xs : List ℕ) (i j k u v : ℕ)
    → i < length xs
    → j < length xs
    → get_or (set (set xs i u) j v) k 0
      ≡ (if j == k then v else if i == k then u else get_or xs k 0)
get_or-set-set xs i j k u v h h' =
    get_or-set (set xs i u) j k v (omega (arith, length-set xs i u))
    ∙ ap (λ x. if j == k then v else x) (get_or-set xs i k u h)

abbrev slot : ℕ → ℕ
slot lane = get_or inv_perm0 (lane % 16) 0

slot-lt : (lane : ℕ) → slot lane < 16
slot-lt lane = omega (arith, inv_perm0_lem (lane % 16) (omega arith))

slot_injective : (lane lane' : ℕ) → slot lane ≡ slot lane' → lane % 16 ≡ lane' % 16
slot_injective lane lane' e =
    omega
      (arith, e, inv_perm0_lem (lane % 16) (omega arith), inv_perm0_lem (lane' % 16) (omega arith))

-- Both nibbles of a lane are read from the bytes at the lane's slot.
module _ (xs : List ℕ) (base lane code : ℕ) (room : base + 32 ≤ length xs) (l : lane < 32)
    (c : code < 256) where
  abbrev written : List ℕ
  written = write_x86_code_byte xs base lane code

  abbrev high : ℕ
  high = get_or xs (base + slot lane) 0

  abbrev low : ℕ
  low = get_or xs (base + 16 + slot lane) 0

  abbrev high' : ℕ
  high' = if ltb lane 16 then high / 16 * 16 + code / 16 else high % 16 + code / 16 * 16

  abbrev low' : ℕ
  low' = if ltb lane 16 then low / 16 * 16 + code % 16 else low % 16 + code % 16 * 16

  get_written :
      (k : ℕ)
      → get_or written k 0 ≡ (
          if base + 16 + slot lane == k
          then low'
          else if base + slot lane == k
          then high'
          else get_or xs k 0)
  unfolding write_x86_code_byte
  get_written k =
      let hp : base + slot lane < length xs = omega (arith, slot-lt lane) in
      let lp : base + 16 + slot lane < length xs = omega (arith, slot-lt lane) in
      elim (Bool-cases (ltb lane 16)) [
        | inl e ↦ rw e (
            get_or-set-set xs (base + slot lane) (base + 16 + slot lane) k
              (high / 16 * 16 + code / 16) (low / 16 * 16 + code % 16) hp lp)
        | inr e ↦ rw e (
            get_or-set-set xs (base + slot lane) (base + 16 + slot lane) k
              (high % 16 + code / 16 * 16) (low % 16 + code % 16 * 16) hp lp)
      ]

  -- The code that was written is read back.
  pub written_self : deinterleave_x86_code_byte written base lane ≡ code
  unfolding deinterleave_x86_code_byte
  written_self =
      ground
        (arith, get_written (base + slot lane), get_written (base + 16 + slot lane), slot-lt lane)

  get_kept :
      (k : ℕ)
      → (base + 16 + slot lane == k) ≡ false
      → (base + slot lane == k) ≡ false
      → get_or written k 0 ≡ get_or xs k 0
  get_kept k e f = get_written k ∙ rw (e, f) refl

  get_high : get_or written (base + slot lane) 0 ≡ high'
  get_high =
      let e : (base + 16 + slot lane == base + slot lane) ≡ false = ground arith in
      let f : (base + slot lane == base + slot lane) ≡ true = ground arith in
      get_written (base + slot lane) ∙ rw (e, f) refl

  get_low : get_or written (base + 16 + slot lane) 0 ≡ low'
  get_low =
      let e : (base + 16 + slot lane == base + 16 + slot lane) ≡ true = ground arith in
      get_written (base + 16 + slot lane) ∙ rw e refl

  -- Another lane of the group keeps its code.
  pub written_other :
      (lane' : ℕ)
      → lane' < 32
      → (lane == lane') ≡ false
      → deinterleave_x86_code_byte written base lane' ≡ deinterleave_x86_code_byte xs base lane'
  unfolding deinterleave_x86_code_byte
  written_other lane' l' ne = elim (Bool-cases (slot lane == slot lane')) [
    | inl e ↦
        let s : slot lane ≡ slot lane' = ground arith in
        let m = slot_injective lane lane' s in
        elim (Bool-cases (ltb lane 16)) [
          | inl lo ↦
              let hi' : ltb lane' 16 ≡ false = ground arith in
              rw (← s, hi', get_high, get_low, lo) (omega arith)
          | inr hi ↦
              let lo' : ltb lane' 16 ≡ true = ground arith in
              rw (← s, lo', get_high, get_low, hi) (omega arith)
        ]
    | inr e ↦
        let a : (base + 16 + slot lane == base + slot lane') ≡ false =
          ground (arith, slot-lt lane, slot-lt lane') in
        let b : (base + slot lane == base + slot lane') ≡ false = ground arith in
        let c : (base + 16 + slot lane == base + 16 + slot lane') ≡ false = ground arith in
        let d : (base + slot lane == base + 16 + slot lane') ≡ false =
          ground (arith, slot-lt lane, slot-lt lane') in
        rw (get_kept (base + slot lane') a b, get_kept (base + 16 + slot lane') c d) refl
  ]

  -- A group elsewhere keeps its codes.
  pub written_elsewhere :
      (base' lane' : ℕ)
      → (base' + 32 ≤ base) ⊎ (base + 32 ≤ base')
      → deinterleave_x86_code_byte written base' lane' ≡ deinterleave_x86_code_byte xs base' lane'
  unfolding deinterleave_x86_code_byte
  written_elsewhere base' lane' apart =
      let n = slot-lt lane in
      let n' = slot-lt lane' in
      let a : (base + 16 + slot lane == base' + slot lane') ≡ false = ground arith in
      let b : (base + slot lane == base' + slot lane') ≡ false = ground arith in
      let c : (base + 16 + slot lane == base' + 16 + slot lane') ≡ false = ground arith in
      let d : (base + slot lane == base' + 16 + slot lane') ≡ false = ground arith in
      rw (get_kept (base' + slot lane') a b, get_kept (base' + 16 + slot lane') c d) refl
