-- ===== src/Pack/Lanes/Moved.antt =====
-- What moving and zeroing a lane does to every code byte (turbovec/src/pack.rs), in any layout.
use turbovec.Common.{
  ℕ, zero, suc, ◌+◌, ◌*◌, ◌/◌, ◌%◌, ◌≤◌, ◌<◌, ◌≡◌, refl, ap, ◌∙◌, true, false, ◌&&◌, List, [], ◌∷◌,
  length, length-set, inl, inr, get_or, set, ltb, leb, ◌==◌, if◌then◌else◌, Bool-cases, arith,
}
use turbovec.Pack.Geometry.{block}
use turbovec.Pack.Lanes.{
  Layout, vm8, vector_major, perm0, sequential, deinterleave_x86_code_byte, write_x86_code_byte,
  read_code, write_code, move_groups, move_lane,
}
use turbovec.Pack.Lanes.Lens.{
  Fits, IsPlace, same_place, cells, cell_lt, vm_lem, vm8_lem, sequential_lem,
}
use turbovec.Pack.Lanes.Nibbles.{written_self, written_other, written_elsewhere}

abbrev pub IsBytes : List ℕ → Type 0
IsBytes xs = (i : ℕ) → get_or xs i 0 < 256

set-IsBytes : (xs : List ℕ) (i v : ℕ) → v < 256 → IsBytes xs → IsBytes (set xs i v)
set-IsBytes [] i v h b j = b j
set-IsBytes (x ∷ xs) zero v h b zero = h
set-IsBytes (x ∷ xs) zero v h b (suc j) = b (suc j)
set-IsBytes (x ∷ xs) (suc i) v h b zero = b zero
set-IsBytes (x ∷ xs) (suc i) v h b (suc j) = set-IsBytes xs i v h (λ k. b (suc k)) j

-- A buffer of whole blocks, with groups that the layout takes together.
pub record IsBuffer (lay : Layout) (n_byte_groups n_blocks : ℕ) (blocked : List ℕ) : Type 0 where
  pub sized : length blocked ≡ n_blocks * (n_byte_groups * block)
  pub fits : Fits lay n_byte_groups
  pub bytes : IsBytes blocked

write_code-IsBuffer :
    (lay : Layout) (n_byte_groups n_blocks : ℕ) (blocked : List ℕ) (b g lane c : ℕ)
    → c < 256
    → IsBuffer lay n_byte_groups n_blocks blocked
    → IsBuffer lay n_byte_groups n_blocks (write_code lay blocked n_byte_groups b g lane c)
unfolding write_code write_x86_code_byte
write_code-IsBuffer vm8 n_byte_groups n_blocks blocked b g lane c h v = record {
  sized = length-set blocked _ c ∙ v.sized;
  fits = v.fits;
  bytes = set-IsBytes blocked _ c h v.bytes;
}
write_code-IsBuffer vector_major n_byte_groups n_blocks blocked b g lane c h v = record {
  sized = length-set blocked _ c ∙ v.sized;
  fits = v.fits;
  bytes = set-IsBytes blocked _ c h v.bytes;
}
write_code-IsBuffer sequential n_byte_groups n_blocks blocked b g lane c h v = record {
  sized = length-set blocked _ c ∙ v.sized;
  fits = v.fits;
  bytes = set-IsBytes blocked _ c h v.bytes;
}
write_code-IsBuffer perm0 n_byte_groups n_blocks blocked b g lane c h v =
    elim (Bool-cases (ltb lane 16)) [
      | inl e ↦ rw e (record {
        sized = length-set (set blocked _ _) _ _ ∙ length-set blocked _ _ ∙ v.sized;
        fits = tt;
        bytes =
            set-IsBytes (set blocked _ _) _ _ (omega (arith, v.bytes _))
              (set-IsBytes blocked _ _ (omega (arith, v.bytes _)) v.bytes);
      })
      | inr e ↦ rw e (record {
        sized = length-set (set blocked _ _) _ _ ∙ length-set blocked _ _ ∙ v.sized;
        fits = tt;
        bytes =
            set-IsBytes (set blocked _ _) _ _ (omega (arith, v.bytes _))
              (set-IsBytes blocked _ _ (omega (arith, v.bytes _)) v.bytes);
      })
    ]

module _ (n_byte_groups n_blocks : ℕ) (blocked : List ℕ) where
  -- In a buffer of whole blocks, in any layout: the code byte that was written is read back, and every
  -- other code byte is as before.
  pub read_code-write_code :
      (lay : Layout) (b g lane c b' g' lane' : ℕ)
      → IsBuffer lay n_byte_groups n_blocks blocked
      → IsPlace n_byte_groups n_blocks b g lane
      → IsPlace n_byte_groups n_blocks b' g' lane'
      → c < 256
      → read_code lay (write_code lay blocked n_byte_groups b g lane c) n_byte_groups b' g' lane'
        ≡ (if (b == b') && ((g == g') && (lane == lane'))
            then c
            else read_code lay blocked n_byte_groups b' g' lane')
  unfolding read_code write_code
  read_code-write_code vm8 b g lane c b' g' lane' v p q h =
      vm8_lem n_byte_groups n_blocks b g lane b' g' lane' p q blocked c v.sized v.fits
  read_code-write_code vector_major b g lane c b' g' lane' v p q h =
      vm_lem n_byte_groups n_blocks b g lane b' g' lane' p q blocked c v.sized v.fits
  read_code-write_code sequential b g lane c b' g' lane' v p q h =
      sequential_lem n_byte_groups n_blocks b g lane b' g' lane' p q blocked c v.sized
  read_code-write_code perm0 b g lane c b' g' lane' v p q h =
      let cell = b * n_byte_groups + g in
      let cell' = b' * n_byte_groups + g' in
      let inside = cell_lt n_byte_groups n_blocks b g p.group_lt p.block_lt in
      let room : cell * block + 32 ≤ length blocked = omega (arith, v.sized, inside) in
      elim (Bool-cases (cell == cell')) [
        | inl e ↦
            let same : cell ≡ cell' = ground arith in
            let (x, y) = cells n_byte_groups b b' g g' p.group_lt q.group_lt same in
            elim (Bool-cases (lane == lane')) [
              | inl s ↦
                  let z : lane ≡ lane' = ground arith in
                  let all : same_place b g lane b' g' lane' ≡ true = ground arith in
                  rw (all, ← z, ← same)
                    (written_self blocked (cell * block) lane c room p.lane_lt h)
              | inr s ↦
                  let not_all : same_place b g lane b' g' lane' ≡ false = ground arith in
                  rw (not_all, ← same)
                    (written_other blocked (cell * block) lane c room p.lane_lt h lane' q.lane_lt s)
            ]
        | inr e ↦
            let not_all : same_place b g lane b' g' lane' ≡ false =
              elim (Bool-cases (same_place b g lane b' g' lane')) [
                | inr f ↦ f
                | inl t ↦
                    let x : b ≡ b' = ground arith in
                    let y : g ≡ g' = ground arith in
                    absurd (ground (arith, ap (λ k. k * n_byte_groups) x))
              ] in
            rw not_all (
              written_elsewhere blocked (cell * block) lane c room p.lane_lt h (cell' * block) lane'
                (elim (Bool-cases (ltb cell cell')) [
                  | inl lt ↦ inr (let k : suc cell ≤ cell' = ground arith in omega (arith, k))
                  | inr ge ↦ inl (let k : suc cell' ≤ cell = ground arith in omega (arith, k))
                ]))
      ]

read_code-lt :
    (lay : Layout) (n_byte_groups : ℕ) (blocked : List ℕ) (b g lane : ℕ)
    → IsBytes blocked
    → read_code lay blocked n_byte_groups b g lane < 256
unfolding read_code deinterleave_x86_code_byte
read_code-lt vm8 n_byte_groups blocked b g lane v = v _
read_code-lt vector_major n_byte_groups blocked b g lane v = v _
read_code-lt sequential n_byte_groups blocked b g lane v = v _
read_code-lt perm0 n_byte_groups blocked b g lane v = elim (Bool-cases (ltb lane 16)) [
  | inl e ↦ rw e (omega arith)
  | inr e ↦ rw e (omega (arith, v _, v _))
]

module _ (lay : Layout) (n_byte_groups n_blocks src dst : ℕ) (s : src < n_blocks * block)
    (d : dst < n_blocks * block) where
  abbrev at : List ℕ → ℕ → ℕ → ℕ
  at blocked v g = read_code lay blocked n_byte_groups (v / block) g (v % block)

  place :
      (v g : ℕ)
      → v < n_blocks * block
      → g < n_byte_groups
      → IsPlace n_byte_groups n_blocks (v / block) g (v % block)
  place v g h k = record { group_lt = k; lane_lt = omega arith; block_lt = omega arith }

  -- The loop moves the groups from `g` on, and nothing else.
  move_groups_lem :
      (k g : ℕ) (blocked : List ℕ)
      → IsBuffer lay n_byte_groups n_blocks blocked
      → g + k ≤ n_byte_groups
      → (v g' : ℕ) → v < n_blocks * block
      → g' < n_byte_groups
      → at (move_groups lay blocked n_byte_groups src dst g k).0 v g' ≡ (
          if (v == dst) && (leb g g' && ltb g' (g + k)) then at blocked src g' else at blocked v g')
  unfolding move_groups
  move_groups_lem zero g blocked buf h v g' hv hg = ground arith
  move_groups_lem (suc k) g blocked buf h v g' hv hg =
      let code = at blocked src g in
      let code_lt =
        read_code-lt lay n_byte_groups blocked (src / block) g (src % block) buf.bytes in
      let moved = write_code lay blocked n_byte_groups (dst / block) g (dst % block) code in
      let buf' =
        write_code-IsBuffer lay n_byte_groups n_blocks blocked (dst / block) g (dst % block) code
          code_lt buf in
      let rest = move_groups_lem k (suc g) moved buf' (omega arith) v g' hv hg in
      let lens = λ (w : ℕ) (hw : w < n_blocks * block).
        read_code-write_code n_byte_groups n_blocks blocked lay (dst / block) g (dst % block) code
          (w / block) g' (w % block) buf (place dst g d (omega arith)) (place w g' hw hg) code_lt in
      elim (Bool-cases (g == g')) [
        | inl e ↦
            let same : g ≡ g' = ground arith in
            let past : ((v == dst) && (leb (suc g) g' && ltb g' (suc g + k))) ≡ false =
              ground arith in
            let kept : at (move_groups lay moved n_byte_groups src dst (suc g) k).0 v g'
                ≡ at moved v g' =
              rest ∙ rw past refl in
            let codes : code ≡ at blocked src g' = ap (at blocked src) same in
            elim (Bool-cases (v == dst)) [
              | inl t ↦
                  let hit : same_place (dst / block) g (dst % block) (v / block) g' (v % block)
                      ≡ true =
                    ground arith in
                  let now : ((v == dst) && (leb g g' && ltb g' (g + suc k))) ≡ true =
                    ground arith in
                  rw now (kept ∙ lens v hv ∙ rw hit codes)
              | inr t ↦
                  let miss : same_place (dst / block) g (dst % block) (v / block) g' (v % block)
                      ≡ false =
                    ground arith in
                  let now : ((v == dst) && (leb g g' && ltb g' (g + suc k))) ≡ false =
                    ground arith in
                  rw now (kept ∙ lens v hv ∙ rw miss refl)
            ]
        | inr e ↦
            let same_range : ((v == dst) && (leb (suc g) g' && ltb g' (suc g + k)))
                ≡ ((v == dst) && (leb g g' && ltb g' (g + suc k))) =
              ground arith in
            let miss : (w : ℕ)
                → same_place (dst / block) g (dst % block) (w / block) g' (w % block) ≡ false =
              λ w. ground arith in
            let of_src : at moved src g' ≡ at blocked src g' = lens src s ∙ rw (miss src) refl in
            let of_v : at moved v g' ≡ at blocked v g' = lens v hv ∙ rw (miss v) refl in
            rw (← same_range, ← of_src, ← of_v) rest
      ]

  -- In any layout, moving the lane of one vector over another's makes the code bytes of the one those of
  -- the other, and changes no code byte of a third vector; where the buffer has whole blocks and both
  -- vectors are in it.
  pub move_lane-read_code :
      (blocked : List ℕ)
      → IsBuffer lay n_byte_groups n_blocks blocked
      → (v g : ℕ) → v < n_blocks * block
      → g < n_byte_groups
      → read_code lay
          (move_lane lay blocked n_byte_groups src dst).0
          n_byte_groups
          (v / block)
          g
          (v % block)
        ≡ read_code lay blocked n_byte_groups
            ((if v == dst then src else v) / block)
            g
            ((if v == dst then src else v) % block)
  unfolding move_lane
  move_lane-read_code blocked buf v g hv hg =
      let all : (leb 0 g && ltb g (0 + n_byte_groups)) ≡ true = ground arith in
      move_groups_lem n_byte_groups 0 blocked buf (omega arith) v g hv hg
      ∙ elim (Bool-cases (v == dst)) [ inl e ↦ rw (all, e) refl | inr e ↦ rw (all, e) refl ]
