-- ===== src/Pack/Lanes.antt =====
-- The code bytes of turbovec/src/pack.rs: where the byte of a vector and a byte group stands in each of the
-- native layouts, and the changes to one lane. The platform chooses the layout. `& 0x0F` is `% 16`, `>> 4`
-- is `/ 16`, and an `|` of separate nibbles is a sum. An index past the buffer, which is a panic, is not
-- reached where the buffer has the length of its geometry.
pub mod Lens
pub mod Nibbles
pub mod Moved
mod Tests
use turbovec.Common.{
  ℕ, zero, suc, ◌+◌, ◌*◌, ◌/◌, ◌%◌, List, [], ◌∷◌, get_or, set, ltb, if◌then◌else◌,
}
use turbovec.Pack.Geometry.{block}

-- What `vm8_for`, `vector_major_for` and the target architecture select.
pub data Layout : Type 0 where
  vm8 : Layout
  vector_major : Layout
  perm0 : Layout
  sequential : Layout

abbrev pub inv_perm0 : List ℕ
inv_perm0 = 0 ∷ 2 ∷ 4 ∷ 6 ∷ 8 ∷ 10 ∷ 12 ∷ 14 ∷ 1 ∷ 3 ∷ 5 ∷ 7 ∷ 9 ∷ 11 ∷ 13 ∷ 15 ∷ []

unfoldable pub deinterleave_x86_code_byte : List ℕ → ℕ → ℕ → ℕ
deinterleave_x86_code_byte blocked group_off lane =
    let j = get_or inv_perm0 (lane % 16) 0 in
    let hi_plane = get_or blocked (group_off + j) 0 in
    let lo_plane = get_or blocked (group_off + 16 + j) 0 in
    if ltb lane 16 then hi_plane % 16 * 16 + lo_plane % 16 else hi_plane / 16 * 16 + lo_plane / 16

unfoldable pub write_x86_code_byte : List ℕ → ℕ → ℕ → ℕ → List ℕ
write_x86_code_byte blocked group_off lane code =
    let j = get_or inv_perm0 (lane % 16) 0 in
    let hp = group_off + j in
    let lp = group_off + 16 + j in
    let high = get_or blocked hp 0 in
    let low = get_or blocked lp 0 in
    if ltb lane 16
    then set (set blocked hp (high / 16 * 16 + code / 16)) lp (low / 16 * 16 + code % 16)
    else set (set blocked hp (high % 16 + code / 16 * 16)) lp (low % 16 + code % 16 * 16)

unfoldable pub vm_byte_index : ℕ → ℕ → ℕ → ℕ
vm_byte_index block_base g lane = block_base + g / 4 * 128 + lane / 16 * 64 + lane % 16 * 4 + g % 4

unfoldable pub vm8_byte_index : ℕ → ℕ → ℕ → ℕ
vm8_byte_index block_base g lane = block_base + g / 8 * 256 + lane / 2 * 16 + lane % 2 * 8 + g % 8

unfoldable pub read_code : Layout → List ℕ → ℕ → ℕ → ℕ → ℕ → ℕ
read_code vm8 blocked n_byte_groups b g lane =
    get_or blocked (vm8_byte_index (b * n_byte_groups * block) g lane) 0
read_code vector_major blocked n_byte_groups b g lane =
    get_or blocked (vm_byte_index (b * n_byte_groups * block) g lane) 0
read_code perm0 blocked n_byte_groups b g lane =
    deinterleave_x86_code_byte blocked ((b * n_byte_groups + g) * block) lane
read_code sequential blocked n_byte_groups b g lane =
    get_or blocked ((b * n_byte_groups + g) * block + lane) 0

unfoldable pub write_code : Layout → List ℕ → ℕ → ℕ → ℕ → ℕ → ℕ → List ℕ
write_code vm8 blocked n_byte_groups b g lane code =
    set blocked (vm8_byte_index (b * n_byte_groups * block) g lane) code
write_code vector_major blocked n_byte_groups b g lane code =
    set blocked (vm_byte_index (b * n_byte_groups * block) g lane) code
write_code perm0 blocked n_byte_groups b g lane code =
    write_x86_code_byte blocked ((b * n_byte_groups + g) * block) lane code
write_code sequential blocked n_byte_groups b g lane code =
    set blocked ((b * n_byte_groups + g) * block + lane) code

-- The loops over the byte groups from `g` on.
unfoldable pub zero_groups : Layout → List ℕ → ℕ → ℕ → ℕ → ℕ → List ℕ
zero_groups lay blocked n_byte_groups v g zero = blocked
zero_groups lay blocked n_byte_groups v g (suc k) =
    zero_groups lay (write_code lay blocked n_byte_groups (v / block) g (v % block) 0) n_byte_groups
      v (suc g) k

unfoldable pub zero_lane : Layout → List ℕ → ℕ → ℕ → List ℕ
zero_lane lay blocked n_byte_groups v = zero_groups lay blocked n_byte_groups v 0 n_byte_groups

-- The bytes that are moved are what `capture` is filled with.
unfoldable pub move_groups : Layout → List ℕ → ℕ → ℕ → ℕ → ℕ → ℕ → List ℕ × List ℕ
move_groups lay blocked n_byte_groups src dst g zero = (blocked, [])
move_groups lay blocked n_byte_groups src dst g (suc k) =
    let code = read_code lay blocked n_byte_groups (src / block) g (src % block) in
    let moved = write_code lay blocked n_byte_groups (dst / block) g (dst % block) code in
    let (blocked', codes) = move_groups lay moved n_byte_groups src dst (suc g) k in
    (blocked', code ∷ codes)

unfoldable pub move_lane : Layout → List ℕ → ℕ → ℕ → ℕ → List ℕ × List ℕ
move_lane lay blocked n_byte_groups src dst =
    move_groups lay blocked n_byte_groups src dst 0 n_byte_groups
