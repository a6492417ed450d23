-- ===== src/Pack/Geometry.antt =====
-- `blocked_geometry` of turbovec/src/pack.rs, with the `BLOCK` of turbovec/src/lib.rs.
use turbovec.Common.{ℕ, ◌+◌, ◌-◌, ◌*◌, ◌/◌}

abbrev pub block : ℕ
block = 32

-- The number of blocks, the bytes of a row and the bytes of all blocks. The bit width is 2, 3 or 4:
-- the division by it never panics.
unfoldable pub blocked_geometry : ℕ → ℕ → ℕ → ℕ × ℕ × ℕ
blocked_geometry n_vectors bits dim =
    let codes_per_byte = 8 / bits in
    let n_byte_groups = dim / codes_per_byte in
    let n_blocks = (n_vectors + block - 1) / block in
    (n_blocks, n_byte_groups, n_blocks * n_byte_groups * block)
