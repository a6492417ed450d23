-- ===== src/Index/Valid.antt =====
-- What holds of every index of turbovec/src/lib.rs between two calls, and what its rows are.
pub mod Added
pub mod Batch
pub mod Pairs
pub mod Rows
pub mod Taken
pub mod Removed
use turbovec.Common.{
  ℕ, ◌+◌, ◌-◌, ◌*◌, ◌/◌, ◌%◌, ◌≤◌, ◌<◌, ◌≡◌, Option, none, some, List, [], ◌∷◌, length,
}
use turbovec.IoV7.Sync.{SyncCursor}
use turbovec.Index.Cache.{BlockedCache, blocks_for, build}
use turbovec.Index.{TurboQuantIndex, max_dim, packed}

abbrev pub pairs {ℓ κ} : {A : Type ℓ} {B : Type κ} → List A → List B → List (A × B)
pairs [] bs = []
pairs (a ∷ xs) [] = []
pairs (a ∷ xs) (b ∷ ys) = (a, b) ∷ pairs xs ys

module _ {F Row : Type 0} where
  -- The rows of an index with their scales.
  abbrev pub contents : TurboQuantIndex F Row → List (Row × F)
  contents t = elim t.mapped [ some image ↦ image | none ↦ pairs (packed t) t.scales ]

  -- What the index remembers of its file.
  abbrev pub journal :
      TurboQuantIndex F Row
      → Option SyncCursor × Option ℕ × List ℕ × List ℕ × List Row × List (ℕ × ℕ) × ℕ
  journal t = (
    t.sync_cursor, t.sync_path, t.sync_pending, t.sync_fresh, t.capture_buf, t.captures,
    t.calib_gen,
  )

  -- The two layouts and the scales have all rows, and the cache is the one a repack would make.
  pub record IsStored (z : Row) (t : TurboQuantIndex F Row) : Type 0 where
    pub rows : length (packed t) ≡ t.n_vectors
    pub scales : length t.scales ≡ t.n_vectors
    pub cache : (c : BlockedCache Row) → t.blocked ≡ some c → c ≡ build z (packed t) t.n_vectors

  pub record IsValid (z : Row) (t : TurboQuantIndex F Row) : Type 0 where
    pub bits : (2 ≤ t.bit_width) × (t.bit_width ≤ 4)
    pub dims : (d : ℕ) → t.dim ≡ some d → (0 < d) × (d % 8 ≡ 0) × (d ≤ max_dim)
    pub lazy : t.dim ≡ none → t.n_vectors ≡ 0
    pub rotated : (r : ℕ) → t.rotation ≡ some r → t.dim ≡ some r
    pub coded : (r : ℕ) → t.codebook ≡ some r → t.dim ≡ some r
    pub stored : t.mapped ≡ none → IsStored z t
    pub image : (m : List (Row × F)) → t.mapped ≡ some m → length m ≡ t.n_vectors
