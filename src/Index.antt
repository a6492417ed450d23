-- ===== src/Index.antt =====
-- `TurboQuantIndex` of turbovec/src/lib.rs: the record, its constructors and its code layouts. The
-- float arithmetic is a parameter, and so are the code bytes of a row.
pub mod Chunks
pub mod Validate
pub mod Cache
pub mod Grow
pub mod Shrink
pub mod Valid
pub mod Mask
pub mod Search
pub mod Refines
pub mod Sync
pub mod Life
mod Tests
use turbovec.Common.{
  ℕ, zero, suc, ◌+◌, ◌-◌, ◌*◌, ◌/◌, ◌%◌, ◌≡◌, Bool, true, false, ◌&&◌, ◌||◌, not, Option, none,
  some, List, [], ◌∷◌, ◌++◌, length, get_elem?, take, leb, ltb, ◌==◌, if◌then◌else◌,
}
use turbovec.Error.{ConstructError, Outcome, ok, err}
use turbovec.IoV7.Sync.{SyncCursor}
use turbovec.Pack.Geometry.{block}
use turbovec.Index.Cache.{BlockedCache, build}

abbrev pub max_dim : ℕ
max_dim = 16384

-- What the index calls and does not look into: the encoder, which panics or returns one row and one
-- scale for each vector, and the repack, which can panic.
pub record Kernel : Type 1 where
  pub F32 : Type 0
  pub Row : Type 0
  pub zero_row : Row
  pub zero_scale : F32
  pub is_valid : F32 → Bool
  -- vectors, their number, the width of the index, the widths that the rotation and the codebook were
  -- made for, the bits of a code, the calibration
  pub encode : List F32 → ℕ → ℕ → ℕ → ℕ → ℕ → List F32 × List F32 → Option (List Row × List F32)
  pub repack_panics : List Row → Bool
  pub encode-lens :
      (vectors : List F32) (n dim rotation codebook bits : ℕ) (calibration : List F32 × List F32)
      (out : List Row × List F32)
      → encode vectors n dim rotation codebook bits calibration ≡ some out
      → (length out.0 ≡ n) × (length out.1 ≡ n)

-- The rotation and the codebook stand for the width they were computed from. A mapped image is the
-- rows it holds. `captures` is `sync_capture_at`, with the offsets counted in lanes.
pub record TurboQuantIndex (F Row : Type 0) : Type 0 where
  pub dim : Option ℕ
  pub bit_width : ℕ
  pub n_vectors : ℕ
  pub packed_codes : Option (List Row)
  pub scales : List F
  pub tqplus_shift : List F
  pub tqplus_scale : List F
  pub rotation : Option ℕ
  pub codebook : Option ℕ
  pub blocked : Option (BlockedCache Row)
  pub mapped : Option (List (Row × F))
  pub sync_cursor : Option SyncCursor
  pub sync_path : Option ℕ
  pub sync_pending : List ℕ
  pub sync_fresh : List ℕ
  pub capture_buf : List Row
  pub captures : List (ℕ × ℕ)
  pub calib_gen : ℕ

abbrev pub is_some {ℓ} : {A : Type ℓ} → Option A → Bool
is_some none = false
is_some (some a) = true

abbrev pub is_none {ℓ} : {A : Type ℓ} → Option A → Bool
is_none o = not (is_some o)

abbrev pub get_or_init : Option ℕ → ℕ → ℕ
get_or_init none n = n
get_or_init (some m) n = m

-- The rows in order: the packed rows, or what the blocked cache gives back.
abbrev pub packed_of : {Row : Type 0} → ℕ → Option (List Row) → Option (BlockedCache Row) → List Row
packed_of n (some rows) blocked = rows
packed_of n none none = []
packed_of n none (some cache) = take n cache.lanes

abbrev pub watermark_of : Option SyncCursor → ℕ
watermark_of none = 0
watermark_of (some c) = c.n_synced / block * block

module _ {F Row : Type 0} where
  abbrev pub empty_index : Option ℕ → ℕ → TurboQuantIndex F Row
  empty_index dim bit_width = record {
    dim = dim;
    bit_width = bit_width;
    n_vectors = 0;
    packed_codes = some [];
    scales = [];
    tqplus_shift = [];
    tqplus_scale = [];
    rotation = none;
    codebook = none;
    blocked = none;
    mapped = none;
    sync_cursor = none;
    sync_path = none;
    sync_pending = [];
    sync_fresh = [];
    capture_buf = [];
    captures = [];
    calib_gen = 0;
  }

  unfoldable pub new : ℕ → ℕ → Outcome ConstructError (TurboQuantIndex F Row)
  new dim bit_width =
      if not (leb 2 bit_width && leb bit_width 4)
      then err (ConstructError.bit_width_out_of_range bit_width)
      else if (dim == 0) || not (dim % 8 == 0)
      then err (ConstructError.dim_not_positive_multiple_of8 dim)
      else if ltb max_dim dim
      then err (ConstructError.dim_too_large dim max_dim)
      else ok (empty_index (some dim) bit_width)

  unfoldable pub new_lazy : ℕ → Outcome ConstructError (TurboQuantIndex F Row)
  new_lazy bit_width =
      if not (leb 2 bit_width && leb bit_width 4)
      then err (ConstructError.bit_width_out_of_range bit_width)
      else ok (empty_index none bit_width)

  abbrev pub packed : TurboQuantIndex F Row → List Row
  packed t = packed_of t.n_vectors t.packed_codes t.blocked

  abbrev pub len : TurboQuantIndex F Row → ℕ
  len t = t.n_vectors

  -- The rows of the synced file's committed whole blocks.
  abbrev pub sync_watermark : TurboQuantIndex F Row → ℕ
  sync_watermark t = watermark_of t.sync_cursor
