-- ===== src/IoV7/Header.antt =====
-- The commit headers of turbovec/src/io_v7.rs: `header_slot` writes one, `parse_header_at` reads it. A
-- float is its bit pattern, and bytes are numbers.
pub mod Reading
pub mod Legal
pub mod RoundTrip
use turbovec.Common.{
  ℕ, zero, suc, ◌+◌, ◌-◌, ◌*◌, ◌/◌, ◌%◌, ◌^◌, Bool, true, false, Option, none, some, List, [], ◌∷◌,
  ◌++◌, length, get_or, take, drop, ltb, leb, ◌==◌, if◌then◌else◌, to_le_bytes, from_le_bytes,
}
use turbovec.Pack.Geometry.{block}
use turbovec.IoV7.Crc.{crc32}
use turbovec.IoV7.Geo.{Geo, max_ops, row_bytes, id_bytes, op_size, unit_len, unit_at}

-- What a sync needs from the index. `row_codes` gives the bytes that the closure appends. A slice is
-- read at slots of the index only; out of bounds, where the source panics, a read is 0.
pub record SyncSource : Type 0 where
  pub kind : ℕ
  pub dim : ℕ
  pub bit_width : ℕ
  pub n_vectors : ℕ
  pub version : ℕ
  pub layout : ℕ
  pub unit_codes : ℕ → ℕ → List ℕ
  pub row_codes : ℕ → List ℕ
  pub scales : List ℕ
  pub ids : Option (List ℕ)
  pub tqplus_shift : List ℕ
  pub tqplus_scale : List ℕ
  pub boundaries : List ℕ
  pub centroids : List ℕ

unfoldable pub geo_of : SyncSource → Geo
geo_of src = record {
  kind = src.kind;
  dim = src.dim;
  bit_width = src.bit_width;
  n_calib = length src.tqplus_shift;
  version = src.version;
  layout = src.layout;
}

unfoldable pub id_record : Option (List ℕ) → ℕ → List ℕ
id_record none r = []
id_record (some ids) r = to_le_bytes 8 (get_or ids r 0)

-- One row in a header: its codes, its scale, its id.
unfoldable pub row_record : SyncSource → ℕ → List ℕ
row_record src r = src.row_codes r ++ (to_le_bytes 4 (get_or src.scales r 0) ++ id_record src.ids r)

unfoldable pub tail_records : SyncSource → ℕ → ℕ → List ℕ
tail_records src r zero = []
tail_records src r (suc k) = row_record src r ++ tail_records src (suc r) k

unfoldable pub op_records : SyncSource → List ℕ → List ℕ
op_records src [] = []
op_records src (s ∷ slots) = (s % block ∷ row_record src s) ++ op_records src slots

unfoldable pub group_records : SyncSource → List (ℕ × List ℕ) → List ℕ
group_records src [] = []
group_records src ((b, slots) ∷ ops) =
    to_le_bytes 4 b ++ ((length slots % 256 ∷ op_records src slots) ++ group_records src ops)

unfoldable pub words : List ℕ → List ℕ
words [] = []
words (b ∷ bs) = to_le_bytes 4 b ++ words bs

-- The units that a sync wrote: a list, a range, and the digest of their bytes.
pub record Delta : Type 0 where
  pub mat : List ℕ
  pub app_start : ℕ
  pub app_end : ℕ
  pub crc : ℕ

unfoldable pub header_body : SyncSource → ℕ → ℕ → List (ℕ × List ℕ) → Delta → List ℕ
header_body src gen n ops delta =
    let n_tail = n % block in
    to_le_bytes 8 gen
    ++ (to_le_bytes 8 n
        ++ (tail_records src (n - n_tail) n_tail
            ++ (to_le_bytes 4 (length ops)
                ++ (group_records src ops
                    ++ (to_le_bytes 4 (length delta.mat)
                        ++ (words delta.mat
                            ++ (to_le_bytes 4 delta.app_start
                                ++ (to_le_bytes 4 delta.app_end ++ to_le_bytes 4 delta.crc))))))))

unfoldable pub header_slot : SyncSource → ℕ → ℕ → List (ℕ × List ℕ) → Delta → List ℕ
header_slot src gen n ops delta =
    let h = header_body src gen n ops delta in h ++ to_le_bytes 4 (crc32 h)

-- A group of redo ops: the block, and each op's slot and payload offset in the file.
abbrev pub OpGroup : Type 0
OpGroup = ℕ × List (ℕ × ℕ)

pub record ParsedHdr : Type 0 where
  pub gen : ℕ
  pub n : ℕ
  pub tail_at : ℕ
  pub groups : List OpGroup
  pub delta_mat : List ℕ
  pub app_from : ℕ
  pub app_to : ℕ
  pub delta_crc : ℕ
  pub used : ℕ

infixl 5 ◌>>=◌ ◌>>◌
abbrev pub ◌>>=◌ : {A B : Type 0} → Option A → (A → Option B) → Option B
none >>= f = none
some a >>= f = f a

abbrev pub ◌>>◌ : {B : Type 0} → Option (Unit {0}) → Option B → Option B
m >> k = m >>= λ _. k

abbrev pub guard : Bool → Option (Unit {0})
guard true = some tt
guard false = none

-- `bytes.get(p..p + w)` as a little-endian number.
unfoldable pub read : List ℕ → ℕ → ℕ → Option ℕ
read bytes w p =
    if leb (p + w) (length bytes) then some (from_le_bytes (take w (drop p bytes))) else none

-- `checked_mul` and `checked_add` of a 64-bit `usize`.
unfoldable pub checked : ℕ → Option ℕ
checked v = if ltb v (2 ^ 64) then some v else none

-- The loops of the parser return the position behind what they read.
unfoldable pub parse_ops : ℕ → List ℕ → ℕ → ℕ → ℕ → ℕ → Option (List (ℕ × ℕ) × ℕ)
parse_ops zero bytes at size b p = some ([], p)
parse_ops (suc k) bytes at size b p = do
  lane ← read bytes 1 p
  guard (ltb lane block)
  (ops, p') ← parse_ops k bytes at size b (p + size)
  some ((b * block + lane, at + p + 1) ∷ ops, p')

unfoldable pub parse_groups : ℕ → List ℕ → ℕ → ℕ → ℕ → ℕ → Option (List OpGroup × ℕ)
parse_groups zero bytes at size n p = some ([], p)
parse_groups (suc k) bytes at size n p = do
  b ← read bytes 4 p
  guard (ltb b (n / block))
  n_ops ← read bytes 1 (p + 4)
  (ops, p') ← parse_ops n_ops bytes at size b (p + 5)
  (groups, p'') ← parse_groups k bytes at size n p'
  some ((b, ops) ∷ groups, p'')

unfoldable pub parse_words : ℕ → List ℕ → ℕ → Option (List ℕ × ℕ)
parse_words zero bytes p = some ([], p)
parse_words (suc k) bytes p = do
  w ← read bytes 4 p
  (ws, p') ← parse_words k bytes (p + 4)
  some (w ∷ ws, p')

unfoldable pub parse_header_at : List ℕ → ℕ → Geo → ℕ → ℕ → Option ParsedHdr
parse_header_at bytes at geo slot file_len = do
  gen ← read bytes 8 0
  guard (gen % 2 == slot)
  n ← read bytes 8 8
  units ← checked (n / block * unit_len geo)
  units_end ← checked (units + unit_at geo 0)
  guard (leb units_end file_len)
  let p = 16 + n % block * (row_bytes geo + 4 + id_bytes geo 1)
  n_units ← read bytes 4 p
  guard (leb n_units max_ops)
  (groups, p1) ← parse_groups n_units bytes at (op_size geo) n (p + 4)
  n_mat ← read bytes 4 p1
  guard (leb n_mat max_ops)
  (delta_mat, p2) ← parse_words n_mat bytes (p1 + 4)
  app_from ← read bytes 4 p2
  app_to ← read bytes 4 (p2 + 4)
  delta_crc ← read bytes 4 (p2 + 8)
  stored ← read bytes 4 (p2 + 12)
  guard (crc32 (take (p2 + 12) bytes) == stored)
  some (record {
    gen = gen;
    n = n;
    tail_at = at + 16;
    groups = groups;
    delta_mat = delta_mat;
    app_from = app_from;
    app_to = app_to;
    delta_crc = delta_crc;
    used = p2 + 12 + 4;
  })
