-- ===== src/Mapped.antt =====
-- `PagedCache` of turbovec/src/mapped.rs: the chunks of a mapped image that are kept assembled, the
-- least recently used dropped first. A key, the base and the length of a chunk, is one number here.
pub mod Sound
pub mod Budget
mod Tests
use turbovec.Common.{
  ℕ, zero, suc, ◌+◌, ◌-◌, ◌*◌, Bool, true, false, ◌&&◌, Option, none, some, List, [], ◌∷◌, ◌++◌,
  length, ltb, ◌==◌, if◌then◌else◌,
}

pub record Chunk : Type 0 where
  pub codes : List ℕ
  pub scales : List ℕ

abbrev pub bytes : Chunk → ℕ
bytes c = length c.codes + length c.scales * 4

pub record PagedCache : Type 0 where
  pub budget : ℕ
  pub used : ℕ
  pub order : List ℕ
  pub chunks : List (ℕ × Chunk)

abbrev pub find_chunk : List (ℕ × Chunk) → ℕ → Option Chunk
find_chunk [] key = none
find_chunk ((k, c) ∷ rest) key =
    let found = find_chunk rest key in if k == key then some c else found

abbrev pub drop_chunk : List (ℕ × Chunk) → ℕ → List (ℕ × Chunk)
drop_chunk [] key = []
drop_chunk ((k, c) ∷ rest) key =
    let left = drop_chunk rest key in if k == key then rest else (k, c) ∷ left

abbrev pub drop_key : List ℕ → ℕ → List ℕ
drop_key [] key = []
drop_key (k ∷ rest) key = let left = drop_key rest key in if k == key then rest else k ∷ left

unfoldable pub get : PagedCache → ℕ → PagedCache × Option Chunk
get t key = elim (find_chunk t.chunks key) [
  | none ↦ (t, none)
  | some chunk ↦ (record t { order = drop_key t.order key ++ key ∷ [] }, some chunk)
]

-- The bytes that go with a key.
abbrev pub freed : Option Chunk → ℕ
freed none = 0
freed (some c) = bytes c

-- The loop of `insert`: the oldest goes while the budget is passed and more than one is left.
abbrev pub evict : ℕ → ℕ → List ℕ → List (ℕ × Chunk) → PagedCache
evict budget used [] chunks = record { budget = budget; used = used; order = []; chunks = chunks }
evict budget used (old ∷ rest) chunks =
    let left = evict budget (used - freed (find_chunk chunks old)) rest (drop_chunk chunks old) in
    if ltb budget used && ltb 1 (length (old ∷ rest))
    then left
    else record { budget = budget; used = used; order = old ∷ rest; chunks = chunks }

abbrev pub is_cached : Option Chunk → Bool
is_cached none = false
is_cached (some c) = true

unfoldable pub insert : PagedCache → ℕ → Chunk → PagedCache
insert t key chunk =
    if is_cached (find_chunk t.chunks key)
    then t
    else evict t.budget (t.used + bytes chunk) (t.order ++ key ∷ []) ((key, chunk) ∷ t.chunks)
