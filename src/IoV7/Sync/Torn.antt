-- ===== src/IoV7/Sync/Torn.antt =====
-- Writes that a crash tears, for the batches of turbovec/src/io_v7.rs.
use turbovec.Common.{
  ℕ, zero, suc, ◌+◌, ◌≤◌, ◌<◌, ◌≡◌, refl, sym, ◌∙◌, true, some, List, [], ◌∷◌, ◌++◌, length,
  length-take, ◌⊎◌, inl, inr, get_elem?, All, leb, Bool-cases, arith, drop, take_all, le→leb,
  leb→le,
}
use mathlib.Core.List.{flatten}
use turbovec.IoV7.Image.{write_at, slice, slice_ext, length-write_at, get-write_at_apart}
use turbovec.IoV7.Sync.{Batch, get_range, apply_batch, apply_batches}

-- What may be on disk when a crash comes: any parts of the writes, in any order.
pub data Torn (writes : Batch) (file : List ℕ) : List ℕ → Type 0 where
  untouched : Torn writes file file
  tear :
      (now : List ℕ) (k off : ℕ) (bytes : List ℕ) (from size : ℕ)
      → get_elem? writes k ≡ some (off, bytes)
      → from + size ≤ length bytes
      → Torn writes file now
      → Torn writes file (write_at now (off + from) (slice bytes from size))

get_All {ℓ κ} :
    {A : Type ℓ} (P : A → Type κ) (xs : List A) (i : ℕ) (a : A)
    → All P xs
    → get_elem? xs i ≡ some a
    → P a
get_All P [] i a h g = absurd (ground arith)
get_All P (x ∷ xs) zero a (h, hs) g = let e : x ≡ a = cc in rw (← e) h
get_All P (x ∷ xs) (suc i) a (h, hs) g = get_All P xs i a hs g

-- Position `i` is outside of a write.
abbrev pub Apart : ℕ → ℕ × List ℕ → Type 0
Apart i (off, bytes) = (i < off) ⊎ (off + length bytes ≤ i)

-- A byte outside of every write is kept by any tear.
pub Torn-get :
    (writes : Batch) (file file' : List ℕ)
    → Torn writes file file'
    → (length file ≤ length file')
      × ((i : ℕ) → i < length file → All (Apart i) writes → get_elem? file' i ≡ get_elem? file i)
Torn-get writes file file' untouched = (omega arith, λ i lt a. refl)
Torn-get writes file file' (tear now k off bytes from size at inside t) =
    let (grows, same) = Torn-get writes file now t in
    let piece = slice bytes from size in
    let (end, longer) = length-write_at now (off + from) piece in
    let short : length piece ≤ size = omega (arith, length-take size (drop from bytes)) in
    (
      omega arith,
      λ i lt a.
          let outside : (i < off + from) ⊎ (off + from + length piece ≤ i) =
            elim (get_All (Apart i) writes k (off, bytes) a at) [
              | inl l ↦ inl (omega arith)
              | inr g ↦ inr (omega arith)
            ] in
          get-write_at_apart now (off + from) piece i outside (omega arith) ∙ same i lt a,
    )

-- A range that lies in a file, and whose bytes a longer file has too, reads the same there.
kept_range :
    (file file' : List ℕ) (from size : ℕ) (u : List ℕ)
    → length file ≤ length file'
    → ((i : ℕ)
        → from ≤ i
        → i < from + size
        → i < length file
        → get_elem? file' i ≡ get_elem? file i)
    → get_range file from size ≡ some u
    → get_range file' from size ≡ some u
kept_range file file' from size u grows same h =
    elim (Bool-cases (leb (from + size) (length file))) [
      | inr e ↦ absurd (ground (arith, e))
      | inl e ↦
          let inside = leb→le (from + size) (length file) e in
          let there : leb (from + size) (length file') ≡ true = le→leb _ _ (omega arith) in
          let kept = slice_ext file' file from size (λ i lo hi. same i lo hi (omega arith)) in
          let got : slice file from size ≡ u = cc (e, h) in rw (there, kept, got)
    ]

-- A range that lies in the file and outside of every write is kept.
pub Torn-get_range :
    (writes : Batch) (file file' : List ℕ) (from size : ℕ) (u : List ℕ)
    → Torn writes file file'
    → ((i : ℕ) → from ≤ i → i < from + size → All (Apart i) writes)
    → get_range file from size ≡ some u
    → get_range file' from size ≡ some u
Torn-get_range writes file file' from size u t apart h =
    let (grows, same) = Torn-get writes file file' t in
    kept_range file file' from size u grows (λ i lo hi lt. same i lt (apart i lo hi)) h

-- Every write in order, whole, is one of the states that a tear may leave.
Torn-first :
    (off : ℕ) (bytes : List ℕ) (writes : Batch) (file file' : List ℕ)
    → Torn writes (write_at file off bytes) file'
    → Torn ((off, bytes) ∷ writes) file file'
Torn-first off bytes writes file file' untouched =
    let whole : slice bytes 0 (length bytes) ≡ bytes =
      take_all (length bytes) bytes (omega arith) in
    let start : off + 0 ≡ off = omega arith in
    let written : Torn ((off, bytes) ∷ writes) file
        (write_at file (off + 0) (slice bytes 0 (length bytes))) =
      tear file 0 off bytes 0 (length bytes) refl (omega arith) untouched in
    rw (start, whole) at written
Torn-first off bytes writes file file' (tear now k o bs from size at inside t) =
    tear now (suc k) o bs from size at inside (Torn-first off bytes writes file now t)

pub apply_batch-Torn : (writes : Batch) (file : List ℕ) → Torn writes file (apply_batch file writes)
unfolding apply_batch
apply_batch-Torn [] file = untouched
apply_batch-Torn ((off, bytes) ∷ writes) file =
    Torn-first off bytes writes file (apply_batch (write_at file off bytes) writes)
      (apply_batch-Torn writes (write_at file off bytes))

pub apply_batch-append :
    (ops more : Batch) (file : List ℕ)
    → apply_batch file (ops ++ more) ≡ apply_batch (apply_batch file ops) more
unfolding apply_batch
apply_batch-append [] more file = refl
apply_batch-append ((off, bytes) ∷ ops) more file =
    apply_batch-append ops more (write_at file off bytes)

pub apply_batches-flatten :
    (batches : List Batch) (file : List ℕ)
    → apply_batches file batches ≡ apply_batch file (flatten batches)
unfolding apply_batches flatten apply_batch
apply_batches-flatten [] file = refl
apply_batches-flatten (batch ∷ batches) file =
    apply_batches-flatten batches (apply_batch file batch)
    ∙ sym (apply_batch-append batch (flatten batches) file)
