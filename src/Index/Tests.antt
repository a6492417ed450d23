-- ===== src/Index/Tests.antt =====
-- Runs of an index that stores numbers, and the theorems at concrete inputs.
use turbovec.Common.{
  All, ℕ, ◌+◌, ◌-◌, ◌/◌, ◌<◌, ◌≡◌, refl, sym, ap, ◌∙◌, subst, inl, inr, Bool, true, false, ◌&&◌,
  Option, none, some, List, [], ◌∷◌, length, get_elem?, mem, replicate, ltb, if◌then◌else◌,
  Bool-cases, arith,
}
use turbovec.Error.{ok}
use turbovec.IoV7.Sync.{SyncCursor}
use turbovec.VectorIndex.{SearchResults, swap_remove_at}
use turbovec.Index.Cache.{resize}
use turbovec.Index.Cache.Rebuilt.{length-resize}
use turbovec.Index.Validate.{first_invalid, par_first_invalid_coord}
use turbovec.Index.Validate.Scan.{scan_rows, par_first_invalid_coord_lem}
use turbovec.Index.Mask.{packed_mask, allows_bit}
use turbovec.Index.Mask.Bits.{trues}
use turbovec.Index.Mask.Packed.{packed_mask_lem}
use turbovec.Index.{Kernel, new, empty_index, sync_watermark}
use turbovec.Index.Grow.{State, derived, kept, lazy_append, encoded, encode_and_append, add, add_2d}
use turbovec.Index.Shrink.{swap_remove}
use turbovec.Index.Search.{SearchKernel, LetThrough, try_search_with_mask}
use turbovec.Index.Sync.{SyncIo, Plan, intact, SyncError, full, incremental, sync_v7_impl}
use turbovec.Index.Sync.Guards.{MayWrite, sync_v7_impl-MayWrite, sync_v7_impl-recovers}
use turbovec.Index.Life.{File, remember, Reaches, start, step, adds}
use turbovec.Index.Life.Synced.{life-IsTracked}
use turbovec.Index.Valid.{IsValid, contents}
use turbovec.Index.Valid.Added.{appended, encode_and_append_lem}
use turbovec.Index.Valid.Batch.{IsTaken, fresh_rows}
use turbovec.Index.Valid.Taken.{add_2d-IsTaken}
use turbovec.Index.Valid.Removed.{swap_remove-contents}

toy_lens :
    (vectors : List ℕ) (n : ℕ) (out : List ℕ × List ℕ)
    → some (resize 0 n vectors, resize 7 n []) ≡ some out
    → (length out.0 ≡ n) × (length out.1 ≡ n)
toy_lens vectors n out e =
    let same : (resize 0 n vectors, resize 7 n []) ≡ out = cc e in
    (
      ap (λ o. length o.0) (sym same) ∙ length-resize 0 n vectors,
      ap (λ o. length o.1) (sym same) ∙ length-resize 7 n [],
    )

abbrev toy : Kernel
toy = record {
  F32 = ℕ;
  Row = ℕ;
  zero_row = 0;
  zero_scale = 0;
  is_valid = λ x. ltb x 100;
  encode =
      λ vectors n dim rotation codebook bits calibration. some (resize 0 n vectors, resize 7 n []);
  repack_panics = λ rows. false;
  encode-lens = λ vectors n dim rotation codebook bits calibration out e. toy_lens vectors n out e;
}

abbrev first : State toy
first = empty_index (some 8) 4

abbrev batch : List ℕ
batch = 1 ∷ 2 ∷ 3 ∷ 4 ∷ 5 ∷ 6 ∷ 7 ∷ 8 ∷ 9 ∷ 10 ∷ 11 ∷ 12 ∷ 13 ∷ 14 ∷ 15 ∷ 16 ∷ []

abbrev filled : State toy
filled = (add_2d toy first batch 8).0

batch_taken : contents filled ≡ (1, 7) ∷ (2, 7) ∷ []
unfolding add_2d par_first_invalid_coord first_invalid add encode_and_append
batch_taken = refl

abbrev shrunk : State toy
shrunk = (swap_remove 0 filled 0).0

hole_closed : contents shrunk ≡ (2, 7) ∷ []
unfolding swap_remove add_2d par_first_invalid_coord first_invalid add encode_and_append
hole_closed = refl

-- A file system on which a path below 10 can be written.
abbrev cursor_of : State toy → SyncCursor
cursor_of t = record { gen = 0; n_synced = t.n_vectors; calib_gen = 0; nonce = 5 }

abbrev toy_write : State toy → ℕ → Option SyncCursor
toy_write t path = if ltb path 10 then some (cursor_of t) else none

toy_write_rows :
    (t : State toy) (path : ℕ) (c : SyncCursor)
    → toy_write t path ≡ some c
    → c.n_synced ≡ t.n_vectors
toy_write_rows t path c e = elim (Bool-cases (ltb path 10)) [
  | inl g ↦
      let same : some (cursor_of t) ≡ some c = rw g at e in
      let which : c ≡ cursor_of t = cc same in ap (λ (d : SyncCursor). d.n_synced) which
  | inr g ↦ let never : none ≡ some c = rw g at e in absurd (cc never)
]

toy_brings :
    (fresh : List ℕ) (plan : Plan)
    → some (record { carried = fresh; slots = fresh }) ≡ some plan
    → (s : ℕ) → mem fresh s ≡ true
    → mem plan.slots s ≡ true
toy_brings fresh plan e s m =
    let same : record { carried = fresh; slots = fresh } ≡ plan = cc e in
    subst (λ (p : Plan). mem p.slots s ≡ true) same m

abbrev toy_io : SyncIo ℕ ℕ
toy_io = record {
  cursor_state = λ path c. some (intact none);
  plan_incremental = λ t c pending fresh stale. some (record { carried = fresh; slots = fresh });
  run_sync = λ t path plan. toy_write t path;
  plan_incremental-slots = λ t c pending fresh stale plan e s low m. toy_brings fresh plan e s m;
  write_full = toy_write;
  run_sync-rows = λ t path plan c e. toy_write_rows t path c e;
  write_full-rows = toy_write_rows;
}

abbrev saved : State toy
saved = (sync_v7_impl toy_io filled 1).0

saved_whole : (sync_v7_impl toy_io filled 1).2 ≡ full 1 ∷ []
unfolding sync_v7_impl add_2d par_first_invalid_coord first_invalid add encode_and_append
saved_whole = refl

saved_again : (sync_v7_impl toy_io saved 1).2 ≡ incremental 1 [] ∷ []
unfolding sync_v7_impl add_2d par_first_invalid_coord first_invalid add encode_and_append
saved_again = refl

first_new : new 8 4 ≡ ok first
unfolding new
first_new = refl

abbrev no_file : File toy toy_io
no_file s = none

to_filled : Reaches toy toy_io (first, no_file) (filled, no_file)
to_filled = step (first, no_file) (filled, no_file) start (adds first no_file batch 8)

-- Thirty-three rows, one of them behind the first block; a sync, a removal, and a sync of the difference.
abbrev many : State toy
many = (add_2d toy first (replicate 264 1) 8).0

abbrev many_saved : State toy
many_saved = (sync_v7_impl toy_io many 1).0

abbrev many_file : File toy toy_io
many_file = remember toy toy_io many no_file (sync_v7_impl toy_io many 1)

many_watermark : sync_watermark many_saved ≡ 32
unfolding sync_v7_impl add_2d par_first_invalid_coord first_invalid add encode_and_append
many_watermark = refl

abbrev closed : State toy
closed = (swap_remove 0 many_saved 3).0

-- The slot that the last row moved into is marked, and goes to the file with the difference.
closed_marked : closed.sync_fresh ≡ 3 ∷ []
unfolding swap_remove sync_v7_impl add_2d par_first_invalid_coord first_invalid add
    encode_and_append
closed_marked = refl

closed_written : (sync_v7_impl toy_io closed 1).2 ≡ incremental 1 (3 ∷ []) ∷ []
unfolding swap_remove sync_v7_impl add_2d par_first_invalid_coord first_invalid add
    encode_and_append
closed_written = refl

abbrev again : State toy
again = (sync_v7_impl toy_io closed 1).0

abbrev again_file : File toy toy_io
again_file = remember toy toy_io closed many_file (sync_v7_impl toy_io closed 1)

filled-IsValid : IsValid 0 filled
filled-IsValid =
    (life-IsTracked toy toy_io first filled no_file 8 4 (inl first_new) to_filled).0.valid

first-IsValid : IsValid 0 first
first-IsValid = (life-IsTracked toy toy_io first first no_file 8 4 (inl first_new) start).0.valid

add_2d-IsTaken_example :
    IsTaken toy filled (fresh_rows toy 2 (encoded toy filled batch 2 8)) (add_2d toy filled batch 8)
add_2d-IsTaken_example = add_2d-IsTaken toy filled batch 8 filled-IsValid

encode_and_append_lem_example :
    encode_and_append toy first batch 2 8
    ≡ appended toy
        (derived toy first 8)
        (kept toy first 8)
        (lazy_append toy first)
        2
        (encoded toy first batch 2 8)
encode_and_append_lem_example =
    encode_and_append_lem toy first batch 2 8 refl (first-IsValid.stored refl)

filled_mapped : filled.mapped ≡ none
unfolding add_2d par_first_invalid_coord first_invalid add encode_and_append
filled_mapped = refl

filled_size : 0 < filled.n_vectors
unfolding add_2d par_first_invalid_coord first_invalid add encode_and_append
filled_size = omega arith

swap_remove-contents_example :
    ((swap_remove 0 filled 0).1 ≡ ok (filled.n_vectors - 1))
    × IsValid 0 (swap_remove 0 filled 0).0
    × (contents (swap_remove 0 filled 0).0 ≡ swap_remove_at (contents filled) 0)
    × ((swap_remove 0 filled 0).0.mapped ≡ none)
swap_remove-contents_example =
    swap_remove-contents 0 filled 0 filled-IsValid filled_mapped filled_size

par_first_invalid_coord_lem_example :
    par_first_invalid_coord (λ x. ltb x 100) (1 ∷ 2 ∷ 3 ∷ 200 ∷ []) 2
    ≡ scan_rows (λ x. ltb x 100) 2 0 0 (1 ∷ 2 ∷ 3 ∷ 200 ∷ [])
par_first_invalid_coord_lem_example =
    par_first_invalid_coord_lem (λ x. ltb x 100) (1 ∷ 2 ∷ 3 ∷ 200 ∷ []) 2 (omega arith)

invalid_found : par_first_invalid_coord (λ x. ltb x 100) (1 ∷ 2 ∷ 3 ∷ 200 ∷ []) 2 ≡ some (1, 1, 200)
unfolding par_first_invalid_coord first_invalid
invalid_found = refl

packed_mask_lem_example :
    ((slot : ℕ) (b : Bool)
      → get_elem? (true ∷ false ∷ true ∷ []) slot ≡ some b
      → allows_bit (packed_mask (true ∷ false ∷ true ∷ [])).0 slot ≡ b)
    × (length (packed_mask (true ∷ false ∷ true ∷ [])).0 ≡ (3 + 63) / 64)
    × ((packed_mask (true ∷ false ∷ true ∷ [])).1 ≡ trues (true ∷ false ∷ true ∷ []))
packed_mask_lem_example = packed_mask_lem (true ∷ false ∷ true ∷ [])

sync_v7_impl-MayWrite_example :
    MayWrite toy_io 1 0 saved.sync_cursor saved.sync_path (sync_v7_impl toy_io saved 1).2
unfolding sync_v7_impl add_2d par_first_invalid_coord first_invalid add encode_and_append
sync_v7_impl-MayWrite_example = sync_v7_impl-MayWrite toy_io saved 1

-- A write to path 20 fails, one to path 3 does not.
lost_rows : (sync_v7_impl toy_io filled 20).2 ≡ full 20 ∷ []
unfolding sync_v7_impl add_2d par_first_invalid_coord first_invalid add encode_and_append
lost_rows = refl

lost_error : (sync_v7_impl toy_io filled 20).1 ≡ some SyncError.io_error
unfolding sync_v7_impl add_2d par_first_invalid_coord first_invalid add encode_and_append
lost_error = refl

abbrev lost : State toy
lost = (sync_v7_impl toy_io filled 20).0

filled_dim : filled.dim ≡ some 8
unfolding add_2d par_first_invalid_coord first_invalid add encode_and_append
filled_dim = refl

sync_v7_impl-recovers_example :
    ((sync_v7_impl toy_io lost 3).1 ≡ none)
    × ((sync_v7_impl toy_io lost 3).2 ≡ full 3 ∷ [])
    × ((sync_v7_impl toy_io lost 3).0.sync_path ≡ some 3)
sync_v7_impl-recovers_example =
    sync_v7_impl-recovers toy_io filled 20 3 8 (full 20) [] SyncError.io_error (cursor_of lost)
      filled_mapped filled_dim lost_rows lost_error refl

-- A scan that returns the first slot if the mask lets it through.
abbrev first_allowed : Option (List ℕ) → Bool
first_allowed none = true
first_allowed (some words) = allows_bit words 0

abbrev toy_scan : State toy → Option (List ℕ) → List ℕ × List ℕ
toy_scan t words = if ltb 0 t.n_vectors && first_allowed words then (5 ∷ [], 0 ∷ []) else ([], [])

toy_scan_slots :
    (t : State toy) (words : Option (List ℕ))
    → All (λ s. (s < t.n_vectors) × LetThrough words s) (toy_scan t words).1
toy_scan_slots t none = elim (Bool-cases (ltb 0 t.n_vectors)) [
  | inl e ↦ rw e ((ground (arith, e), tt), tt)
  | inr e ↦ rw e tt
]
toy_scan_slots t (some words) = elim (Bool-cases (ltb 0 t.n_vectors)) [
  | inr e ↦ rw e tt
  | inl e ↦ elim (Bool-cases (allows_bit words 0)) [
    | inl f ↦ rw (e, f) ((ground (arith, e), f), tt)
    | inr f ↦ rw (e, f) tt
  ]
]

toy_mapped_slots :
    (t : State toy) (words : Option (List ℕ)) (out : List ℕ × List ℕ)
    → some (toy_scan t words) ≡ some out
    → All (λ s. (s < t.n_vectors) × LetThrough words s) out.1
toy_mapped_slots t words out e =
    let same : toy_scan t words ≡ out = cc e in
    subst (λ (o : List ℕ × List ℕ). All (λ s. (s < t.n_vectors) × LetThrough words s) o.1) same
      (toy_scan_slots t words)

abbrev toy_search : SearchKernel toy
toy_search = record {
  scan = λ t queries nq dim k words. toy_scan t words;
  scan_mapped = λ t queries nq dim k words. some (toy_scan t words);
  scan-slots = λ t queries nq dim k words. toy_scan_slots t words;
  scan_mapped-slots = λ t queries nq dim k words out e. toy_mapped_slots t words out e;
}

abbrev query : List ℕ
query = 1 ∷ 2 ∷ 3 ∷ 4 ∷ 5 ∷ 6 ∷ 7 ∷ 8 ∷ []

abbrev found : SearchResults ℕ
found = record { scores = 5 ∷ []; indices = 0 ∷ []; nq = 1; k = 1 }

search_runs :
    try_search_with_mask toy toy_search filled query 3 (some (true ∷ false ∷ [])) ≡ ok found
unfolding try_search_with_mask packed_mask allows_bit add_2d par_first_invalid_coord first_invalid
    add encode_and_append
search_runs = refl
