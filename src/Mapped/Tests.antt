-- ===== src/Mapped/Tests.antt =====
-- Runs of the page cache of turbovec/src/mapped.rs, and its theorems at concrete inputs.
use turbovec.Common.{◌≡◌, refl, inl, some, true, false, [], ◌∷◌, mem, arith}
use turbovec.Mapped.{Chunk, PagedCache, get, insert}
use turbovec.Mapped.Sound.{IsCache}
use turbovec.Mapped.Budget.{IsTrimmed, insert-IsTrimmed, get-IsCache}

abbrev chunk : Chunk
chunk = record { codes = 1 ∷ 2 ∷ []; scales = 3 ∷ [] }

-- Room for two chunks of six bytes.
abbrev no_chunks : PagedCache
no_chunks = record { budget = 12; used = 0; order = []; chunks = [] }

no_chunks-IsCache : IsCache 0 [] []
no_chunks-IsCache = record {
  used_total = refl;
  unique = tt;
  unique_keys = tt;
  same_keys = λ k. refl;
}

abbrev one_chunk : PagedCache
one_chunk = insert no_chunks 4 chunk

insert-IsTrimmed_example : IsTrimmed 12 4 (some chunk) (insert no_chunks 4 chunk)
insert-IsTrimmed_example = insert-IsTrimmed no_chunks 4 chunk no_chunks-IsCache (inl (omega arith))

oldest_dropped : (insert (insert (insert no_chunks 4 chunk) 5 chunk) 6 chunk).order ≡ 5 ∷ 6 ∷ []
unfolding insert
oldest_dropped = refl

get-IsCache_example :
    let t : PagedCache = record one_chunk {
      order = 4 ∷ 5 ∷ [];
      used = 12;
      chunks = (5, chunk) ∷ one_chunk.chunks;
    } in
    let r = get t 4 in
    (r.1 ≡ some chunk)
    × IsCache r.0.used r.0.order r.0.chunks
    × (r.0.used ≡ t.used)
    × (r.0.chunks ≡ t.chunks)
    × (r.0.budget ≡ t.budget)
    × (mem t.order 4 ≡ true → r.0.order ≡ 5 ∷ 4 ∷ [])
    × (mem t.order 4 ≡ false → r.0.order ≡ t.order)
unfolding insert
get-IsCache_example =
    get-IsCache (insert one_chunk 5 chunk) 4
      (insert-IsTrimmed one_chunk 5 chunk
        (insert-IsTrimmed no_chunks 4 chunk no_chunks-IsCache (inl (omega arith))).sound
        (inl (omega arith))).sound
