-- ===== src/Arena/Tests.antt =====
-- An arena at concrete states.
use prismio.Base.{ℕ, ◌+◌, ◌≡◌, refl, [], ◌∷◌, arith}
use prismio.Base.Int.{pos}
use prismio.Arena.{
  Chunk, Arena, Mem, pop_region, alloc_slot, alloc, alloc_at, pop, thread_cleanup, depth,
}
use prismio.Arena.Laws.{IsValid, IsServed, HasMemory, alloc_slot-IsServed, alloc_slot-IsValid}
use prismio.Arena.Regions.{count_chunks, owned, pop_region-gives, thread_cleanup-frees}

abbrev memory : Mem
memory = record { header = 50; block = 9000; heap = 70 }

abbrev chunk_at : ℕ → ℕ → ℕ → Chunk
chunk_at base used cap = record { base = base; used = used; cap = cap }

-- Two regions, the inner one with a large chunk, and one chunk pooled.
abbrev arena : Arena
arena = record {
  stack =
      (chunk_at 100000 10000 10000 ∷ chunk_at 1000 48 8192 ∷ [])
      ∷ (chunk_at 20000 8176 8192 ∷ [])
      ∷ [];
  bytes_served = 18224;
  objects_served = 3;
  regions_entered = 2;
  pool = chunk_at 40000 64 8192 ∷ [];
  pool_count = 1;
}

arena-IsValid : IsValid arena
arena-IsValid = record {
  regions = (
    (
      record { inside = omega arith; cap_in = omega arith; aligned = refl },
      (record { inside = omega arith; cap_in = omega arith; aligned = refl }, tt),
    ),
    ((record { inside = omega arith; cap_in = omega arith; aligned = refl }, tt), tt),
  );
  pooled = (refl, tt);
  pool_len = refl;
  pool_short = omega arith;
}

-- The outer region's chunk has 16 bytes left; for 20 the pooled chunk is taken.
outer_grows : (alloc_at memory arena (pos 1) 20).0 ≡ 40000
unfolding alloc_at
outer_grows = refl

outer_fits : (alloc_at memory arena (pos 1) 16).0 ≡ 28176
unfolding alloc_at
outer_fits = refl

left_region : (alloc_at memory arena (pos 3) 16).0 ≡ 70
unfolding alloc_at
left_region = refl

large_needs_malloc : (alloc memory arena 10001).0 ≡ 9000
unfolding alloc
large_needs_malloc = refl

popped : (pop arena).0 ≡ chunk_at 100000 10000 10000 ∷ []
unfolding pop_region
popped = refl

memory-HasMemory : HasMemory memory
memory-HasMemory = record { header_there = omega arith; block_there = omega arith }

alloc_slot-IsServed_example : IsServed arena 1 20 (alloc_slot memory arena 1 20)
alloc_slot-IsServed_example =
    alloc_slot-IsServed memory arena 1 20 memory-HasMemory arena-IsValid (omega arith) (omega arith)

alloc_slot-IsValid_example : IsValid (alloc_slot memory arena 0 5000).1
alloc_slot-IsValid_example =
    alloc_slot-IsValid memory arena 0 5000 memory-HasMemory arena-IsValid (omega arith)
      (omega arith)

pop_region-gives_example :
    ((pop arena).1.stack ≡ (chunk_at 20000 8176 8192 ∷ []) ∷ [])
    × (count_chunks 1000 (pop arena).0 + owned 1000 (pop arena).1 ≡ owned 1000 arena)
    × IsValid (pop arena).1
pop_region-gives_example =
    pop_region-gives 1000 arena (chunk_at 100000 10000 10000 ∷ chunk_at 1000 48 8192 ∷ [])
      ((chunk_at 20000 8176 8192 ∷ []) ∷ []) arena-IsValid refl

thread_cleanup-frees_example :
    (count_chunks 1000 (thread_cleanup arena).0 ≡ owned 1000 arena)
    × (owned 1000 (thread_cleanup arena).1 ≡ 0)
    × (depth (thread_cleanup arena).1 ≡ 0)
thread_cleanup-frees_example = thread_cleanup-frees 1000 arena arena-IsValid
