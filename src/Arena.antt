-- ===== src/Arena.antt =====
-- runtime/lang_runtime.c: arenas, the stack of bump allocators behind `region r { ... }`.
--
-- One thread's `ArenaState`; which one a thread has is arena_state's choice. The region entered
-- last is the first of the stack. A chunk is known by the address of its memory. The size_t sums
-- wrap; the three statistics are C's `long` and are not bounded here, as the source does not bound
-- them. What malloc and rt_base_alloc answer comes from `Mem`, with 0 for NULL.
pub mod Laws
pub mod Regions
mod Tests
use prismio.Base.{
  ℕ, zero, suc, ◌+◌, ◌-◌, ◌*◌, ◌/◌, ◌%◌, ◌^◌, Bool, true, false, ◌&&◌, ◌||◌, Option, none, some,
  List, [], ◌∷◌, ◌++◌, ◌==◌, ltb, leb, if◌then◌else◌, length, get_or, set,
}
use prismio.Base.Int.{ℤ, pos, negsuc}

pub record Chunk : Type 0 where
  pub base : ℕ
  pub used : ℕ
  pub cap : ℕ

pub record Arena : Type 0 where
  -- one list of chunks for each open region, newest chunk first
  pub stack : List (List Chunk)
  pub bytes_served : ℕ
  pub objects_served : ℕ
  pub regions_entered : ℕ
  pub pool : List Chunk
  pub pool_count : ℕ

pub record Mem : Type 0 where
  pub header : ℕ
  pub block : ℕ
  pub heap : ℕ

-- A chunk whose memory and header go back to libc.
abbrev pub Freed : Type 0
Freed = List Chunk

abbrev pub chunk_min : ℕ
chunk_min = 8192

abbrev pub max_depth : ℕ
max_depth = 64

abbrev pub pool_max : ℕ
pool_max = 8

abbrev pub size_t : ℕ → ℕ
size_t n = n % 18446744073709551616

abbrev pub depth : Arena → ℕ
depth s = length s.stack

abbrev pub fresh_chunk : Mem → ℕ → Option Chunk
fresh_chunk m cap =
    if (m.header == 0) || (m.block == 0)
    then none
    else some (record { base = m.block; used = 0; cap = cap })

-- arena_chunk_new: a pooled chunk where one is enough, and a new one otherwise.
unfoldable pub chunk_from : Mem → Arena → ℕ → List Chunk → Option Chunk × Arena
chunk_from m s need [] = (fresh_chunk m (if ltb chunk_min need then need else chunk_min), s)
chunk_from m s need (c ∷ more) =
    if leb need chunk_min
    then (some (record c { used = 0 }), record s { pool = more; pool_count = s.pool_count - 1 })
    else (fresh_chunk m need, s)

abbrev pub chunk_new : Mem → Arena → ℕ → Option Chunk × Arena
chunk_new m s need = chunk_from m s need s.pool

-- arena_push, none where it stops the program
unfoldable pub push : Arena → Option Arena
push s =
    if leb max_depth (depth s)
    then none
    else some (record s { stack = [] ∷ s.stack; regions_entered = s.regions_entered + 1 })

-- The loop of arena_pop: a chunk of the default size is pooled while the pool is short.
unfoldable pub give_chunks : List Chunk → Arena → Freed × Arena
give_chunks [] s = ([], s)
give_chunks (c ∷ cs) s =
    let pooled = give_chunks cs (record s { pool = c ∷ s.pool; pool_count = s.pool_count + 1 }) in
    let freed = give_chunks cs s in
    if (c.cap == chunk_min) && ltb s.pool_count pool_max then pooled else (c ∷ freed.0, freed.1)

-- arena_pop
unfoldable pub pop_region : Arena → List (List Chunk) → Freed × Arena
unfolding give_chunks
pop_region s [] = ([], s)
pop_region s (region ∷ outer) = give_chunks region (record s { stack = outer })

abbrev pub pop : Arena → Freed × Arena
pop s = pop_region s s.stack

-- The request rounded up to whole 16 bytes.
abbrev pub rounded : ℕ → ℕ
rounded size = size_t (size + 15) / 16 * 16

-- A block of `need` bytes from a chunk, which becomes the newest of the region at `i`, in front of
-- `others`.
abbrev pub bump : Arena → ℕ → ℕ → Chunk → List Chunk → ℕ × Arena
bump s i need c others = (
  c.base + c.used,
  record s {
    stack = set s.stack i (record c { used = size_t (c.used + need) } ∷ others);
    bytes_served = s.bytes_served + need;
    objects_served = s.objects_served + 1;
  },
)

-- What arena_alloc_slot does with a new chunk, if there is one.
unfoldable pub grow_region : Mem → ℕ → ℕ → List Chunk → Option Chunk × Arena → ℕ × Arena
grow_region m i need region (none, s) = (m.heap, s)
grow_region m i need region (some c, s) = bump s i need c region

-- arena_alloc_slot, for the region at `i` from the innermost, with these chunks
unfoldable pub alloc_region : Mem → Arena → ℕ → ℕ → List Chunk → ℕ × Arena
unfolding chunk_from grow_region
alloc_region m s i size [] = grow_region m i (rounded size) [] (chunk_new m s (rounded size))
alloc_region m s i size (c ∷ cs) =
    let need = rounded size in
    if ltb c.cap (size_t (c.used + need))
    then grow_region m i need (c ∷ cs) (chunk_new m s need)
    else bump s i need c cs

abbrev pub alloc_slot : Mem → Arena → ℕ → ℕ → ℕ × Arena
alloc_slot m s i size = alloc_region m s i size (get_or s.stack i [])

-- arena_alloc
unfoldable pub alloc : Mem → Arena → ℕ → ℕ × Arena
unfolding alloc_region
alloc m s size = if depth s == 0 then (m.heap, s) else alloc_slot m s 0 size

-- arena_alloc_at: slot 1 is the outermost region.
unfoldable pub alloc_at : Mem → Arena → ℤ → ℕ → ℕ × Arena
unfolding alloc_region
alloc_at m s (negsuc n) size = (m.heap, s)
alloc_at m s (pos slot) size =
    if (slot == 0) || ltb (depth s) slot then (m.heap, s) else alloc_slot m s (depth s - slot) size

-- arena_current_slot
abbrev pub current_slot : Arena → ℕ
current_slot s = depth s

-- Every region left, innermost first.
unfoldable pub pop_all : Arena → List (List Chunk) → Freed × Arena
unfolding give_chunks
pop_all s [] = ([], record s { stack = [] })
pop_all s (region ∷ outer) =
    let first = give_chunks region (record s { stack = outer }) in
    let rest = pop_all first.1 outer in (first.0 ++ rest.0, rest.1)

-- prismio_memory_thread_cleanup, of the arena
unfoldable pub thread_cleanup : Arena → Freed × Arena
unfolding pop_all
thread_cleanup s =
    let popped = pop_all s s.stack in
    (popped.0 ++ popped.1.pool, record popped.1 { pool = []; pool_count = 0 })
