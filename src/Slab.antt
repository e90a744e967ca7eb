-- ===== src/Slab.antt =====
-- runtime/lang_runtime.c: the small-object allocator behind `rt_base_alloc`, `rt_free` and
-- `rt_base_realloc`.
--
-- A free block holds the address of the next in its first word, so a chain of free blocks is the
-- list of their addresses; a batch on the shared list is a chain that is not empty. Cache 0 is the
-- main thread's, the others are the workers'. Class c has blocks of 16 * (c + 1) bytes. An
-- operation takes effect at once: what it does to a shared list it does under that list's lock. The
-- reservation lies within 64-bit addresses, so no address sum wraps; the uint32_t counters do. What
-- libc answers comes from `Os`, with 0 for NULL.
pub mod Stock
pub mod Laws
pub mod Window
mod Tests
use prismio.Base.{
  ℕ, ◌+◌, ◌-◌, ◌*◌, ◌/◌, ◌%◌, zero, suc, Bool, true, false, not, ◌&&◌, Option, none, some, List, [],
  ◌∷◌, ◌==◌, ltb, leb, if◌then◌else◌, length, take, drop,
}

pub record Bin : Type 0 where
  pub head : List ℕ
  pub count : ℕ
  pub cur : ℕ
  pub stop : ℕ

pub record Shared : Type 0 where
  pub batches : List (ℕ × List ℕ)
  pub loose : List ℕ
  pub loose_n : ℕ
  pub bump : ℕ
  pub limit : ℕ

pub data Status : Type 0 where
  unused : Status
  ready : Status
  refused : Status

pub record Slab : Type 0 where
  pub base : ℕ
  -- slab_span: the size of the reservation, 0 until it holds
  pub span : ℕ
  pub status : Status
  pub threads : Bool
  pub bins : ℕ → ℕ → Bin
  pub shared : ℕ → Shared
  pub span_class : ℕ → ℕ
  pub span_next : ℕ
  pub tls_used : ℕ → Bool

pub record Os : Type 0 where
  -- whether PRISMIO_SLAB starts with a 0
  pub switched_off : Bool
  pub mmap : Option ℕ
  pub malloc : ℕ
  pub realloc : ℕ

-- What goes to libc, and the copy of a block that moves.
pub data Call : Type 0 where
  libc_free : ℕ → Call
  libc_realloc : ℕ → ℕ → Call
  copy : ℕ → ℕ → ℕ → Call

abbrev pub grain : ℕ
grain = 16

abbrev pub classes : ℕ
classes = 32

abbrev pub slab_max : ℕ
slab_max = 512

abbrev pub reserve : ℕ
reserve = 68719476736

abbrev pub span_bytes : ℕ
span_bytes = 65536

abbrev pub stagger : ℕ
stagger = 1088

abbrev pub batch : ℕ
batch = 64

abbrev pub window_bytes : ℕ
window_bytes = 8192

abbrev pub high : ℕ
high = 128

-- uint32_t
abbrev pub u32 : ℕ → ℕ
u32 n = n % 4294967296

abbrev pub sub32 : ℕ → ℕ → ℕ
sub32 a b = u32 (a + (4294967296 - b))

abbrev pub class_of : ℕ → ℕ
class_of size = (size - 1) / grain

abbrev pub block_size : ℕ → ℕ
block_size c = (c + 1) * grain

-- A table with one entry replaced.
abbrev pub put : {A : Type 0} → (ℕ → A) → ℕ → A → ℕ → A
put table i x j = if j == i then x else table j

abbrev pub with_bin : Slab → ℕ → ℕ → Bin → Slab
with_bin s cache c bin = record s { bins = put s.bins cache (put (s.bins cache) c bin) }

abbrev pub with_shared : Slab → ℕ → Shared → Slab
with_shared s c g = record s { shared = put s.shared c g }

-- slab_init
unfoldable pub init : Os → Slab → Slab
init os s = if os.switched_off then record s { status = refused } else elim os.mmap [
  | none ↦ record s { status = refused }
  | some m ↦ record s { base = m; span_next = m; span = reserve; status = ready }
]

-- The reservation is made on first use.
unfoldable pub start_from : Os → Slab → Status → Slab
unfolding init
start_from os s unused = init os s
start_from os s ready = s
start_from os s refused = s

abbrev pub started : Os → Slab → Slab
started os s = start_from os s s.status

abbrev pub is_refused : Status → Bool
is_refused unused = false
is_refused ready = false
is_refused refused = true

-- A batch of the shared list, or as much of a thread's leftovers: the answer, the bin and the shared
-- list after it.
unfoldable pub recycle_from : Bin → Shared → List (ℕ × List ℕ) → List ℕ → Option (ℕ × Bin × Shared)
recycle_from bin g (chain ∷ more) loose =
    some (chain.0, record bin { head = chain.1; count = batch - 1 }, record g { batches = more })
recycle_from bin g [] [] = none
recycle_from bin g [] (first ∷ others) =
    let head = take (batch - 1) others in
    some (
      first,
      record bin { head = head; count = length head },
      record g { loose = drop (batch - 1) others; loose_n = sub32 g.loose_n (1 + length head) },
    )

abbrev pub recycle : Bin → Shared → Option (ℕ × Bin × Shared)
recycle bin g = recycle_from bin g g.batches g.loose

-- The bytes that a bin takes from a span at a time.
abbrev pub window : ℕ → ℕ
window c =
    let sz = block_size c in sz * (if ltb 8 (window_bytes / sz) then window_bytes / sz else 8)

-- Hands a window that starts at `start` to a bin, less its first block.
abbrev pub cut : Slab → ℕ → ℕ → ℕ → ℕ → ℕ × Slab
cut s cache c start limit = (
  start,
  with_bin (with_shared s c (record (s.shared c) { bump = start + window c; limit = limit })) cache
      c (record (s.bins cache c) { cur = start + block_size c; stop = start + window c }),
)

abbrev pub span_of : Slab → ℕ → ℕ
span_of s p = (p - s.base) / span_bytes

-- Fresh memory: from the class's span, from a new span, and from libc once the reservation is used
-- up.
unfoldable pub carve : Os → Slab → ℕ → ℕ → ℕ × Slab
carve os s cache c =
    let g = s.shared c in
    if leb (g.bump + window c) g.limit
    then cut s cache c g.bump g.limit
    else let fresh = s.span_next in
      if leb (fresh + span_bytes) (s.base + s.span)
      then cut
          (record s {
            span_next = fresh + span_bytes;
            span_class = put s.span_class (span_of s fresh) c;
          })
          cache c (fresh + (c * stagger) % 4096) (fresh + span_bytes)
      else (os.malloc, s)

-- A worker's first refill arms the destructor that gives its blocks back.
abbrev pub registered : Slab → ℕ → Slab
registered s cache = record s {
  tls_used = if cache == 0 then s.tls_used else put s.tls_used cache true;
}

-- A cache with nothing to cut: a recycled block, or fresh memory.
unfoldable pub restock : Os → Slab → ℕ → ℕ → Option (ℕ × Bin × Shared) → ℕ × Slab
unfolding carve
restock os s cache c none = carve os s cache c
restock os s cache c (some got) = (got.0, with_bin (with_shared s c got.2) cache c got.1)

-- slab_refill, once the reservation holds
unfoldable pub refill_ready : Os → Slab → ℕ → ℕ → ℕ × Slab
unfolding recycle_from restock
refill_ready os s0 cache c =
    let s = registered s0 cache in
    let bin = s.bins cache c in
    if not (bin.cur == bin.stop)
    then (bin.cur, with_bin s cache c (record bin { cur = bin.cur + block_size c }))
    else restock os s cache c (recycle bin (s.shared c))

-- slab_refill
unfoldable pub refill : Os → Slab → ℕ → ℕ → ℕ × Slab
unfolding start_from refill_ready
refill os s0 cache c =
    let s = started os s0 in
    if is_refused s.status then (os.malloc, s) else refill_ready os s cache c

-- A block of class c: the bin's last freed one, or a refill.
unfoldable pub pop_chain : Os → Slab → ℕ → ℕ → List ℕ → ℕ × Slab
unfolding refill
pop_chain os s cache c [] = refill os s cache c
pop_chain os s cache c (b ∷ rest) = (
  b,
  with_bin s cache c
      (record (s.bins cache c) { head = rest; count = sub32 (s.bins cache c).count 1 }),
)

abbrev pub pop : Os → Slab → ℕ → ℕ → ℕ × Slab
pop os s cache c = pop_chain os s cache c (s.bins cache c).head

-- rt_base_alloc. A request of no bytes takes a block of class 0.
unfoldable pub base_alloc : Os → Slab → ℕ → ℕ → ℕ × Slab
unfolding pop_chain
base_alloc os s cache size =
    if ltb 0 size && leb size slab_max
    then pop os s cache (class_of size)
    else if size == 0
    then pop os s cache 0
    else (os.malloc, s)

-- slab_spill: the 64 blocks that were freed last go to the shared list as one batch.
unfoldable pub spill_chain : Slab → ℕ → ℕ → List ℕ → Slab
spill_chain s cache c [] = s
spill_chain s cache c (first ∷ rest) =
    let bin = s.bins cache c in
    let g = s.shared c in
    with_bin (with_shared s c (record g { batches = (first, take (batch - 1) rest) ∷ g.batches }))
      cache c (record bin { head = drop (batch - 1) rest; count = sub32 bin.count batch })

abbrev pub spill : Slab → ℕ → ℕ → Slab
spill s cache c = spill_chain s cache c (s.bins cache c).head

-- p - slab_base < slab_span, on unsigned addresses
abbrev pub in_slab : Slab → ℕ → Bool
in_slab s p = leb s.base p && ltb p (s.base + s.span)

-- rt_free
unfoldable pub free : Slab → ℕ → ℕ → List Call × Slab
unfolding spill_chain
free s cache p =
    if p == 0
    then ([], s)
    else if in_slab s p
    then (let c = s.span_class (span_of s p) in
        let bin = s.bins cache c in
        let count = u32 (bin.count + 1) in
        let s' = with_bin s cache c (record bin { head = p ∷ bin.head; count = count }) in
        ([], if leb high count && s.threads then spill s' cache c else s'))
    else (libc_free p ∷ [], s)

-- rt_base_realloc
unfoldable pub base_realloc : Os → Slab → ℕ → ℕ → ℕ → ℕ × List Call × Slab
unfolding base_alloc free
base_realloc os s cache p size =
    let new = base_alloc os s cache size in
    if p == 0
    then (new.0, [], new.1)
    else if in_slab s p
    then (let have = block_size (s.span_class (span_of s p)) in
        if leb size have
        then (p, [], s)
        else if new.0 == 0
        then (0, [], new.1)
        else (let freed = free new.1 cache p in (new.0, copy p new.0 have ∷ freed.0, freed.1)))
    else (os.realloc, libc_realloc p size ∷ [], s)

-- The blocks from an address on that a bin has not cut yet.
unfoldable pub blocks : ℕ → ℕ → ℕ → List ℕ
blocks from size zero = []
blocks from size (suc n) = from ∷ blocks (from + size) size n

-- One block after the other onto the shared list's leftovers.
unfoldable pub give_back : List ℕ → Shared → Shared
give_back [] g = g
give_back (b ∷ bs) g =
    give_back bs (record g { loose = b ∷ g.loose; loose_n = u32 (g.loose_n + 1) })

-- The turn of slab_flush_tls for one class: first what is uncut, then the chain.
unfoldable pub flush_class : Slab → ℕ → ℕ → Slab
unfolding blocks give_back
flush_class s cache c =
    let bin = s.bins cache c in
    let uncut = blocks bin.cur (block_size c) ((bin.stop - bin.cur) / block_size c) in
    with_bin (with_shared s c (give_back bin.head (give_back uncut (s.shared c)))) cache c
      (record bin { head = []; count = 0; cur = bin.stop })

-- The classes from c on, `n` of them.
unfoldable pub flush_from : Slab → ℕ → ℕ → ℕ → Slab
unfolding flush_class
flush_from s cache c zero = s
flush_from s cache c (suc n) = flush_from (flush_class s cache c) cache (suc c) n

-- slab_flush_tls, prismio_slab_thread_flush
unfoldable pub thread_flush : Slab → ℕ → Slab
unfolding flush_from
thread_flush s cache = flush_from s cache 0 classes
