-- ===== src/RtList/State.antt =====
-- runtime/lang_runtime.c: `RtList`, its ownership modes and its construction.
--
-- The element block is a list of `cap` slots. A slot is what one element takes: a pointer in a
-- boxed list, a scalar or a whole flat body as one number in an inline one, and for a List<String>
-- the two halves of its pair. `data` is the block's address, 0 for NULL. `len` and `cap` are C's
-- `int`, which is never negative here; where they grow, the 32 bits of the sum are written out. The allocator, the
-- reference counts and an element's own release function are other components: what a list does to
-- them is the trace of its calls, and what an allocation answers comes from `Env`.
use prismio.Base.{
  ℕ, ◌+◌, ◌*◌, Bool, true, false, not, ◌&&◌, ◌||◌, List, [], ◌∷◌, ◌++◌, ◌==◌, ltb, leb,
  if◌then◌else◌, get_or, replicate,
}
use prismio.Base.Int.{ℤ, pos, negsuc, unsigned}

-- AIF_ELEM_NONE to AIF_ELEM_STRING.
pub data Own : Type 0 where
  unowned : Own
  object : Own
  list : Own
  rc : Own
  typed : Own
  cycle : Own
  rc_atomic : Own
  cycle_atomic : Own
  string : Own

pub record Slot : Type 0 where
  pub ptr : ℕ
  pub word : ℕ

abbrev pub pointer : ℕ → Slot
pointer p = record { ptr = p; word = 0 }

pub record RtList : Type 0 where
  pub handle : ℕ
  pub slots : List Slot
  pub block : ℕ
  pub len : ℕ
  pub cap : ℕ
  pub elem_own : Own
  -- whether `elem_release` is set
  pub releaser : Bool
  pub arena : ℕ
  pub elem_size : ℕ
  pub grave : List ℕ
  pub grave_cap : ℕ
  pub fused : Bool

-- What a list calls, in order. `free_elem`, `free_block` and `free_header` are all rt_free: of an
-- element, of the element block, and of the header.
pub data Event : Type 0 where
  alloc : ℕ → Event
  realloc : ℕ → ℕ → Event
  arena_alloc : ℕ → ℕ → Event
  free_block : ℕ → Event
  free_header : ℕ → Event
  free_elem : ℕ → Event
  list_release : ℕ → Event
  elem_release : ℕ → Event
  rc_retain : ℕ → Event
  rc_release : ℕ → Event
  rc_retain_atomic : ℕ → Event
  rc_release_atomic : ℕ → Event
  cyc_retain : ℕ → Event
  cyc_release : ℕ → Event

abbrev pub Trace : Type 0
Trace = List Event

-- The memory at the moment of a call: whether the arena hint is up, how deep the regions are, the
-- addresses that the allocator answers, and what fresh memory holds.
pub record Env : Type 0 where
  pub hint : Bool
  pub depth : ℕ
  pub fresh : ℕ
  pub fresh_block : ℕ
  pub junk : Slot

-- The calls that stop the program with a message.
pub data Failure : Type 0 where
  index_fail : ℤ → ℕ → Failure
  remove_fail : ℤ → ℕ → Failure
  insert_fail : ℤ → ℕ → Failure
  exclusive_fail : ℤ → ℕ → Failure
  not_boxed : Failure
  bad_count : ℤ → Failure
  slice_fail : ℤ → ℤ → ℕ → Failure
  null_slice : Failure
  bytes_not_bytes : Failure
  bytes_out_of_range : ℤ → ℤ → ℕ → Failure

pub data Run (A : Type 0) : Type 0 where
  exits : Failure → Run A
  ok : Trace → A → Run A

-- Runs the rest behind a call, one trace after the other.
infixl 5 ◌>>=◌
abbrev pub ◌>>=◌ : {A B : Type 0} → Run A → (A → Run B) → Run B
exits e >>= k = exits e
ok t a >>= k = elim (k a) [ exits e ↦ exits e | ok t' b ↦ ok (t ++ t') b ]

abbrev pub word_size : ℕ
word_size = 8

-- sizeof(RtList) rounded up, and RT_LIST_FUSED_MAX
abbrev pub fused_hdr : ℕ
fused_hdr = 64

abbrev pub fused_max : ℕ
fused_max = 256

abbrev pub stride : ℕ → ℕ
stride elem_size = if elem_size == 0 then word_size else elem_size

-- rt_alloc: under the hint from the innermost region, and from the heap otherwise.
abbrev pub rt_alloc : Env → ℕ → Event
rt_alloc env address =
    if env.hint && ltb 0 env.depth then arena_alloc env.depth address else alloc address

-- arena_alloc_at: a region that has already exited is the heap.
abbrev pub arena_alloc_at : Env → ℕ → ℕ → Event
arena_alloc_at env slot address =
    if (slot == 0) || ltb env.depth slot then alloc address else arena_alloc slot address

-- rt_arena_slot
abbrev pub arena_slot : Env → ℕ
arena_slot env = if env.hint then env.depth else 0

-- A block for a list: from the region that owns the list, or by rt_alloc.
abbrev pub block_alloc : Env → ℕ → Event
block_alloc env arena =
    if arena == 0 then rt_alloc env env.fresh_block else arena_alloc_at env arena env.fresh_block

-- list_new_cap. A small heap list of known capacity is one allocation.
unfoldable pub new_cap : Env → ℕ → ℕ → Trace × RtList
new_cap env cap elem_size =
    let first = cap * stride elem_size in
    if ltb 0 first && leb first fused_max && (arena_slot env == 0) && not env.hint
    then (
      alloc env.fresh ∷ [],
      record {
        handle = env.fresh;
        slots = replicate cap env.junk;
        block = env.fresh + fused_hdr;
        len = 0;
        cap = cap;
        elem_own = unowned;
        releaser = false;
        arena = 0;
        elem_size = elem_size;
        grave = [];
        grave_cap = 0;
        fused = true;
      },
    )
    else (
      rt_alloc env env.fresh ∷ (if ltb 0 first then rt_alloc env env.fresh_block ∷ [] else []),
      record {
        handle = env.fresh;
        slots = replicate cap env.junk;
        block = if ltb 0 first then env.fresh_block else 0;
        len = 0;
        cap = cap;
        elem_own = unowned;
        releaser = false;
        arena = arena_slot env;
        elem_size = elem_size;
        grave = [];
        grave_cap = 0;
        fused = false;
      },
    )

-- list_new and list_new_inline
unfoldable pub new : Env → ℕ → Trace × RtList
unfolding new_cap
new env elem_size = new_cap env 0 elem_size

-- list_new_with_capacity and its inline twin: a hint that is not positive is four.
abbrev pub capacity_hint : ℤ → ℕ
capacity_hint (pos n) = if ltb 0 n then n else 4
capacity_hint (negsuc n) = 4

unfoldable pub new_with_capacity : Env → ℤ → ℕ → Trace × RtList
unfolding new_cap
new_with_capacity env n elem_size = new_cap env (capacity_hint n) elem_size

-- list_set_elem_owner and list_set_elem_releaser
unfoldable pub set_elem_owner : RtList → Own → RtList
set_elem_owner l mode = record l { elem_own = mode }

unfoldable pub set_elem_releaser : RtList → RtList
set_elem_releaser l = record l { releaser = true }

-- (unsigned)index >= (unsigned)len
abbrev pub out_of_range : ℤ → ℕ → Bool
out_of_range index len = leb len (unsigned index)

abbrev pub ptr_at : RtList → ℕ → ℕ
ptr_at l i = (get_or l.slots i (pointer 0)).ptr

abbrev pub word_at : RtList → ℕ → ℕ
word_at l i = (get_or l.slots i (pointer 0)).word
