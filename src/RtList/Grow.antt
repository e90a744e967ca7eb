-- ===== src/RtList/Grow.antt =====
-- runtime/lang_runtime.c: the growth of a list's element block.
use prismio.Base.{
  ℕ, ◌-◌, ◌*◌, ◌%◌, ◌^◌, Bool, false, not, ◌&&◌, List, [], ◌∷◌, ◌++◌, ◌==◌, leb, if◌then◌else◌,
  length, take, replicate,
}
use prismio.Base.Int.{ℤ, pos, negsuc}
use prismio.RtList.State.{Slot, RtList, realloc, Trace, Env, block_alloc}
use prismio.RtList.Release.{free_data}

-- list_grows_by_realloc
abbrev pub grows_by_realloc : Env → RtList → Bool
grows_by_realloc env l = (l.arena == 0) && not env.hint

-- The next capacity, an `int`: 32 bits, wrapped. From 2^31 on C leaves the product undefined.
abbrev pub next_cap : ℕ → ℕ
next_cap cap = if cap == 0 then 4 else cap * 2 % 2 ^ 32

-- A block of `n` slots that begins with some of an old one; the rest is what the memory held. At NULL,
-- which the code does not test for, there are none.
abbrev pub resized : Env → ℕ → List Slot → List Slot
resized env n kept =
    if env.fresh_block == 0 then [] else kept ++ replicate (n - length kept) env.junk

-- The elements move to a fresh block, and the old one goes if it is the list's to free.
unfoldable pub move_to : Env → RtList → ℕ → Trace × RtList
unfolding free_data
move_to env l n = (
  block_alloc env l.arena ∷ free_data l,
  record l {
    slots = resized env n (take l.len l.slots);
    block = env.fresh_block;
    cap = n;
    fused = false;
  },
)

-- list_push_grow and list_inline_grow: the width of an element is all that they differ in.
unfoldable pub grow : Env → RtList → Trace × RtList
unfolding move_to
grow env l =
    if grows_by_realloc env l && not l.fused
    then (
      realloc l.block env.fresh_block ∷ [],
      record l {
        slots = resized env (next_cap l.cap) l.slots;
        block = env.fresh_block;
        cap = next_cap l.cap;
      },
    )
    else move_to env l (next_cap l.cap)

unfoldable pub grow_if_full : Env → RtList → Trace × RtList
unfolding grow
grow_if_full env l = if leb l.cap l.len then grow env l else ([], l)

-- list_reserve. A count that is not above the capacity changes nothing.
abbrev pub reserve_count : ℤ → ℕ
reserve_count (pos n) = n
reserve_count (negsuc n) = 0

unfoldable pub reserve : Env → RtList → ℤ → Trace × RtList
unfolding move_to
reserve env l n = if leb (reserve_count n) l.cap then ([], l) else move_to env l (reserve_count n)
