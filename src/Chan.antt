-- ===== src/Chan.antt =====
-- The channels of runtime/program_support.c: a ring of messages under a mutex, with a condition for
-- each side.
--
-- Each call holds the lock except while it waits, so a call is modelled by its passes: one pass is
-- what the code does from the lock (or from a wake-up) to the next wait or to the return. `waits`
-- is the call of PRISMIO_COND_WAIT: it leaves the channel as it is. `Chan/Wake` puts the passes of
-- many threads together. A message is a number: a pointer for `slots`, the `elem_size` bytes of a
-- value for `bytes`. The mutex and the conditions themselves are the platform's.
mod Ring
pub mod Queue
pub mod Plain
pub mod Wake
mod Tests
use prismio.Base.{
  ℕ, suc, ◌+◌, ◌-◌, ◌*◌, ◌%◌, ◌^◌, ◌≡◌, Bool, true, false, not, ◌&&◌, Option, none, some, List,
  ◌==◌, leb, ltb, if◌then◌else◌, get_or, set, replicate,
}
use prismio.Base.Int.{ℤ, pos, negsuc}

-- `PrismioChan`, less its lock and conditions; `bytes` is `none` until the first plain message.
-- `cap`, `head` and `len` are `int`. Of what is computed with them only the sum of `head` and `len`
-- can leave the 32 bits; it is wrapped there, where C leaves it undefined from 2^31 on.
pub record Chan : Type 0 where
  pub slots : List ℕ
  pub bytes : Option (List ℕ)
  pub elem_size : ℕ
  pub cap : ℕ
  pub head : ℕ
  pub len : ℕ
  pub closed : Bool

-- What one pass of a call ends in: the wait, or the return of a value.
pub data Pass (A : Type 0) : Type 0 where
  waits : Pass A
  done : A → Chan → Pass A

-- A capacity below one is one.
abbrev pub capacity_of : ℤ → ℕ
capacity_of (pos n) = if ltb n 1 then 1 else n
capacity_of (negsuc n) = 1

unfoldable pub fresh : ℤ → Chan
fresh capacity = record {
  slots = replicate (capacity_of capacity) 0;
  bytes = none;
  elem_size = 0;
  cap = capacity_of capacity;
  head = 0;
  len = 0;
  closed = false;
}

-- The loop test and all that follows it in `chan_send`.
unfoldable pub send : ℕ → Chan → Pass Bool
send msg c =
    if c.len == c.cap && not c.closed
    then waits
    else if c.closed
    then done false c
    else done true
        (record c { slots = set c.slots ((c.head + c.len) % 2 ^ 32 % c.cap) msg; len = c.len + 1 })

-- `chan_recv`; `none` is the NULL of a channel that is closed and drained.
unfoldable pub recv : Chan → Pass (Option ℕ)
recv c =
    if c.len == 0 && not c.closed
    then waits
    else if c.len == 0
    then done none c
    else done (some (get_or c.slots c.head 0))
        (record c { head = (c.head + 1) % c.cap; len = c.len - 1 })

-- `chan_bytes_ready`: the ring of a plain channel, with the message size that its first user has.
-- `room` is whether `calloc` finds the memory.
pub bytes_ready : (room : Bool) → ℕ → Chan → Option Chan
bytes_ready room size c = elim c.bytes [
  | some ring ↦ some c
  | none ↦
      if room
      then some (record c {
        bytes = some (replicate c.cap 0);
        elem_size = if ltb size 1 then 1 else size;
      })
      else none
]

-- The ring itself, where there is one.
abbrev pub ring_of : Chan → List ℕ
ring_of c = elim c.bytes [ some ring ↦ ring | none ↦ List.[] ]

-- `memcpy` of `elem_size` bytes: the low bytes of the value.
abbrev pub low_bytes : ℕ → ℕ → ℕ
low_bytes size value = value % 2 ^ (8 * size)

-- The slot behind the last message, by a compare and a subtraction.
abbrev pub tail_of : Chan → ℕ
tail_of c = let tail = (c.head + c.len) % 2 ^ 32 in if leb c.cap tail then tail - c.cap else tail

put_copy : ℕ → Chan → Chan
put_copy src c = record c {
  bytes = some (set (ring_of c) (tail_of c) (low_bytes c.elem_size src));
  len = c.len + 1;
}

take_copy : Chan → Chan
take_copy c = record c { head = if c.head + 1 == c.cap then 0 else c.head + 1; len = c.len - 1 }

-- `chan_send_copy`
unfoldable pub send_copy : (room : Bool) → ℕ → ℕ → Chan → Pass Bool
unfolding bytes_ready put_copy
send_copy room src size c =
    if c.len == c.cap && not c.closed
    then waits
    else if c.closed
    then done false c
    else elim (bytes_ready room size c) [
      | none ↦ done false c
      | some c' ↦ done true (put_copy src c')
    ]

-- `chan_recv_copy`; the value is what is copied into `dst`.
unfoldable pub recv_copy : (room : Bool) → ℕ → Chan → Pass (Option ℕ)
unfolding bytes_ready take_copy
recv_copy room size c =
    if c.len == 0 && not c.closed
    then waits
    else if c.len == 0
    then done none c
    else elim (bytes_ready room size c) [
      | none ↦ done none c
      | some c' ↦
          done (some (low_bytes c'.elem_size (get_or (ring_of c') c'.head 0))) (take_copy c')
    ]

-- `chan_close`; the broadcasts are in `Chan/Wake`.
unfoldable pub close : Chan → Chan
close c = record c { closed = true }
