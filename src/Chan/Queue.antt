-- ===== src/Chan/Queue.antt =====
-- chan_send and chan_recv against a bounded first-in-first-out queue.
use prismio.Base.{
  ℕ, ◌+◌, ◌%◌, ◌^◌, ◌≤◌, ◌<◌, ◌≡◌, Bool, true, false, Option, none, some, List, [], ◌∷◌, ◌++◌,
  arith, ◌==◌, if◌then◌else◌, length, length-replicate,
}
use prismio.Base.Int.{ℤ, pos, negsuc}
use prismio.Chan.{Chan, Pass, waits, done, fresh, send, recv, capacity_of}
use prismio.Chan.Ring.{ring, length-ring, ring-push, ring-pop}

-- The messages in the channel, oldest first.
abbrev pub contents : Chan → List ℕ
contents c = ring c.slots c.cap c.head c.len

pub record IsValid (c : Chan) : Type 0 where
  pub block : length c.slots ≡ c.cap
  pub head_in : c.head < c.cap
  pub len_in : c.len ≤ c.cap

-- What a side of the abstract queue is told: to wait, or the answer and the queue that is left.
pub data Reply (A : Type 0) : Type 0 where
  wait : Reply A
  reply : A → List ℕ → Reply A

-- The abstract channel: a queue of at most `cap` messages that may be closed.
unfoldable pub put : ℕ → Bool → List ℕ → ℕ → Reply Bool
put cap closed q msg =
    if closed then reply false q else if length q == cap then wait else reply true (q ++ (msg ∷ []))

unfoldable pub get : Bool → List ℕ → Reply (Option ℕ)
get closed [] = if closed then reply none [] else wait
get closed (x ∷ q) = reply (some x) q

-- What the abstract queue sees of a pass.
abbrev pub seen : {A : Type 0} → Pass A → Reply A
seen waits = wait
seen (done a c) = reply a (contents c)

-- The sum of head and length is an `int`.
pub small_sum : {h l cap : ℕ} → h < cap → l ≤ cap → cap ≤ 2 ^ 30 → (h + l) % 2 ^ 32 ≡ h + l
small_sum hi li small = omega arith

pub length-contents : (c : Chan) → length (contents c) ≡ c.len
length-contents c = length-ring c.slots c.cap c.head c.len

-- A new channel is valid, open and empty, and holds at least one message.
pub fresh-IsValid :
    (capacity : ℤ)
    → IsValid (fresh capacity)
      × (contents (fresh capacity) ≡ [])
      × ((fresh capacity).closed ≡ false)
      × (0 < (fresh capacity).cap)
unfolding fresh
fresh-IsValid (pos n) = ground (arith, length-replicate {A = ℕ} (capacity_of (pos n)) 0)
fresh-IsValid (negsuc n) = ground arith

-- On a valid channel of a capacity of at most 2^30, chan_send is the queue's `put`: it waits exactly
-- when the open queue is full, and else answers and leaves what the queue does.
pub send_refines :
    (msg : ℕ) {c : Chan}
    → IsValid c
    → c.cap ≤ 2 ^ 30
    → seen (send msg c) ≡ put c.cap c.closed (contents c) msg
unfolding send put
send_refines msg {c} v small = ground (
  arith,
  small_sum v.head_in v.len_in small,
  length-contents c,
  ring-push c.slots c.cap c.head c.len msg,
)

-- chan_recv is the queue's `get`.
pub recv_refines : {c : Chan} → IsValid c → seen (recv c) ≡ get c.closed (contents c)
unfolding recv get
recv_refines {c} v = ground (arith, ring-pop c.slots c.cap c.head c.len)
