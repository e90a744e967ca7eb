-- ===== src/Chan/Plain.antt =====
-- chan_send_copy and chan_recv_copy: the plain-data channel is the same queue over `bytes`.
use prismio.Base.{
  ℕ, ◌+◌, ◌-◌, ◌%◌, ◌^◌, ◌≤◌, ◌<◌, ◌≡◌, Bool, true, Option, none, some, List, arith, length,
  length-set, ltb, if◌then◌else◌, replicate, length-replicate, ◌⊎◌,
}
use native.Mathlib.Nat.{mod_self, mod-eq_of_lt, mod-eq-sub-mod}
use prismio.Chan.{Chan, Pass, waits, done, send_copy, recv_copy, ring_of, tail_of, low_bytes}
use prismio.Chan.Ring.{ring, length-ring, ring-push, ring-pop}
use prismio.Chan.Queue.{small_sum, Reply, wait, reply, put, get}

-- A plain channel: its ring is not made while no message is in it, or holds `cap` messages.
pub record IsPlain (c : Chan) : Type 0 where
  pub block :
      ((c.bytes ≡ none) × (c.len ≡ 0))
      ⊎ ((c.bytes ≡ some (ring_of c)) × (length (ring_of c) ≡ c.cap))
  pub head_in : c.head < c.cap
  pub len_in : c.len ≤ c.cap

abbrev pub plain_contents : Chan → List ℕ
plain_contents c = ring (ring_of c) c.cap c.head c.len

-- What the abstract queue sees of a pass over the plain ring.
abbrev pub plain_seen : {A : Type 0} → Pass A → Reply A
plain_seen waits = wait
plain_seen (done a c) = reply a (plain_contents c)

-- The bytes of a message: the first caller's size, at least one.
abbrev pub message_size : ℕ → Chan → ℕ
message_size size c = elim c.bytes [
  | some ring ↦ c.elem_size
  | none ↦ if ltb size 1 then 1 else size
]

-- The tail by compare and subtract is the tail modulo the capacity.
tail-mod :
    (c : Chan)
    → c.head < c.cap
    → c.len ≤ c.cap
    → c.cap ≤ 2 ^ 30
    → tail_of c ≡ (c.head + c.len) % c.cap
tail-mod c h k small = ground (
  arith,
  small_sum h k small,
  mod-eq_of_lt {n = c.head + c.len} {m = c.cap},
  mod-eq-sub-mod {n = c.head + c.len} {m = c.cap},
  mod-eq_of_lt {n = c.head + c.len - c.cap} {m = c.cap},
)

length-plain_contents : (c : Chan) → length (plain_contents c) ≡ c.len
length-plain_contents c = length-ring (ring_of c) c.cap c.head c.len

-- With memory for the ring, a pass of chan_send_copy on a valid plain channel of a capacity of at
-- most 2^30 is the put of the low bytes of its source into the bounded queue.
pub send_copy_refines :
    (src size : ℕ) {c : Chan}
    → IsPlain c
    → c.cap ≤ 2 ^ 30
    → plain_seen (send_copy true src size c)
      ≡ put c.cap c.closed (plain_contents c) (low_bytes (message_size size c) src)
unfolding send_copy put
send_copy_refines src size {c} v small = ground (
  arith,
  tail-mod c v.head_in v.len_in small,
  length-plain_contents c,
  length-replicate {A = ℕ} c.cap 0,
  ring-push (ring_of c) c.cap c.head c.len (low_bytes (message_size size c) src),
  ring-push (replicate c.cap 0) c.cap c.head c.len (low_bytes (message_size size c) src),
)

-- A message as it is copied out.
abbrev pub narrow : ℕ → Reply (Option ℕ) → Reply (Option ℕ)
narrow size wait = wait
narrow size (reply none q) = reply none q
narrow size (reply (some x) q) = reply (some (low_bytes size x)) q

-- With memory for the ring, a pass of chan_recv_copy on a valid plain channel is the queue's `get`,
-- with the low bytes of the message copied out.
pub recv_copy_refines :
    (size : ℕ) {c : Chan}
    → IsPlain c
    → plain_seen (recv_copy true size c) ≡ narrow c.elem_size (get c.closed (plain_contents c))
unfolding recv_copy get
recv_copy_refines size {c} v = ground (
  arith,
  length-plain_contents c,
  ring-pop (ring_of c) c.cap c.head c.len,
  mod-eq_of_lt {n = c.head + 1} {m = c.cap},
  mod_self c.cap,
)

-- chan_send_copy keeps a plain channel plain, whatever it answers.
pub send_copy-IsPlain :
    (src size : ℕ) (b : Bool) {c c' : Chan}
    → IsPlain c
    → send_copy true src size c ≡ done b c'
    → IsPlain c'
unfolding send_copy
send_copy-IsPlain src size b {c} v e = ground (
  arith,
  length-replicate {A = ℕ} c.cap 0,
  length-set (ring_of c) (tail_of c) (low_bytes c.elem_size src),
  length-set (replicate c.cap 0) (tail_of c) (low_bytes (message_size size c) src),
)
