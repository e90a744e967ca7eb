-- ===== src/Chan/Wake/Laws.antt =====
-- What holds of a channel in every state that its threads can reach.
use prismio.Base.{
  ℕ, suc, ◌+◌, ◌%◌, ◌^◌, ◌≤◌, ◌<◌, ◌≡◌, ◌≢◌, ◌⊎◌, inl, inr, refl, sym, ap, ◌∙◌, true, false, none,
  some, List, [], ◌∷◌, ◌++◌, append_assoc, arith, length, length-append, length-set,
}
use prismio.Base.Int.{ℤ}
use prismio.Chan.{Chan, waits, done, fresh, send, recv, close}
use prismio.Chan.Ring.{ring-push, ring-pop}
use prismio.Chan.Queue.{IsValid, contents, small_sum, fresh-IsValid}
use prismio.Chan.Wake.{
  System, start, Signal, nobody, one, Sends, drops, delivers, Receives, ends, takes, Step, Reach,
  here, next, new_send, new_recv, retry_send, retry_recv, wakes_send, wakes_recv, closes,
}

-- The channel of a system, and what its sleepers can rely on. `slack` is how many woken threads
-- have begun their next pass.
record Inv (send_slack recv_slack : ℕ) (s : System) : Type 0 where
  valid : IsValid s.chan
  fifo : s.chan.cap ≤ 2 ^ 30 → s.sent ≡ s.received ++ contents s.chan
  recv_awake :
      (s.recv_asleep ≡ [])
      ⊎ ((s.chan.closed ≡ false) × (s.chan.len ≤ length s.recv_woken + recv_slack))
  send_awake :
      (s.send_asleep ≡ [])
      ⊎ ((s.chan.closed ≡ false) × (s.chan.cap ≤ s.chan.len + length s.send_woken + send_slack))

append-cons-ne-nil : (xs : List ℕ) (t : ℕ) (ys : List ℕ) → xs ++ (t ∷ ys) ≢ []
append-cons-ne-nil [] t ys e = cc
append-cons-ne-nil (x ∷ xs) t ys e = cc

length-append-cons :
    (xs : List ℕ) (t : ℕ) (ys zs : List ℕ)
    → zs ≡ xs ++ (t ∷ ys)
    → length zs ≡ suc (length (xs ++ ys))
length-append-cons xs t ys zs e =
    omega (arith, ap length e, length-append xs (t ∷ ys), length-append xs ys)

Signal-wakes :
    {asleep woken asleep' woken' : List ℕ}
    → Signal asleep woken asleep' woken'
    → (asleep' ≡ []) ⊎ ((asleep ≢ []) × (length woken' ≡ suc (length woken)))
Signal-wakes (nobody e e' ew) = inl e'
Signal-wakes (one xs t ys e e' ew) =
    inr ((λ none_left. append-cons-ne-nil xs t ys (sym e ∙ none_left)), ap length ew)

send-waits : (msg : ℕ) (c : Chan) → send msg c ≡ waits → (c.len ≡ c.cap) × (c.closed ≡ false)
unfolding send
send-waits msg c e = ground arith

send-drops : (msg : ℕ) (c c' : Chan) → send msg c ≡ done false c' → (c.closed ≡ true) × (c' ≡ c)
unfolding send
send-drops msg c c' e = ground arith

record Delivered (msg : ℕ) (c c' : Chan) : Type 0 where
  open_before : c.closed ≡ false
  open_after : c'.closed ≡ false
  longer : c'.len ≡ suc c.len
  same_cap : c'.cap ≡ c.cap
  valid : IsValid c'
  appended : c.cap ≤ 2 ^ 30 → contents c' ≡ contents c ++ (msg ∷ [])

send-Delivered :
    (msg : ℕ) (c c' : Chan) → IsValid c → send msg c ≡ done true c' → Delivered msg c c'
unfolding send
send-Delivered msg c c' v e = ground (
  arith,
  length-set c.slots ((c.head + c.len) % 2 ^ 32 % c.cap) msg,
  ring-push c.slots c.cap c.head c.len msg,
  λ (small : c.cap ≤ 2 ^ 30). small_sum v.head_in v.len_in small,
)

recv-waits : (c : Chan) → recv c ≡ waits → (c.len ≡ 0) × (c.closed ≡ false)
unfolding recv
recv-waits c e = ground arith

recv-ends : (c c' : Chan) → recv c ≡ done none c' → (c.closed ≡ true) × (c' ≡ c)
unfolding recv
recv-ends c c' e = ground arith

record Taken (msg : ℕ) (c c' : Chan) : Type 0 where
  shorter : c.len ≡ suc c'.len
  same_cap : c'.cap ≡ c.cap
  same_state : c'.closed ≡ c.closed
  valid : IsValid c'
  first : contents c ≡ msg ∷ contents c'

recv-Taken : (msg : ℕ) (c c' : Chan) → IsValid c → recv c ≡ done (some msg) c' → Taken msg c c'
unfolding recv
recv-Taken msg c c' v e = ground (arith, ring-pop c.slots c.cap c.head c.len)

Sends-Inv : {msg : ℕ} {s s' : System} → Inv 1 0 s → Sends msg s s' → Inv 0 0 s'
Sends-Inv {msg} {s} inv (Sends.sleeps e es) = let w = send-waits msg s.chan e in ground (arith)
Sends-Inv {msg} {s} inv (drops c e es) = let w = send-drops msg s.chan c e in ground arith
Sends-Inv {msg} {s} inv (delivers c asleep woken e sig es) = ground (
  arith,
  send-Delivered msg s.chan c inv.valid e,
  Signal-wakes sig,
  append_assoc s.received (contents s.chan) (msg ∷ []),
)

Receives-Inv : {thread : ℕ} {s s' : System} → Inv 0 1 s → Receives thread s s' → Inv 0 0 s'
Receives-Inv {s} inv (Receives.sleeps e es) = let w = recv-waits s.chan e in ground arith
Receives-Inv {s} inv (ends c e es) = let w = recv-ends s.chan c e in ground arith
Receives-Inv {s} inv (takes msg c asleep woken e sig es) = ground (
  arith,
  recv-Taken msg s.chan c inv.valid e,
  Signal-wakes sig,
  append_assoc s.received (msg ∷ []) (contents c),
)

close-Inv :
    {s s' : System}
    → Inv 0 0 s
    → s' ≡ record s {
      chan = close s.chan;
      send_asleep = [];
      send_woken = s.send_asleep ++ s.send_woken;
      recv_asleep = [];
      recv_woken = s.recv_asleep ++ s.recv_woken;
    }
    → Inv 0 0 s'
unfolding close
close-Inv inv es = ground arith

Step-Inv : {s s' : System} → Inv 0 0 s → Step s s' → Inv 0 0 s'
Step-Inv inv (new_send msg st) = Sends-Inv (ground arith) st
Step-Inv inv (new_recv thread st) = Receives-Inv (ground arith) st
Step-Inv {s} inv (retry_send xs msg ys e st) =
    Sends-Inv (ground (arith, length-append-cons xs msg ys s.send_woken e)) st
Step-Inv {s} inv (retry_recv xs thread ys e st) =
    Receives-Inv (ground (arith, length-append-cons xs thread ys s.recv_woken e)) st
Step-Inv {s} inv (wakes_send xs msg ys e es) =
    ground (arith, length-append-cons xs msg ys s.send_asleep e, append-cons-ne-nil xs msg ys)
Step-Inv {s} inv (wakes_recv xs thread ys e es) =
    ground (arith, length-append-cons xs thread ys s.recv_asleep e, append-cons-ne-nil xs thread ys)
Step-Inv {s} inv (closes es) = close-Inv inv es

start-Inv : (capacity : ℤ) → Inv 0 0 (start capacity)
unfolding start fresh
start-Inv capacity =
    let f = fresh-IsValid capacity in
    record { valid = f.0; fifo = λ small. refl; recv_awake = inl refl; send_awake = inl refl }

Reach-Inv : (capacity : ℤ) {s : System} → Reach (start capacity) s → Inv 0 0 s
Reach-Inv capacity here = start-Inv capacity
Reach-Inv capacity (next r st) = Step-Inv (Reach-Inv capacity r) st

-- However sends and receives on a fresh channel interleave, whose capacity is at most 2^30, what has
-- been received followed by what
-- is in the channel is what has been accepted, in that order; and at most `cap` messages are in the
-- channel.
pub received-append-contents :
    (capacity : ℤ) {s : System}
    → Reach (start capacity) s
    → s.chan.cap ≤ 2 ^ 30
    → (s.sent ≡ s.received ++ contents s.chan) × (s.chan.len ≤ s.chan.cap)
received-append-contents capacity r small =
    let inv = Reach-Inv capacity r in (inv.fifo small, inv.valid.len_in)

-- No wake-up is lost, in any state that threads on a fresh channel can reach: while a receiver
-- sleeps and a message is there, some receiver is awake to take it; while a sender sleeps and there
-- is room, some sender is awake to use it.
pub no_lost_wakeup :
    (capacity : ℤ) {s : System}
    → Reach (start capacity) s
    → (s.recv_asleep ≢ [] → 0 < s.chan.len → s.recv_woken ≢ [])
      × (s.send_asleep ≢ [] → s.chan.len < s.chan.cap → s.send_woken ≢ [])
no_lost_wakeup capacity r = let inv = Reach-Inv capacity r in (ground arith, ground arith)

-- In every state that threads on a fresh channel can reach, once it is closed no thread sleeps on
-- it.
pub closed_asleep :
    (capacity : ℤ) {s : System}
    → Reach (start capacity) s
    → s.chan.closed ≡ true
    → (s.recv_asleep ≡ []) × (s.send_asleep ≡ [])
closed_asleep capacity r e = let inv = Reach-Inv capacity r in ground arith
