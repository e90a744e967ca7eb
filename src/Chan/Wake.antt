-- ===== src/Chan/Wake.antt =====
-- Many threads on one channel: every interleaving of the passes of chan_send and chan_recv, with the
-- waiting threads of the two conditions.
--
-- A thread that waits is asleep until PRISMIO_COND_SIGNAL picks it, chan_close broadcasts, or it
-- wakes for no reason, as a condition variable may; then it is woken, and later makes another pass.
-- A sleeping sender is known by its message, a sleeping receiver by a thread's number.
pub mod Laws
use prismio.Base.{ℕ, ◌≡◌, Bool, true, false, Option, none, some, List, [], ◌∷◌, ◌++◌}
use prismio.Base.Int.{ℤ}
use prismio.Chan.{Chan, waits, done, fresh, send, recv, close}

pub record System : Type 0 where
  pub chan : Chan
  pub send_asleep : List ℕ
  pub send_woken : List ℕ
  pub recv_asleep : List ℕ
  pub recv_woken : List ℕ
  -- What has been accepted and what has been handed out, in order: for the statements only.
  pub sent : List ℕ
  pub received : List ℕ

unfoldable pub start : ℤ → System
unfolding fresh
start capacity = record {
  chan = fresh capacity;
  send_asleep = [];
  send_woken = [];
  recv_asleep = [];
  recv_woken = [];
  sent = [];
  received = [];
}

-- PRISMIO_COND_SIGNAL: wakes one of the threads that sleep on the condition, if there is one.
pub data Signal (asleep woken asleep' woken' : List ℕ) : Type 0 where
  nobody : asleep ≡ [] → asleep' ≡ [] → woken' ≡ woken → Signal asleep woken asleep' woken'
  one :
      (xs : List ℕ) (t : ℕ) (ys : List ℕ)
      → asleep ≡ xs ++ (t ∷ ys)
      → asleep' ≡ xs ++ ys
      → woken' ≡ t ∷ woken
      → Signal asleep woken asleep' woken'

-- One pass of chan_send with a message.
pub data Sends (msg : ℕ) (s s' : System) : Type 0 where
  sleeps :
      send msg s.chan ≡ waits → s' ≡ record s { send_asleep = msg ∷ s.send_asleep } → Sends msg s s'
  drops : (c : Chan) → send msg s.chan ≡ done false c → s' ≡ record s { chan = c } → Sends msg s s'
  delivers :
      (c : Chan) (asleep woken : List ℕ)
      → send msg s.chan ≡ done true c
      → Signal s.recv_asleep s.recv_woken asleep woken
      → s' ≡ record s {
        chan = c;
        recv_asleep = asleep;
        recv_woken = woken;
        sent = s.sent ++ (msg ∷ []);
      }
      → Sends msg s s'

-- One pass of chan_recv by a thread.
pub data Receives (thread : ℕ) (s s' : System) : Type 0 where
  sleeps :
      recv s.chan ≡ waits
      → s' ≡ record s { recv_asleep = thread ∷ s.recv_asleep }
      → Receives thread s s'
  ends : (c : Chan) → recv s.chan ≡ done none c → s' ≡ record s { chan = c } → Receives thread s s'
  takes :
      (msg : ℕ) (c : Chan) (asleep woken : List ℕ)
      → recv s.chan ≡ done (some msg) c
      → Signal s.send_asleep s.send_woken asleep woken
      → s' ≡ record s {
        chan = c;
        send_asleep = asleep;
        send_woken = woken;
        received = s.received ++ (msg ∷ []);
      }
      → Receives thread s s'

pub data Step (s s' : System) : Type 0 where
  new_send : (msg : ℕ) → Sends msg s s' → Step s s'
  new_recv : (thread : ℕ) → Receives thread s s' → Step s s'
  retry_send :
      (xs : List ℕ) (msg : ℕ) (ys : List ℕ)
      → s.send_woken ≡ xs ++ (msg ∷ ys)
      → Sends msg (record s { send_woken = xs ++ ys }) s'
      → Step s s'
  retry_recv :
      (xs : List ℕ) (thread : ℕ) (ys : List ℕ)
      → s.recv_woken ≡ xs ++ (thread ∷ ys)
      → Receives thread (record s { recv_woken = xs ++ ys }) s'
      → Step s s'
  wakes_send :
      (xs : List ℕ) (msg : ℕ) (ys : List ℕ)
      → s.send_asleep ≡ xs ++ (msg ∷ ys)
      → s' ≡ record s { send_asleep = xs ++ ys; send_woken = msg ∷ s.send_woken }
      → Step s s'
  wakes_recv :
      (xs : List ℕ) (thread : ℕ) (ys : List ℕ)
      → s.recv_asleep ≡ xs ++ (thread ∷ ys)
      → s' ≡ record s { recv_asleep = xs ++ ys; recv_woken = thread ∷ s.recv_woken }
      → Step s s'
  -- chan_close and its two broadcasts
  closes :
      s' ≡ record s {
        chan = close s.chan;
        send_asleep = [];
        send_woken = s.send_asleep ++ s.send_woken;
        recv_asleep = [];
        recv_woken = s.recv_asleep ++ s.recv_woken;
      }
      → Step s s'

pub data Reach (s : System) : System → Type 0 where
  here : Reach s s
  next : {t u : System} → Reach s t → Step t u → Reach s u
