-- ===== src/Chan/Tests.antt =====
-- The channels at concrete states.
use prismio.Base.{
  ◌≡◌, ◌≢◌, ◌≤◌, ◌<◌, ◌+◌, ◌^◌, refl, inr, true, false, none, some, [], ◌∷◌, ◌++◌, arith,
}
use prismio.Base.Int.{pos, negsuc}
use prismio.Chan.{Chan, done, fresh, send, recv, close, send_copy, recv_copy}
use prismio.Chan.Queue.{
  IsValid, contents, seen, put, get, fresh-IsValid, send_refines, recv_refines,
}
use prismio.Chan.Plain.{IsPlain, plain_seen, narrow, send_copy_refines, recv_copy_refines}
use prismio.Chan.Wake.{
  System, start, one, delivers, Receives, new_send, new_recv, closes, Reach, here, next,
}
use prismio.Chan.Wake.Laws.{received-append-contents, no_lost_wakeup, closed_asleep}

-- 8 and then 9, round the end of three slots
abbrev wrapped : Chan
wrapped = record {
  slots = 9 ∷ 7 ∷ 8 ∷ [];
  bytes = none;
  elem_size = 0;
  cap = 3;
  head = 2;
  len = 2;
  closed = false;
}

send_wraps : send 5 wrapped ≡ done true (record wrapped { slots = 9 ∷ 5 ∷ 8 ∷ []; len = 3 })
unfolding send
send_wraps = refl

recv_wraps : recv wrapped ≡ done (some 8) (record wrapped { head = 0; len = 1 })
unfolding recv
recv_wraps = refl

capacity_is_positive : (fresh (negsuc 4)).cap ≡ 1
unfolding fresh
capacity_is_positive = refl

wrapped-IsValid : IsValid wrapped
wrapped-IsValid = omega arith

send_refines_example : seen (send 5 wrapped) ≡ put 3 false (8 ∷ 9 ∷ []) 5
send_refines_example = send_refines 5 wrapped-IsValid (omega arith)

recv_refines_example : seen (recv wrapped) ≡ get false (8 ∷ 9 ∷ [])
recv_refines_example = recv_refines wrapped-IsValid

fresh-IsValid_example :
    IsValid (fresh (pos 2))
    × (contents (fresh (pos 2)) ≡ [])
    × ((fresh (pos 2)).closed ≡ false)
    × (0 < (fresh (pos 2)).cap)
fresh-IsValid_example = fresh-IsValid (pos 2)

-- A plain channel of four-byte messages that holds 1.
abbrev plain : Chan
plain = record {
  slots = 0 ∷ 0 ∷ [];
  bytes = some (0 ∷ 1 ∷ []);
  elem_size = 4;
  cap = 2;
  head = 1;
  len = 1;
  closed = false;
}

plain-IsPlain : IsPlain plain
plain-IsPlain = record { block = inr (refl, refl); head_in = omega arith; len_in = omega arith }

send_copy_refines_example :
    plain_seen (send_copy true (2 ^ 32 + 7) 4 plain) ≡ put 2 false (1 ∷ []) 7
send_copy_refines_example = send_copy_refines (2 ^ 32 + 7) 4 plain-IsPlain (omega arith)

recv_copy_refines_example : plain_seen (recv_copy true 4 plain) ≡ narrow 4 (get false (1 ∷ []))
recv_copy_refines_example = recv_copy_refines 4 plain-IsPlain

-- Two receivers sleep on an empty channel of one slot; a sender delivers and wakes the first.
abbrev empty_one : Chan
empty_one = record {
  slots = 0 ∷ [];
  bytes = none;
  elem_size = 0;
  cap = 1;
  head = 0;
  len = 0;
  closed = false;
}

abbrev full_one : Chan
full_one = record empty_one { slots = 6 ∷ []; len = 1 }

abbrev at_rest : System
at_rest = record {
  chan = empty_one;
  send_asleep = [];
  send_woken = [];
  recv_asleep = [];
  recv_woken = [];
  sent = [];
  received = [];
}

abbrev delivered : System
delivered = record {
  chan = full_one;
  send_asleep = [];
  send_woken = [];
  recv_asleep = 4 ∷ [];
  recv_woken = 3 ∷ [];
  sent = 6 ∷ [];
  received = [];
}

first_asleep : Reach (start (pos 1)) (record at_rest { recv_asleep = 3 ∷ [] })
unfolding start fresh recv
first_asleep = next here (new_recv 3 (Receives.sleeps refl refl))

both_asleep : Reach (start (pos 1)) (record at_rest { recv_asleep = 4 ∷ 3 ∷ [] })
unfolding recv
both_asleep = next first_asleep (new_recv 4 (Receives.sleeps refl refl))

one_message : Reach (start (pos 1)) delivered
unfolding send
one_message =
    next both_asleep (
      new_send 6 (delivers full_one (4 ∷ []) (3 ∷ []) refl (one (4 ∷ []) 3 [] refl refl refl) refl))

abbrev closed_one : System
closed_one = record delivered {
  chan = record full_one { closed = true };
  recv_asleep = [];
  recv_woken = 4 ∷ 3 ∷ [];
}

closed_after : Reach (start (pos 1)) closed_one
unfolding close
closed_after = next one_message (closes refl)

received-append-contents_example :
    (delivered.sent ≡ delivered.received ++ contents delivered.chan)
    × (delivered.chan.len ≤ delivered.chan.cap)
received-append-contents_example = received-append-contents (pos 1) one_message (omega arith)

no_lost_wakeup_example :
    (delivered.recv_asleep ≢ [] → 0 < delivered.chan.len → delivered.recv_woken ≢ [])
    × (delivered.send_asleep ≢ []
        → delivered.chan.len < delivered.chan.cap
        → delivered.send_woken ≢ [])
no_lost_wakeup_example = no_lost_wakeup (pos 1) one_message

closed_asleep_example : (closed_one.recv_asleep ≡ []) × (closed_one.send_asleep ≡ [])
closed_asleep_example = closed_asleep (pos 1) closed_after refl
