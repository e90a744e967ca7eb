-- ===== src/RtList/Script.antt =====
-- Sequences of calls on a boxed list, as a program makes them on a `Vec` of pointers.
pub mod Elems
pub mod Insert
pub mod Refine
pub mod Ledger
use prismio.Base.{ℕ, ◌+◌, Bool, List, [], ◌∷◌}
use prismio.Base.Int.{ℤ}
use prismio.RtList.State.{RtList, Env, Run, ok, ◌>>=◌}
use prismio.RtList.Push.{push}
use prismio.RtList.Replace.{set_elem, set_now, swap}
use prismio.RtList.Remove.{truncate, remove_at, insert}
use prismio.RtList.Grow.{reserve}

pub data Op : Type 0 where
  push_op : ℕ → Op
  set_op : ℤ → ℕ → Op
  set_now_op : ℤ → ℕ → Op
  swap_op : ℤ → ℤ → Op
  remove_op : ℤ → Bool → Op
  truncate_op : ℤ → Bool → Op
  insert_op : ℤ → ℕ → Op
  reserve_op : ℤ → Op

unfoldable pub exec : Env → Op → RtList → Run RtList
exec env (push_op v) l = ok (push env l v).0 (push env l v).1
exec env (set_op i v) l = set_elem l i v
exec env (set_now_op i v) l = set_now l i v
exec env (swap_op i j) l = swap l i j
exec env (remove_op i now) l = remove_at l i now
exec env (truncate_op n now) l = ok (truncate l n now).0 (truncate l n now).1
exec env (insert_op i v) l = insert env l i v
exec env (reserve_op n) l = ok (reserve env l n).0 (reserve env l n).1

-- The calls in order, each with the memory at its moment.
unfoldable pub run : List (Env × Op) → RtList → Run RtList
unfolding exec
run [] l = ok [] l
run ((env, op) ∷ ops) l = exec env op l >>= run ops
