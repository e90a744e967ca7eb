-- ===== src/RtList/Script/Refine.antt =====
-- A boxed list against the abstract sequence of its elements: the calls of a script do to the
-- sequence what their names say, and stop the program exactly at the indices outside it.
use prismio.Base.{
  ℕ, suc, ◌<◌, ◌^◌, ◌≡◌, Bool, not, ◌&&◌, Option, none, some, List, [], ◌∷◌, ◌++◌, arith, ltb,
  if◌then◌else◌, length, set, take,
}
use prismio.Base.Int.{ℤ, pos, negsuc, pos_part, is_neg, unsigned, IsInt32}
use prismio.RtList.State.{Slot, pointer, RtList, Env, Run, exits, ok, Trace, out_of_range}
use prismio.RtList.Replace.{set_elem, set_now, swap}
use prismio.RtList.Remove.{new_len, remove_at, insert}
use prismio.RtList.Script.{
  Op, push_op, set_op, set_now_op, swap_op, remove_op, truncate_op, insert_op, reserve_op, exec,
}
use prismio.RtList.Script.Elems.{
  IsValid, CanGrow, elems, SameKind, swapped, without, length-elems, push-Gives, set_at-Gives,
  set_now_at-Gives, swap_at-Gives, remove_in-Gives, truncate-Gives, reserve-Gives,
}
use prismio.RtList.Script.Insert.{inserted, insert_in-Gives}

-- 0 <= i < n, over the integers
abbrev pub in_bounds : ℤ → ℕ → Bool
in_bounds i n = not (is_neg i) && ltb (pos_part i) n

-- The one unsigned compare of an index check answers as the two signed ones.
pub out_of_range-in_bounds :
    (i : ℤ) (n : ℕ) → IsInt32 i → n < 2 ^ 31 → out_of_range i n ≡ not (in_bounds i n)
out_of_range-in_bounds (pos k) n h hn = ground arith
out_of_range-in_bounds (negsuc k) n h hn = ground arith

-- What a call does to the sequence; `none` is a stop.
pub spec : Op → List Slot → Option (List Slot)
spec (push_op v) xs = some (xs ++ (pointer v ∷ []))
spec (set_op i v) xs =
    if in_bounds i (length xs) then some (set xs (pos_part i) (pointer v)) else none
spec (set_now_op i v) xs =
    if in_bounds i (length xs) then some (set xs (pos_part i) (pointer v)) else none
spec (swap_op i j) xs =
    if in_bounds i (length xs) && in_bounds j (length xs)
    then some (swapped xs (pos_part i) (pos_part j))
    else none
spec (remove_op i now) xs = if in_bounds i (length xs) then some (without xs (pos_part i)) else none
spec (truncate_op n now) xs = some (take (new_len n) xs)
spec (insert_op i v) xs =
    if in_bounds i (suc (length xs)) then some (inserted xs (pos_part i) (pointer v)) else none
spec (reserve_op n) xs = some xs

-- The indices of a call are C `int`s.
abbrev pub FitsInt : Op → Type 0
FitsInt (set_op i v) = IsInt32 i
FitsInt (set_now_op i v) = IsInt32 i
FitsInt (swap_op i j) = IsInt32 i × IsInt32 j
FitsInt (remove_op i now) = IsInt32 i
FitsInt (insert_op i v) = IsInt32 i
FitsInt _ = Unit {0}

-- What is seen of a call: a stop, or the elements after it.
abbrev pub shape : Run RtList → Option (List Slot)
shape (exits e) = none
shape (ok t l) = some (elems l)

-- A call with C int indices on a valid boxed list does to the sequence of its elements what the
-- abstract operation does, and stops the program exactly where that has no answer, where there is
-- memory for a larger block and the capacity is below 2^30, so that twice it is an int.
pub exec_refines :
    (env : Env) (op : Op) {l : RtList}
    → IsValid l
    → l.elem_size ≡ 0
    → CanGrow env l
    → FitsInt op
    → shape (exec env op l) ≡ spec op (elems l)
unfolding exec spec set_elem set_now swap remove_at insert
exec_refines env (push_op x) {l} v b g f = ground (arith, push-Gives env x v g)
exec_refines env (set_op i x) {l} v b g f =
    ground (arith, length-elems l v, set_at-Gives (unsigned i) x l.elem_own v)
exec_refines env (set_now_op i x) {l} v b g f =
    ground (arith, length-elems l v, set_now_at-Gives (unsigned i) x v)
exec_refines env (swap_op i j) {l} v b g f =
    ground (arith, length-elems l v, swap_at-Gives (unsigned i) (unsigned j) v)
exec_refines env (remove_op i now) {l} v b g f =
    ground (arith, length-elems l v, remove_in-Gives (unsigned i) now v)
exec_refines env (truncate_op n now) {l} v b g f = ground (arith, truncate-Gives n now v)
exec_refines env (insert_op i x) {l} v b g f =
    ground (arith, length-elems l v, insert_in-Gives env (unsigned i) x v g)
exec_refines env (reserve_op n) {l} v b g f = ground (arith, reserve-Gives env n v g)

-- What a call that returns leaves: a valid list of the same kind.
pub exec-IsValid :
    (env : Env) (op : Op) {l l' : RtList} {t : Trace}
    → IsValid l
    → CanGrow env l
    → exec env op l ≡ ok t l'
    → IsValid l' × SameKind l l'
unfolding exec set_elem set_now swap remove_at insert
exec-IsValid env (push_op x) {l} v g e = ground (arith, push-Gives env x v g)
exec-IsValid env (set_op i x) {l} v g e = ground (arith, set_at-Gives (unsigned i) x l.elem_own v)
exec-IsValid env (set_now_op i x) {l} v g e = ground (arith, set_now_at-Gives (unsigned i) x v)
exec-IsValid env (swap_op i j) {l} v g e = ground (arith, swap_at-Gives (unsigned i) (unsigned j) v)
exec-IsValid env (remove_op i now) {l} v g e = ground (arith, remove_in-Gives (unsigned i) now v)
exec-IsValid env (truncate_op n now) {l} v g e = ground (arith, truncate-Gives n now v)
exec-IsValid env (insert_op i x) {l} v g e = ground (arith, insert_in-Gives env (unsigned i) x v g)
exec-IsValid env (reserve_op n) {l} v g e = ground (arith, reserve-Gives env n v g)
