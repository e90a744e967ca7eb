-- ===== src/RtList/Remove.antt =====
-- runtime/lang_runtime.c: the removals from a list, and insertion as a push and a move.
use prismio.Base.{
  ℕ, zero, suc, ◌+◌, ◌-◌, Bool, ◌||◌, List, [], ◌∷◌, ◌++◌, ltb, leb, if◌then◌else◌, get_or, take,
  drop,
}
use prismio.Base.Int.{ℤ, pos, negsuc, unsigned, is_neg}
use prismio.RtList.State.{
  Slot, pointer, RtList, Trace, Env, remove_fail, insert_fail, Run, exits, ok, out_of_range,
}
use prismio.RtList.Release.{discard_slot}
use prismio.RtList.Push.{push, push_inline, push_inline_scalar, push_str}

-- The loop of list_truncate: the `k` slots from `n` on, the last first.
unfoldable pub discard_from : RtList → ℕ → ℕ → Bool → Trace × RtList
unfolding discard_slot
discard_from l n zero now = ([], l)
discard_from l n (suc k) now =
    let (t, l') = discard_slot l (n + k) now in
    let (t', l'') = discard_from l' n k now in (t ++ t', l'')

-- A negative length empties the list.
abbrev pub new_len : ℤ → ℕ
new_len (pos n) = n
new_len (negsuc n) = 0

-- list_truncate
unfoldable pub truncate : RtList → ℤ → Bool → Trace × RtList
unfolding discard_from
truncate l n now =
    if leb l.len (new_len n)
    then ([], l)
    else (let (t, l') = discard_from l (new_len n) (l.len - new_len n) now in
        (t, record l' { len = new_len n }))

-- The memmove of list_remove_at: the elements behind `i` move down by one.
abbrev pub close_gap : List Slot → ℕ → ℕ → List Slot
close_gap slots i len =
    take i slots ++ (take (len - i - 1) (drop (suc i) slots) ++ drop (len - 1) slots)

unfoldable pub remove_in : RtList → ℕ → Bool → Trace × RtList
unfolding discard_slot
remove_in l i now =
    let (t, l') = discard_slot l i now in
    (t, record l' { slots = close_gap l.slots i l.len; len = l.len - 1 })

-- list_remove_at
unfoldable pub remove_at : RtList → ℤ → Bool → Run RtList
unfolding remove_in
remove_at l index now =
    if out_of_range index l.len
    then exits (remove_fail index l.len)
    else ok (remove_in l (unsigned index) now).0 (remove_in l (unsigned index) now).1

-- The two copies of list_move_last: the elements from `i` move up, and the last goes to `i`.
abbrev pub open_gap : List Slot → ℕ → ℕ → List Slot
open_gap slots i len =
    take i slots
    ++ (get_or slots (len - 1) (pointer 0) ∷ (take (len - 1 - i) (drop i slots) ++ drop len slots))

unfoldable pub move_last : RtList → ℕ → RtList
move_last l i = if leb (l.len - 1) i then l else record l { slots = open_gap l.slots i l.len }

-- list_check_insert_index
abbrev pub with_insert_index : RtList → ℤ → (ℕ → Trace × RtList) → Run RtList
with_insert_index l index k =
    if is_neg index || ltb l.len (unsigned index)
    then exits (insert_fail index l.len)
    else ok (k (unsigned index)).0 (k (unsigned index)).1

unfoldable pub insert_in : Env → RtList → ℕ → ℕ → Trace × RtList
unfolding push move_last
insert_in env l i value = let (t, l') = push env l value in (t, move_last l' i)

-- list_insert
unfoldable pub insert : Env → RtList → ℤ → ℕ → Run RtList
unfolding insert_in
insert env l index value = with_insert_index l index λ i. insert_in env l i value

-- list_insert_inline
unfoldable pub insert_inline : Env → RtList → ℤ → ℕ → Slot → Run RtList
unfolding push_inline move_last
insert_inline env l index value body =
    with_insert_index l index λ i. let (t, l') = push_inline env l value body in (t, move_last l' i)

-- list_insert_inline_scalar
unfoldable pub insert_inline_scalar : Env → RtList → ℤ → ℕ → ℕ → Run RtList
unfolding push_inline_scalar move_last
insert_inline_scalar env l index bits elem_size =
    with_insert_index l index
      λ i. let (t, l') = push_inline_scalar env l bits elem_size in (t, move_last l' i)

-- list_insert_str
unfoldable pub insert_str : Env → RtList → ℤ → ℕ → ℕ → Run RtList
unfolding push_str move_last
insert_str env l index raw word =
    with_insert_index l index λ i. let (t, l') = push_str env l raw word in (t, move_last l' i)
