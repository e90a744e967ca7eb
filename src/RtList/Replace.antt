-- ===== src/RtList/Replace.antt =====
-- runtime/lang_runtime.c: reads and writes of one element by its index. An index outside the list
-- stops the program.
use prismio.Base.{
  ℕ, ◌+◌, ◌*◌, ◌%◌, ◌^◌, Bool, true, false, not, ◌&&◌, ◌||◌, [], ◌∷◌, ◌++◌, ◌==◌, leb,
  if◌then◌else◌, get_or, set,
}
use prismio.Base.Int.{ℤ, unsigned, is_neg}
use prismio.RtList.State.{
  Own, object, list, rc, typed, rc_atomic, cycle_atomic, string, Slot, pointer, RtList, rc_retain,
  rc_release, rc_retain_atomic, rc_release_atomic, Trace, Env, index_fail, exclusive_fail,
  not_boxed, Run, exits, ok, out_of_range, ptr_at, word_at,
}
use prismio.RtList.Release.{
  owns_block, is_view, pair_size, is_unowned, release_element, release_source, discard_slot,
}
use prismio.RtList.Push.{scalar_store, scalar_width, str_own_pair, stored_pair}

abbrev pub put_slot : RtList → ℕ → Slot → RtList
put_slot l i s = record l { slots = set l.slots i s }

-- The modes under which an element that is written over is parked: owned, and not counted.
abbrev pub is_uncounted : Own → Bool
is_uncounted object = true
is_uncounted list = true
is_uncounted typed = true
is_uncounted string = true
is_uncounted _ = false

-- Checks the index and goes on with it.
abbrev pub with_index : {A : Type 0} → RtList → ℤ → (ℕ → Trace × A) → Run A
with_index l index k =
    if out_of_range index l.len
    then exits (index_fail index l.len)
    else ok (k (unsigned index)).0 (k (unsigned index)).1

-- list_get
unfoldable pub get : RtList → ℤ → Run ℕ
get l index = with_index l index λ i. ([], ptr_at l i)

-- list_get_inline: the slot's address, or a boxed slot's content.
unfoldable pub get_inline : RtList → ℤ → Run ℕ
get_inline l index =
    with_index l index λ i. ([], if l.elem_size == 0 then ptr_at l i else l.block + i * l.elem_size)

-- list_get_inline_scalar
unfoldable pub get_inline_scalar : RtList → ℤ → ℕ → Run ℕ
get_inline_scalar l index elem_size = with_index l index λ i. (
  [],
  if not (l.elem_size == elem_size)
      then ptr_at l i
      else ptr_at l i % 2 ^ (8 * scalar_width elem_size),
)

-- list_set_park_slow
unfoldable pub set_park_slow : RtList → ℕ → ℕ → Trace × RtList
unfolding discard_slot
set_park_slow l i value = let (t, l') = discard_slot l i false in (t, put_slot l' i (pointer value))

-- What the branches of list_set do before the store, at an index in range.
unfoldable pub set_at : RtList → ℕ → ℕ → Own → Trace × RtList
unfolding set_park_slow
set_at l i value rc = (rc_retain value ∷ rc_release (ptr_at l i) ∷ [], put_slot l i (pointer value))
set_at l i value rc_atomic =
    (rc_retain_atomic value ∷ rc_release_atomic (ptr_at l i) ∷ [], put_slot l i (pointer value))
set_at l i value cycle_atomic =
    (rc_retain_atomic value ∷ rc_release_atomic (ptr_at l i) ∷ [], put_slot l i (pointer value))
set_at l i value own =
    if is_uncounted own
      && (l.elem_size == 0)
      && (l.arena == 0)
      && not (ptr_at l i == 0)
      && not (ptr_at l i == value)
    then set_park_slow l i value
    else ([], put_slot l i (pointer value))

-- list_set
unfoldable pub set_elem : RtList → ℤ → ℕ → Run RtList
unfolding set_at
set_elem l index value = with_index l index λ i. set_at l i value l.elem_own

-- list_set_now: what list_set would park is released at once.
unfoldable pub set_now_at : RtList → ℕ → ℕ → Trace × RtList
unfolding set_at release_element
set_now_at l i value =
    if not (is_uncounted l.elem_own) || not (l.elem_size == 0) || not (l.arena == 0)
    then set_at l i value l.elem_own
    else (let old = ptr_at l i in
        if not (old == 0) && not (old == value)
        then (release_element l.elem_own l.releaser old, put_slot l i (pointer value))
        else ([], put_slot l i (pointer value)))

unfoldable pub set_now : RtList → ℤ → ℕ → Run RtList
unfolding set_now_at
set_now l index value = with_index l index λ i. set_now_at l i value

-- list_set_exclusive
unfoldable pub set_exclusive : RtList → ℤ → ℕ → Run RtList
unfolding release_source
set_exclusive l index value =
    if is_neg index || leb l.len (unsigned index)
    then exits (exclusive_fail index l.len)
    else if not (l.elem_size == 0)
    then exits not_boxed
    else (let i = unsigned index in
        let l' = put_slot l i (pointer value) in ok (release_source l' (ptr_at l i)) l')

-- list_set_inline: `value` is the address that the body is copied from.
unfoldable pub set_inline : RtList → ℤ → ℕ → Slot → Run RtList
unfolding set_elem release_source
set_inline l index value body =
    if l.elem_size == 0
    then set_elem l index value
    else with_index l index λ i. (release_source (put_slot l i body) value, put_slot l i body)

-- list_set_inline_scalar, with list_set_unstamped
unfoldable pub set_inline_scalar : RtList → ℤ → ℕ → ℕ → Run RtList
unfolding set_elem
set_inline_scalar l index bits elem_size =
    if not (l.elem_size == elem_size)
    then set_elem l index bits
    else with_index l index λ i. ([], put_slot l i (scalar_store bits elem_size))

-- list_swap
unfoldable pub swap_at : RtList → ℕ → ℕ → RtList
swap_at l i j = record l {
  slots = set (set l.slots i (get_or l.slots j (pointer 0))) j (get_or l.slots i (pointer 0));
}

unfoldable pub swap : RtList → ℤ → ℤ → Run RtList
unfolding swap_at
swap l i j =
    if out_of_range i l.len
    then exits (index_fail i l.len)
    else if out_of_range j l.len
    then exits (index_fail j l.len)
    else ok [] (swap_at l (unsigned i) (unsigned j))

-- list_str_data
unfoldable pub str_data : RtList → ℤ → Run ℕ
str_data l index = with_index l index λ i. ([], ptr_at l i)

-- list_str_word; a boxed slot's string is measured, by `cstr_len`.
unfoldable pub str_word : (cstr_len : ℕ → ℕ) → RtList → ℤ → Run ℕ
str_word cstr_len l index =
    with_index l index
      λ i. ([], if l.elem_size == pair_size then word_at l i else cstr_len (ptr_at l i))

-- The write of a pair over a stamped slot, parking or releasing what the slot owned.
unfoldable pub replace_pair : Env → RtList → ℕ → ℕ → ℕ → Bool → Trace × RtList
unfolding discard_slot stored_pair
replace_pair env l i raw word now =
    let (t, l') = (if ptr_at l i == raw then ([], l) else discard_slot l i now) in
    let (t', pair) = stored_pair env raw word in (t ++ t', put_slot l' i pair)

-- list_set_str_slow, at an index in range
unfoldable pub set_str_slow_at : Env → RtList → ℕ → ℕ → ℕ → Trace × RtList
unfolding replace_pair str_own_pair set_at
set_str_slow_at env l i raw word =
    if not (l.elem_size == pair_size)
    then (let (t, owned) = str_own_pair env raw word in
        let (t', l') = set_at l i owned l.elem_own in (t ++ t', l'))
    else replace_pair env l i raw word false

-- list_set_str: the fast path is for a slot with nothing to park.
unfoldable pub set_str_at : Env → RtList → ℕ → ℕ → ℕ → Trace × RtList
unfolding set_str_slow_at
set_str_at env l i raw word =
    if not (l.elem_size == pair_size) || is_view word
    then set_str_slow_at env l i raw word
    else if not (is_unowned l.elem_own)
        && (l.arena == 0)
        && not (ptr_at l i == raw)
        && owns_block (word_at l i)
    then set_str_slow_at env l i raw word
    else ([], put_slot l i (record { ptr = raw; word = word }))

unfoldable pub set_str : Env → RtList → ℤ → ℕ → ℕ → Run RtList
unfolding set_str_at
set_str env l index raw word = with_index l index λ i. set_str_at env l i raw word

-- list_set_str_now
unfoldable pub set_str_now : Env → RtList → ℤ → ℕ → ℕ → Run RtList
unfolding replace_pair str_own_pair set_now_at
set_str_now env l index raw word = with_index l index λ i.
    if not (l.elem_size == pair_size)
    then (let (t, owned) = str_own_pair env raw word in
        let (t', l') = set_now_at l i owned in (t ++ t', l'))
    else replace_pair env l i raw word true
