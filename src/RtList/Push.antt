-- ===== src/RtList/Push.antt =====
-- runtime/lang_runtime.c: the pushes onto a list, of pointers, bodies, scalars and Strings.
use prismio.Base.{ℕ, ◌+◌, ◌*◌, ◌%◌, ◌^◌, not, ◌||◌, [], ◌∷◌, ◌++◌, ◌==◌, leb, if◌then◌else◌, set}
use prismio.RtList.State.{
  Own, unowned, object, list, rc, typed, cycle, rc_atomic, cycle_atomic, string, Slot, pointer,
  RtList, rc_retain, rc_retain_atomic, cyc_retain, Trace, Env, rt_alloc,
}
use prismio.RtList.Release.{owns_block, is_view, pair_size, release_source}
use prismio.RtList.Grow.{grow_if_full}

-- The retain of list_push: the counted modes take a reference.
unfoldable pub retain_element : Own → ℕ → Trace
retain_element rc value = rc_retain value ∷ []
retain_element cycle value = cyc_retain value ∷ []
retain_element rc_atomic value = rc_retain_atomic value ∷ []
retain_element cycle_atomic value = rc_retain_atomic value ∷ cyc_retain value ∷ []
retain_element unowned value = []
retain_element object value = []
retain_element list value = []
retain_element typed value = []
retain_element string value = []

-- The slot behind the last element is written, and counted.
unfoldable pub append_slot : RtList → Slot → RtList
append_slot l s = record l { slots = set l.slots l.len s; len = (l.len + 1) % 2 ^ 32 }

-- list_push, which is called on a boxed list: it writes the eight bytes of a pointer.
unfoldable pub push : Env → RtList → ℕ → Trace × RtList
unfolding retain_element grow_if_full append_slot
push env l value =
    let (t, l') = grow_if_full env l in
    (retain_element l.elem_own value ++ t, append_slot l' (pointer value))

-- list_push_slot, with list_push_slot_boxed: the answer is the address to build the element at.
unfoldable pub push_slot : Env → RtList → ℕ → Trace × ℕ × RtList
unfolding push grow_if_full
push_slot env l elem_size =
    if l.elem_size == 0
    then (let (t, l') = push env l env.fresh in (rt_alloc env env.fresh ∷ t, env.fresh, l'))
    else (let (t, l') = grow_if_full env l in
        (t, l'.block + l'.len * l'.elem_size, record l' { len = (l'.len + 1) % 2 ^ 32 }))

-- list_push_inline: `value` is the address that the body is copied from.
unfoldable pub push_inline : Env → RtList → ℕ → Slot → Trace × RtList
unfolding push grow_if_full append_slot release_source
push_inline env l value body =
    if l.elem_size == 0
    then push env l value
    else (let (t, l') = grow_if_full env l in
        (t ++ release_source (append_slot l' body) value, append_slot l' body))

-- scalar_store: by value, at the width of the element.
abbrev pub scalar_width : ℕ → ℕ
scalar_width size = if (size == 1) || (size == 2) || (size == 4) then size else 8

abbrev pub scalar_store : ℕ → ℕ → Slot
scalar_store bits size = pointer (bits % 2 ^ (8 * scalar_width size))

-- list_push_inline_scalar_slow
unfoldable pub push_inline_scalar_slow : Env → RtList → ℕ → ℕ → Trace × RtList
unfolding push grow_if_full append_slot
push_inline_scalar_slow env l bits elem_size =
    if l.elem_size == 0
    then push env l bits
    else if not (l.elem_size == elem_size)
    then push env l bits
    else (let (t, l') = grow_if_full env l in (t, append_slot l' (scalar_store bits elem_size)))

-- list_push_inline_scalar
unfoldable pub push_inline_scalar : Env → RtList → ℕ → ℕ → Trace × RtList
unfolding push_inline_scalar_slow append_slot
push_inline_scalar env l bits elem_size =
    if not (l.elem_size == elem_size) || leb l.cap l.len
    then push_inline_scalar_slow env l bits elem_size
    else ([], append_slot l (scalar_store bits elem_size))

-- str_own and str_own_pair: a pair as a block that a boxed slot can own; only an owned long form is
-- handed over as it is.
unfoldable pub str_own_pair : Env → ℕ → ℕ → Trace × ℕ
str_own_pair env raw word =
    if owns_block word then ([], raw) else (rt_alloc env env.fresh ∷ [], env.fresh)

-- The pair that a list stores: a view is copied out, by str_clone_n, as a string of its own.
unfoldable pub stored_pair : Env → ℕ → ℕ → Trace × Slot
stored_pair env raw word =
    if is_view word
    then (rt_alloc env env.fresh ∷ [], record { ptr = env.fresh; word = word % 2 ^ 31 })
    else ([], record { ptr = raw; word = word })

-- list_push_str_slow
unfoldable pub push_str_slow : Env → RtList → ℕ → ℕ → Trace × RtList
unfolding push grow_if_full append_slot str_own_pair stored_pair
push_str_slow env l raw word =
    if not (l.elem_size == pair_size)
    then (let (t, owned) = str_own_pair env raw word in
        let (t', l') = push env l owned in (t ++ t', l'))
    else (let (t, pair) = stored_pair env raw word in
        let (t', l') = grow_if_full env l in (t ++ t', append_slot l' pair))

-- list_push_str
unfoldable pub push_str : Env → RtList → ℕ → ℕ → Trace × RtList
unfolding push_str_slow append_slot
push_str env l raw word =
    if not (l.elem_size == pair_size) || leb l.cap l.len || is_view word
    then push_str_slow env l raw word
    else ([], append_slot l (record { ptr = raw; word = word }))
