-- ===== src/RtList/Release.antt =====
-- runtime/lang_runtime.c: what a list does with an element it lets go, and its teardown.
use prismio.Base.{
  ℕ, zero, suc, ◌+◌, ◌*◌, ◌/◌, ◌%◌, ◌^◌, Bool, true, false, not, ◌&&◌, ◌||◌, List, [], ◌∷◌, ◌++◌,
  ◌==◌, ltb, leb, if◌then◌else◌, length,
}
use prismio.RtList.State.{
  Own, unowned, object, list, rc, typed, cycle, rc_atomic, cycle_atomic, string, RtList, free_block,
  free_header, free_elem, list_release, elem_release, rc_release, rc_release_atomic, cyc_release,
  Trace, ptr_at, word_at,
}

-- STR_WORD_INLINE, STR_WORD_VIEW and STR_WORD_BORROWED are bits 31, 32 and 34 of the length word.
abbrev pub has_bit : ℕ → ℕ → Bool
has_bit word k = word / 2 ^ k % 2 == 1

abbrev pub is_inline : ℕ → Bool
is_inline word = has_bit word 31

abbrev pub is_view : ℕ → Bool
is_view word = not (has_bit word 31) && has_bit word 32

-- No bit says that there is nothing to free.
abbrev pub owns_block : ℕ → Bool
owns_block word = not (has_bit word 31 || has_bit word 32 || has_bit word 34)

abbrev pub pair_size : ℕ
pair_size = 16

-- list_free_data
unfoldable pub free_data : RtList → Trace
free_data l =
    if not (l.block == 0) && (l.arena == 0) && not l.fused then free_block l.block ∷ [] else []

-- list_release_element, by the mode and whether a releaser is set
unfoldable pub release_element : Own → Bool → ℕ → Trace
release_element list releaser e = list_release e ∷ []
release_element rc releaser e = rc_release e ∷ []
release_element cycle releaser e = cyc_release e ∷ []
release_element rc_atomic releaser e = rc_release_atomic e ∷ []
release_element cycle_atomic releaser e = rc_release_atomic e ∷ cyc_release e ∷ []
release_element typed releaser e = if releaser then elem_release e ∷ [] else []
release_element unowned releaser e = free_elem e ∷ []
release_element object releaser e = free_elem e ∷ []
release_element string releaser e = free_elem e ∷ []

abbrev pub is_unowned : Own → Bool
is_unowned unowned = true
is_unowned _ = false

abbrev pub is_string : Own → Bool
is_string string = true
is_string _ = false

-- list_release_source: an address inside the list's own inline block is no allocation.
unfoldable pub release_source : RtList → ℕ → Trace
unfolding release_element
release_source l e =
    if (e == 0) || not (l.arena == 0) || is_unowned l.elem_own
    then []
    else if not (l.elem_size == 0) && leb l.block e && ltb e (l.block + l.cap * l.elem_size)
    then []
    else release_element l.elem_own l.releaser e

-- list_park
unfoldable pub park : RtList → ℕ → RtList
park l owned = record l {
  grave = l.grave ++ (owned ∷ []);
  grave_cap =
      if length l.grave == l.grave_cap
      then (if l.grave_cap == 0 then 4 else l.grave_cap * 2)
      else l.grave_cap;
}

-- `list_release_parked`: the last parked first.
unfoldable pub release_all : Own → Bool → List ℕ → Trace
unfolding release_element
release_all own releaser [] = []
release_all own releaser (e ∷ es) = release_all own releaser es ++ release_element own releaser e

unfoldable pub release_parked : RtList → Trace × RtList
unfolding release_all
release_parked l =
    (release_all l.elem_own l.releaser l.grave, record l { grave = []; grave_cap = 0 })

-- What slot `index` owns, 0 for nothing: the first half of list_discard_slot.
unfoldable pub owned_at : RtList → ℕ → ℕ
owned_at l index =
    if not (l.arena == 0) || is_unowned l.elem_own
    then 0
    else if not (l.elem_size == 0)
    then (if not (is_string l.elem_own) || not (l.elem_size == pair_size)
        then 0
        else if owns_block (word_at l index)
        then ptr_at l index
        else 0)
    else ptr_at l index

-- list_discard_slot
unfoldable pub discard_slot : RtList → ℕ → Bool → Trace × RtList
unfolding owned_at release_element park
discard_slot l index now =
    let owned = owned_at l index in
    if owned == 0
    then ([], l)
    else if now
    then (release_element l.elem_own l.releaser owned, l)
    else ([], park l owned)

-- The loops of list_release over the elements, from the last to the first.
unfoldable pub release_pairs : RtList → ℕ → Trace
release_pairs l zero = []
release_pairs l (suc i) =
    (if owns_block (word_at l i) then free_elem (ptr_at l i) ∷ [] else []) ++ release_pairs l i

unfoldable pub release_boxed : RtList → ℕ → Trace
unfolding release_element
release_boxed l zero = []
release_boxed l (suc i) =
    (if ptr_at l i == 0 then [] else release_element l.elem_own l.releaser (ptr_at l i))
    ++ release_boxed l i

-- list_release: the elements, what is parked, the block and the header.
unfoldable pub release_elements : RtList → Trace
unfolding release_pairs release_boxed
release_elements l =
    if not (l.elem_size == 0)
    then (if is_string l.elem_own && (l.elem_size == pair_size) && not (l.block == 0)
        then release_pairs l l.len
        else [])
    else if is_unowned l.elem_own
    then []
    else release_boxed l l.len

unfoldable pub release : RtList → Trace
unfolding release_elements release_parked free_data
release l =
    if not (l.arena == 0)
    then []
    else release_elements l
      ++ ((release_parked l).0 ++ (free_data l ++ (free_header l.handle ∷ [])))
