-- ===== src/RtList/Slice.antt =====
-- runtime/lang_runtime.c: slices, views of a list by its handle, an offset and a length.
pub mod Laws
use prismio.Base.{
  ℕ, ◌+◌, ◌≡◌, Bool, true, false, ◌||◌, Option, none, some, [], ltb, leb, if◌then◌else◌,
}
use prismio.Base.Int.{ℤ, pos, negsuc, is_neg, pos_part, neg_part}
use prismio.RtList.State.{Slot, RtList, Trace, Env, slice_fail, null_slice, Run, exits, ok, ◌>>=◌}
use prismio.RtList.Replace.{
  get, get_inline, get_inline_scalar, set_elem, set_inline, set_inline_scalar, str_data, str_word,
  set_str,
}

-- a < b and a <= b on C's integers
abbrev pub lt_ℤ : ℤ → ℤ → Bool
lt_ℤ a b = ltb (pos_part a + neg_part b) (pos_part b + neg_part a)

-- The tests of prismio_slice_check: whether the range [start, end) lies in the collection.
unfoldable pub slice_ok : ℤ → ℤ → ℤ → Bool
slice_ok available start end =
    if is_neg available || is_neg start || lt_ℤ end start || lt_ℤ available end then false else true

-- list_slice_index: the index into the list, after the index into the view has been checked. The
-- sum is taken in a wider integer.
unfoldable pub slice_index : Option RtList → ℤ → ℤ → ℤ → Run ℤ
slice_index none offset length index = exits null_slice
slice_index (some l) offset length index =
    if is_neg offset
      || is_neg length
      || is_neg index
      || leb (pos_part length) (pos_part index)
      || leb l.len (pos_part offset + pos_part index)
    then exits (slice_fail offset index l.len)
    else ok [] (pos (pos_part offset + pos_part index))

-- An access through a slice is the access of the list at that index.
abbrev pub through : {A : Type 0} → RtList → ℤ → ℤ → ℤ → (ℤ → Run A) → Run A
through l offset length index access = slice_index (some l) offset length index >>= access

-- list_slice_get
unfoldable pub slice_get : RtList → ℤ → ℤ → ℤ → Run ℕ
unfolding slice_index get
slice_get l offset length index = through l offset length index (get l)

-- list_slice_get_inline
unfoldable pub slice_get_inline : RtList → ℤ → ℤ → ℤ → Run ℕ
unfolding slice_index get_inline
slice_get_inline l offset length index = through l offset length index (get_inline l)

-- list_slice_get_inline_scalar
unfoldable pub slice_get_inline_scalar : RtList → ℤ → ℤ → ℤ → ℕ → Run ℕ
unfolding slice_index get_inline_scalar
slice_get_inline_scalar l offset length index elem_size =
    through l offset length index λ i. get_inline_scalar l i elem_size

-- list_slice_set
unfoldable pub slice_set : RtList → ℤ → ℤ → ℤ → ℕ → Run RtList
unfolding slice_index set_elem
slice_set l offset length index value = through l offset length index λ i. set_elem l i value

-- list_slice_set_inline
unfoldable pub slice_set_inline : RtList → ℤ → ℤ → ℤ → ℕ → Slot → Run RtList
unfolding slice_index set_inline
slice_set_inline l offset length index value body =
    through l offset length index λ i. set_inline l i value body

-- list_slice_set_inline_scalar
unfoldable pub slice_set_inline_scalar : RtList → ℤ → ℤ → ℤ → ℕ → ℕ → Run RtList
unfolding slice_index set_inline_scalar
slice_set_inline_scalar l offset length index bits elem_size =
    through l offset length index λ i. set_inline_scalar l i bits elem_size

-- list_slice_str_data and list_slice_str_word
unfoldable pub slice_str_data : RtList → ℤ → ℤ → ℤ → Run ℕ
unfolding slice_index str_data
slice_str_data l offset length index = through l offset length index (str_data l)

unfoldable pub slice_str_word : (cstr_len : ℕ → ℕ) → RtList → ℤ → ℤ → ℤ → Run ℕ
unfolding slice_index str_word
slice_str_word cstr_len l offset length index = through l offset length index (str_word cstr_len l)

-- list_slice_set_str
unfoldable pub slice_set_str : Env → RtList → ℤ → ℤ → ℤ → ℕ → ℕ → Run RtList
unfolding slice_index set_str
slice_set_str env l offset length index raw word =
    through l offset length index λ i. set_str env l i raw word
