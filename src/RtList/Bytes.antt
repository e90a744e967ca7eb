-- ===== src/RtList/Bytes.antt =====
-- runtime/lang_runtime.c: `mem_bytes_*`, the bytes of a `Buffer` at offsets into a Vec<U8>. Each
-- slot of its list is one byte. A copy of a list onto itself takes the bytes as they were, as
-- memmove does.
pub mod Laws
pub mod Search
mod Tests
use prismio.Base.{
  ℕ, zero, suc, ◌+◌, ◌-◌, ◌%◌, Bool, true, false, not, ◌&&◌, ◌||◌, Option, none, some, List, [],
  ◌∷◌, ◌++◌, ◌==◌, ltb, leb, if◌then◌else◌, length, set, take, drop, replicate,
}
use prismio.Base.Find.{find}
use prismio.Base.Int.{ℤ, pos, negsuc, is_neg, pos_part, neg_part}
use prismio.RtList.State.{
  Slot, pointer, RtList, Trace, Env, bytes_not_bytes, bytes_out_of_range, Run, exits, ok, ◌>>=◌,
  alloc,
}
use prismio.RtList.Grow.{reserve}

-- mem_bytes_at's tests; the offset is at most the length less the count.
abbrev pub outside : RtList → ℤ → ℤ → Bool
outside l offset count =
    is_neg offset || is_neg count || ltb l.len (pos_part offset + pos_part count)

-- mem_bytes_at: the address. Also mem_bytes_address.
unfoldable pub at : RtList → ℤ → ℤ → Run ℕ
at l offset count =
    if not (l.elem_size == 1)
    then exits bytes_not_bytes
    else if outside l offset count
    then exits (bytes_out_of_range offset count l.len)
    else ok [] (l.block + pos_part offset)

-- mem_bytes_data
unfoldable pub data_of : RtList → Run ℕ
unfolding at
data_of l = at l (pos 0) (pos 0)

-- The bytes at an offset.
abbrev pub bytes_of : List Slot → List ℕ
bytes_of [] = []
bytes_of (s ∷ xs) = s.ptr ∷ bytes_of xs

abbrev pub read : RtList → ℕ → ℕ → List ℕ
read l offset count = bytes_of (take count (drop offset l.slots))

-- Bytes stored one after the other.
unfoldable pub write_at : List Slot → ℕ → List ℕ → List Slot
write_at xs i [] = xs
write_at xs i (b ∷ bs) = write_at (set xs i (pointer b)) (suc i) bs

abbrev pub stored : RtList → ℕ → List ℕ → RtList
stored l i bs = record l { slots = write_at l.slots i bs }

-- memset's byte
abbrev pub low_byte : ℤ → ℕ
low_byte (pos n) = n % 256
low_byte (negsuc n) = 255 - n % 256

-- mem_bytes_resize
unfoldable pub resize : Env → RtList → ℤ → Run RtList
unfolding at reserve write_at
resize env l n = at l (pos 0) (pos 0) >>= λ _.
    let r = reserve env l n in
    if ltb l.len (pos_part n)
    then ok r.0 (record (stored r.1 l.len (replicate (pos_part n - l.len) 0)) { len = pos_part n })
    else ok [] (record l { len = pos_part n })

-- mem_bytes_fill
unfoldable pub fill : RtList → ℤ → ℤ → ℤ → Run RtList
unfolding at write_at
fill l byte from count = at l from count >>= λ _.
    ok [] (stored l (pos_part from) (replicate (pos_part count) (low_byte byte)))

-- mem_bytes_copy: `dst` after it.
unfoldable pub copy : RtList → ℤ → RtList → ℤ → ℤ → Run RtList
unfolding at write_at
copy dst dst_off src src_off count = at dst dst_off count >>= λ _. at src src_off count >>= λ _.
    ok [] (stored dst (pos_part dst_off) (read src (pos_part src_off) (pos_part count)))

-- memcmp's answer, of equally many bytes.
abbrev pub same_bytes : List ℕ → List ℕ → Bool
same_bytes [] [] = true
same_bytes (x ∷ xs) (y ∷ ys) = (x == y) && same_bytes xs ys
same_bytes xs ys = false

-- mem_bytes_equal
unfoldable pub equal : RtList → RtList → Run Bool
unfolding at
equal a b =
    if not (a.len == b.len)
    then ok [] false
    else if a.len == 0
    then ok [] true
    else at a (pos 0) (pos a.len) >>= λ _.
        at b (pos 0) (pos b.len) >>= λ _. ok [] (same_bytes (read a 0 a.len) (read b 0 b.len))

-- mem_bytes_index_of. A start below 0 is 0.
unfoldable pub index_of : RtList → ℤ → ℤ → Run ℤ
unfolding at find
index_of l byte from =
    let start = pos_part from in
    if leb l.len start
    then ok [] (negsuc 0)
    else at l (pos 0) (pos l.len) >>= λ _.
        elim (find (low_byte byte) (read l start (l.len - start))) [
          | none ↦ ok [] (negsuc 0)
          | some i ↦ ok [] (pos (start + i))
        ]

-- mem_bytes_write_text: the first `count` bytes at the text's address.
unfoldable pub write_text : RtList → ℤ → List ℕ → ℤ → Run RtList
unfolding at write_at
write_text l offset text count =
    at l offset count >>= λ _. ok [] (stored l (pos_part offset) (take (pos_part count) text))

-- mem_bytes_text: the bytes of the new String, up to the first zero byte. Its
-- memory is there.
abbrev pub up_to_zero : List ℕ → Option ℕ → List ℕ
up_to_zero bs none = bs
up_to_zero bs (some n) = take n bs

unfoldable pub text : Env → RtList → ℤ → ℤ → Run (List ℕ)
unfolding at find
text env l from count = at l from count >>= λ _.
    let bs = read l (pos_part from) (pos_part count) in
    ok (alloc env.fresh ∷ []) (up_to_zero bs (find 0 bs))
