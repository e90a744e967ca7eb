-- ===== src/RtList/Bytes/Tests.antt =====
-- A buffer at concrete states.
use prismio.Base.{ℕ, ◌+◌, ◌-◌, ◌<◌, ◌≤◌, ◌≡◌, ◌≢◌, ◌⊎◌, refl, true, false, none, [], ◌∷◌, arith}
use prismio.Base.Find.{find}
use prismio.Base.Int.{pos, negsuc, pos_part}
use prismio.RtList.State.{
  pointer, RtList, Env, unowned, exits, ok, alloc, bytes_out_of_range, bytes_not_bytes,
}
use prismio.RtList.Bytes.{at, copy, equal, fill, index_of, low_byte, resize, text, write_text}
use prismio.RtList.Bytes.Laws.{IsBuffer, byte_at, at_iff, copy-moves, text-write_text}
use prismio.RtList.Bytes.Search.{index_of-first}

abbrev heap : Env
heap = record { hint = false; depth = 0; fresh = 100; fresh_block = 200; junk = pointer 170 }

abbrev buffer : RtList
buffer = record {
  handle = 10;
  slots = pointer 1 ∷ pointer 2 ∷ pointer 3 ∷ pointer 4 ∷ pointer 170 ∷ [];
  block = 20;
  len = 4;
  cap = 5;
  elem_own = unowned;
  releaser = false;
  arena = 0;
  elem_size = 1;
  grave = [];
  grave_cap = 0;
  fused = false;
}

buffer-IsBuffer : IsBuffer buffer
buffer-IsBuffer = record { valid = record { block = refl; len_in = omega arith }; bytes = refl }

-- An overlapping copy forwards, as memmove does it.
overlap :
    copy buffer (pos 1) buffer (pos 0) (pos 3)
    ≡ ok []
        (record buffer { slots = pointer 1 ∷ pointer 1 ∷ pointer 2 ∷ pointer 3 ∷ pointer 170 ∷ [] })
unfolding copy
overlap = refl

zero_fill :
    resize heap buffer (pos 5)
    ≡ ok [] (record buffer {
      slots = pointer 1 ∷ pointer 2 ∷ pointer 3 ∷ pointer 4 ∷ pointer 0 ∷ [];
      len = 5;
    })
unfolding resize
zero_fill = refl

minus_one_fills_255 :
    fill buffer (negsuc 0) (pos 2) (pos 2)
    ≡ ok [] (record buffer {
      slots = pointer 1 ∷ pointer 2 ∷ pointer 255 ∷ pointer 255 ∷ pointer 170 ∷ [];
    })
unfolding fill
minus_one_fills_255 = refl

itself_equal : equal buffer buffer ≡ ok [] true
unfolding equal
itself_equal = refl

boxed_bytes : at (record buffer { elem_size = 0 }) (pos 0) (pos 0) ≡ exits bytes_not_bytes
unfolding at
boxed_bytes = refl

at_iff_example :
    ((o : ℕ) × (n : ℕ) × (pos 3 ≡ pos o)
      × (pos 2 ≡ pos n)
      × (o + n ≤ 4)
      × (at buffer (pos 3) (pos 2) ≡ ok [] (20 + o)))
    ⊎ ((at buffer (pos 3) (pos 2) ≡ exits (bytes_out_of_range (pos 3) (pos 2) 4))
        × ((o n : ℕ) → pos 3 ≡ pos o → pos 2 ≡ pos n → 4 < o + n))
at_iff_example = at_iff buffer (pos 3) (pos 2) buffer-IsBuffer

copy-moves_example :
    (l : RtList) × (copy buffer (pos 1) buffer (pos 0) (pos 3) ≡ ok [] l)
    × ((1 ≤ 2) → (2 < 1 + 3) → byte_at l 2 ≡ byte_at buffer (0 + (2 - 1)))
    × (((2 < 1) ⊎ (1 + 3 ≤ 2)) → byte_at l 2 ≡ byte_at buffer 2)
copy-moves_example =
    copy-moves buffer buffer 1 0 3 2 buffer-IsBuffer buffer-IsBuffer (omega arith) (omega arith)

no_zero : find 0 (104 ∷ 105 ∷ []) ≡ none
unfolding find
no_zero = refl

text-write_text_example :
    (l : RtList) × (write_text buffer (pos 1) (104 ∷ 105 ∷ []) (pos 2) ≡ ok [] l)
    × (text heap l (pos 1) (pos 2) ≡ ok (alloc 100 ∷ []) (104 ∷ 105 ∷ []))
text-write_text_example =
    text-write_text heap buffer 1 (104 ∷ 105 ∷ []) buffer-IsBuffer (omega arith) no_zero

index_of-first_example :
    ((i : ℕ) × (index_of buffer (pos 3) (negsuc 6) ≡ ok [] (pos i))
      × (pos_part (negsuc 6) ≤ i)
      × (i < 4)
      × (byte_at buffer i ≡ low_byte (pos 3))
      × ((j : ℕ) → pos_part (negsuc 6) ≤ j → j < i → byte_at buffer j ≢ low_byte (pos 3)))
    ⊎ ((index_of buffer (pos 3) (negsuc 6) ≡ ok [] (negsuc 0))
        × ((j : ℕ) → pos_part (negsuc 6) ≤ j → j < 4 → byte_at buffer j ≢ low_byte (pos 3)))
index_of-first_example = index_of-first buffer (pos 3) (negsuc 6) buffer-IsBuffer
