-- ===== src/RtList/Bytes/Laws.antt =====
-- What a Buffer's operations read and write.
use prismio.Base.{
  ℕ, zero, suc, ◌+◌, ◌-◌, ◌<◌, ◌≤◌, ◌≡◌, ◌⊎◌, inl, inr, refl, sym, ap, ap₂, ◌∙◌, true, false,
  Bool-cases, Option, none, List, [], ◌∷◌, arith, ◌==◌, ltb, length, get_or, set, take, drop,
  length-set, length-take, length-drop, get_or-set_self, get_or-set_ne, take_of_le, get_or-take,
  get_or-drop,
}
use prismio.Base.Find.{find}
use prismio.Base.Int.{ℤ, pos, negsuc, is_neg, pos_part}
use prismio.RtList.State.{Slot, pointer, RtList, Env, exits, ok, alloc, bytes_out_of_range}
use prismio.RtList.Script.Elems.{IsValid}
use prismio.RtList.Bytes.{
  outside, at, bytes_of, read, write_at, stored, copy, write_text, text, up_to_zero,
}

-- A byte of the buffer.
abbrev pub byte_at : RtList → ℕ → ℕ
byte_at l i = (get_or l.slots i (pointer 0)).ptr

pub length-write_at : (xs : List Slot) (i : ℕ) (bs : List ℕ) → length (write_at xs i bs) ≡ length xs
unfolding write_at
length-write_at xs i [] = refl
length-write_at xs i (b ∷ bs) =
    length-write_at (set xs i (pointer b)) (suc i) bs ∙ length-set xs i (pointer b)

-- Before what is written nothing changes, and behind it nothing.
write_at-outside :
    (xs : List Slot) (i j : ℕ) (bs : List ℕ)
    → (j < i) ⊎ (i + length bs ≤ j)
    → get_or (write_at xs i bs) j (pointer 0) ≡ get_or xs j (pointer 0)
unfolding write_at
write_at-outside xs i j [] h = refl
write_at-outside xs i j (b ∷ bs) h =
    write_at-outside (set xs i (pointer b)) (suc i) j bs (ground arith)
    ∙ get_or-set_ne xs (pointer b) (pointer 0) (ground arith)

write_at-inside :
    (xs : List Slot) (i k : ℕ) (bs : List ℕ)
    → k < length bs
    → i + length bs ≤ length xs
    → get_or (write_at xs i bs) (i + k) (pointer 0) ≡ pointer (get_or bs k 0)
unfolding write_at
write_at-inside xs i k [] h fits = absurd (omega arith)
write_at-inside xs i zero (b ∷ bs) h fits =
    ap (λ (n : ℕ). get_or (write_at (set xs i (pointer b)) (suc i) bs) n (pointer 0)) (omega arith)
    ∙ write_at-outside (set xs i (pointer b)) (suc i) i bs (inl (omega arith))
    ∙ get_or-set_self xs i (pointer b) (pointer 0) (omega arith)
write_at-inside xs i (suc k) (b ∷ bs) h fits =
    ap (λ (n : ℕ). get_or (write_at (set xs i (pointer b)) (suc i) bs) n (pointer 0)) (omega arith)
    ∙ write_at-inside (set xs i (pointer b)) (suc i) k bs (omega arith)
        (omega (arith, length-set xs i (pointer b)))

length-bytes_of : (xs : List Slot) → length (bytes_of xs) ≡ length xs
length-bytes_of [] = refl
length-bytes_of (x ∷ xs) = ap suc (length-bytes_of xs)

pub length-read : (l : RtList) (o n : ℕ) → o + n ≤ length l.slots → length (read l o n) ≡ n
length-read l o n fits =
    length-bytes_of (take n (drop o l.slots))
    ∙ omega (arith, length-take n (drop o l.slots), length-drop o l.slots)

pub get_or-read :
    (xs : List Slot) (o n k : ℕ)
    → k < n
    → get_or (bytes_of (take n (drop o xs))) k 0 ≡ (get_or xs (o + k) (pointer 0)).ptr
get_or-read xs o n k h =
    ptr_of (take n (drop o xs)) k
    ∙ ap (λ (s : Slot). s.ptr)
        (get_or-take (drop o xs) n k (pointer 0) h ∙ get_or-drop xs o k (pointer 0))
  where
    ptr_of : (ys : List Slot) (i : ℕ) → get_or (bytes_of ys) i 0 ≡ (get_or ys i (pointer 0)).ptr
    ptr_of [] i = refl
    ptr_of (y ∷ ys) zero = refl
    ptr_of (y ∷ ys) (suc i) = ptr_of ys i

-- Lists of bytes that agree at every place.
bytes_ext :
    (xs ys : List ℕ)
    → length xs ≡ length ys
    → ((k : ℕ) → k < length xs → get_or xs k 0 ≡ get_or ys k 0)
    → xs ≡ ys
bytes_ext [] [] e h = refl
bytes_ext [] (y ∷ ys) e h = absurd (omega arith)
bytes_ext (x ∷ xs) [] e h = absurd (omega arith)
bytes_ext (x ∷ xs) (y ∷ ys) e h =
    ap₂ (λ (a : ℕ) (r : List ℕ). a ∷ r) (h 0 (omega arith))
      (bytes_ext xs ys (omega arith) (λ k lt. h (suc k) (omega arith)))

-- What is written is read back.
pub read-stored :
    (l : RtList) (o : ℕ) (bs : List ℕ)
    → o + length bs ≤ length l.slots
    → read (stored l o bs) o (length bs) ≡ bs
read-stored l o bs fits =
    let n = length bs in
    let there : length (read (stored l o bs) o n) ≡ n =
      length-read (stored l o bs) o n (omega (arith, length-write_at l.slots o bs)) in
    bytes_ext (read (stored l o bs) o n) bs there (λ k lt.
      let small : k < n = omega (arith, there) in
      get_or-read (write_at l.slots o bs) o n k small
      ∙ ap (λ (s : Slot). s.ptr) (write_at-inside l.slots o k bs small fits))

-- A valid byte buffer.
pub record IsBuffer (l : RtList) : Type 0 where
  pub valid : IsValid l
  pub bytes : l.elem_size ≡ 1

-- An access whose range lies in the buffer is let through.
pub at-inside :
    (l : RtList) (o n : ℕ) → IsBuffer l → o + n ≤ l.len → at l (pos o) (pos n) ≡ ok [] (l.block + o)
unfolding at
at-inside l o n b fits =
    let one : (l.elem_size == 1) ≡ true = ground (arith, b.bytes) in
    let inside : outside l (pos o) (pos n) ≡ false = ground arith in rw (one, inside) refl

-- On a valid byte list mem_bytes_at lets through exactly the ranges of bytes that lie in the
-- buffer, and answers the address at the offset; anything else stops the program.
pub at_iff :
    (l : RtList) (offset count : ℤ)
    → IsBuffer l
    → ((o : ℕ) × (n : ℕ) × (offset ≡ pos o)
        × (count ≡ pos n)
        × (o + n ≤ l.len)
        × (at l offset count ≡ ok [] (l.block + o)))
      ⊎ ((at l offset count ≡ exits (bytes_out_of_range offset count l.len))
          × ((o n : ℕ) → offset ≡ pos o → count ≡ pos n → l.len < o + n))
unfolding at
at_iff l offset count b = by_sign offset count
  where
    one : (l.elem_size == 1) ≡ true
    one = ground (arith, b.bytes)

    by_sign :
        (offset count : ℤ)
        → ((o : ℕ) × (n : ℕ) × (offset ≡ pos o)
            × (count ≡ pos n)
            × (o + n ≤ l.len)
            × (at l offset count ≡ ok [] (l.block + o)))
          ⊎ ((at l offset count ≡ exits (bytes_out_of_range offset count l.len))
              × ((o n : ℕ) → offset ≡ pos o → count ≡ pos n → l.len < o + n))
    by_sign (pos o) (pos n) = elim (Bool-cases (ltb l.len (o + n))) [
      | inl e ↦ inr (
        rw (one, e) refl,
        λ o' n' eo en.
            let eo' : o ≡ o' = ap pos_part eo in let en' : n ≡ n' = ap pos_part en in ground arith,
      )
      | inr e ↦
          let fits : o + n ≤ l.len = ground arith in
          inl (o, n, refl, refl, fits, at-inside l o n b fits)
    ]
    by_sign (negsuc o) count =
        inr
          (rw one refl, λ o' n' eo en. absurd (let h : true ≡ false = ap is_neg eo in ground arith))
    by_sign (pos o) (negsuc n) =
        inr
          (rw one refl, λ o' n' eo en. absurd (let h : true ≡ false = ap is_neg en in ground arith))

-- A copy whose ranges lie in their valid buffers puts at each place of the target what the source
-- held before the copy, also when the two are one buffer and the ranges overlap, and leaves every
-- other byte.
pub copy-moves :
    (dst src : RtList) (to from n i : ℕ)
    → IsBuffer dst
    → IsBuffer src
    → to + n ≤ dst.len
    → from + n ≤ src.len
    → (l : RtList) × (copy dst (pos to) src (pos from) (pos n) ≡ ok [] l)
      × ((to ≤ i) → (i < to + n) → byte_at l i ≡ byte_at src (from + (i - to)))
      × (((i < to) ⊎ (to + n ≤ i)) → byte_at l i ≡ byte_at dst i)
unfolding copy
copy-moves dst src to from n i bd bs fits_dst fits_src =
    let source = read src from n in
    let fits_src_block : from + n ≤ length src.slots =
      omega (arith, bs.valid.block, bs.valid.len_in) in
    let len : length source ≡ n = length-read src from n fits_src_block in
    (
      stored dst to source,
      rw (at-inside dst to n bd fits_dst, at-inside src from n bs fits_src) refl,
      λ low high.
          let e : to + (i - to) ≡ i = omega arith in
          ap (λ (j : ℕ). (get_or (write_at dst.slots to source) j (pointer 0)).ptr) (sym e)
          ∙ ap (λ (s : Slot). s.ptr)
              (write_at-inside dst.slots to (i - to) source (omega (arith, len))
                (omega (arith, len, bd.valid.block, bd.valid.len_in)))
          ∙ get_or-read src.slots from n (i - to) (omega arith),
      λ h.
          ap (λ (s : Slot). s.ptr)
            (write_at-outside dst.slots to i source
              (elim h [ inl lt ↦ inl lt | inr le ↦ inr (omega (arith, len)) ])),
    )

-- A text without a zero byte that fits into a valid buffer is read back from where it was written.
pub text-write_text :
    (env : Env) (l : RtList) (o : ℕ) (s : List ℕ)
    → IsBuffer l
    → o + length s ≤ l.len
    → find 0 s ≡ none
    → (l' : RtList) × (write_text l (pos o) s (pos (length s)) ≡ ok [] l')
      × (text env l' (pos o) (pos (length s)) ≡ ok (alloc env.fresh ∷ []) s)
unfolding write_text text
text-write_text env l o s b fits no_zero =
    let n = length s in
    let l' = stored l o s in
    let in_block : o + n ≤ length l.slots = omega (arith, b.valid.block, b.valid.len_in) in
    let b' : IsBuffer l' = record {
      valid = record {
        block = length-write_at l.slots o s ∙ b.valid.block;
        len_in = b.valid.len_in;
      };
      bytes = b.bytes;
    } in
    let back : read l' o n ≡ s = read-stored l o s in_block in
    (
      l',
      rw (at-inside l o n b fits)
          (ap (λ (t : List ℕ). ok [] (stored l o t)) (take_of_le s n (omega arith))),
      rw (at-inside l' o n b' fits) (
          ap (λ (t : List ℕ). ok (alloc env.fresh ∷ []) (up_to_zero t (find 0 t))) back
          ∙ ap (λ (f : Option ℕ). ok (alloc env.fresh ∷ []) (up_to_zero s f)) no_zero),
    )
