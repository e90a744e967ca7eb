-- ===== src/RtList/Slice/Laws.antt =====
-- What a slice shows: a part of the list's elements, whatever happens to the block.
use prismio.Base.{
  ℕ, ◌+◌, ◌-◌, ◌≤◌, ◌<◌, ◌≡◌, ◌↔◌, refl, sym, ap, ◌∙◌, true, List, [], ◌∷◌, arith, get_or, take,
  drop, get_or-take, get_or-drop, get_or-append, length-append,
}
use prismio.Base.Int.{ℤ, pos, negsuc}
use prismio.RtList.State.{Slot, pointer, RtList, Env, ok}
use prismio.RtList.Push.{push}
use prismio.RtList.Script.Elems.{IsValid, CanGrow, elems, push-Gives, length-elems}
use prismio.RtList.Slice.{slice_ok, slice_get}

-- prismio_slice_check lets through exactly the ranges that lie in the collection.
pub slice_ok_iff :
    (available start end : ℤ)
    → (slice_ok available start end ≡ true) ↔ (
        (a : ℕ) × (s : ℕ) × (n : ℕ) × (available ≡ pos a)
        × (start ≡ pos s)
        × (end ≡ pos (s + n))
        × (s + n ≤ a))
unfolding slice_ok
slice_ok_iff available start end = (there available start end, back available start end)
  where
    there :
        (available start end : ℤ)
        → slice_ok available start end ≡ true
        → (a : ℕ) × (s : ℕ) × (n : ℕ) × (available ≡ pos a)
          × (start ≡ pos s)
          × (end ≡ pos (s + n))
          × (s + n ≤ a)
    there (pos a) (pos s) (pos e) h = (a, s, e - s, refl, refl, ap pos (ground arith), ground arith)
    there (negsuc a) s e h = absurd (ground arith)
    there (pos a) (negsuc s) e h = absurd (ground arith)
    there (pos a) (pos s) (negsuc e) h = absurd (ground arith)

    back :
        (available start end : ℤ)
        → (a : ℕ) × (s : ℕ) × (n : ℕ) × (available ≡ pos a)
          × (start ≡ pos s)
          × (end ≡ pos (s + n))
          × (s + n ≤ a)
        → slice_ok available start end ≡ true
    back available start end (a, s, n, ea, es, ee, h) = rw (ea, es, ee) (ground arith)

-- The part of a list that a slice shows.
abbrev pub view : RtList → ℕ → ℕ → List Slot
view l o n = take n (drop o (elems l))

get_or-view :
    (l : RtList) (o n i : ℕ)
    → o + n ≤ l.len
    → i < n
    → get_or (view l o n) i (pointer 0) ≡ get_or l.slots (o + i) (pointer 0)
get_or-view l o n i fits h =
    get_or-take (drop o (elems l)) n i (pointer 0) h
    ∙ get_or-drop (elems l) o i (pointer 0)
    ∙ get_or-take l.slots l.len (o + i) (pointer 0) (omega arith)

-- Through a slice whose range lies in the list, an index in the view reads that element of the view.
pub slice_get-view :
    (l : RtList) (o n i : ℕ)
    → o + n ≤ l.len
    → i < n
    → slice_get l (pos o) (pos n) (pos i) ≡ ok [] (get_or (view l o n) i (pointer 0)).ptr
unfolding slice_get
slice_get-view l o n i fits h = ground (arith, get_or-view l o n i)

-- A slice survives growth: a push, whether or not the block moves, changes nothing that a slice
-- whose range lies in the valid list reads. There is memory for a larger block, and the capacity is
-- below 2^30.
pub slice_get-push :
    (env : Env) (l : RtList) (value o n i : ℕ)
    → IsValid l
    → CanGrow env l
    → o + n ≤ l.len
    → i < n
    → slice_get (push env l value).1 (pos o) (pos n) (pos i) ≡ slice_get l (pos o) (pos n) (pos i)
slice_get-push env l value o n i v can fits h =
    let l' = (push env l value).1 in
    let g = push-Gives env value v can in
    let longer : o + n ≤ l'.len =
      omega (arith, g.len, length-append (elems l) (pointer value ∷ []), length-elems l v) in
    let same : get_or (view l' o n) i (pointer 0) ≡ get_or (view l o n) i (pointer 0) =
      get_or-take (drop o (elems l')) n i (pointer 0) h
      ∙ get_or-drop (elems l') o i (pointer 0)
      ∙ ap (λ (xs : List Slot). get_or xs (o + i) (pointer 0)) g.elems_eq
      ∙ get_or-append (elems l) (pointer value ∷ []) (o + i) (pointer 0)
          (omega (arith, length-elems l v))
      ∙ sym (get_or-drop (elems l) o i (pointer 0))
      ∙ sym (get_or-take (drop o (elems l)) n i (pointer 0) h) in
    slice_get-view l' o n i longer h
    ∙ ap (λ (s : Slot). ok [] s.ptr) same
    ∙ sym (slice_get-view l o n i fits h)
