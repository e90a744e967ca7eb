-- ===== src/RtList/Script/Insert.antt =====
-- Insertion: the push of the element, and its move to the index.
use prismio.Base.{
  ℕ, suc, ◌-◌, ◌≤◌, ◌<◌, ◌≡◌, refl, sym, ap, ap₂, ◌∙◌, List, [], ◌∷◌, ◌++◌, append_assoc, arith,
  length, get_or, take, drop, length-append, length-take, length-drop, take-take, drop-take,
  take-append, take-append_front, get_or-take,
}
use prismio.RtList.State.{Slot, pointer, RtList, Env}
use prismio.RtList.Remove.{open_gap, move_last, insert_in}
use prismio.RtList.Script.Elems.{IsValid, CanGrow, elems, Gives, length-elems, push-Gives}

-- The sequence with one more element before index `i`.
abbrev pub inserted : List Slot → ℕ → Slot → List Slot
inserted xs i s = take i xs ++ (s ∷ drop i xs)

get_or-append_end : (xs : List Slot) (s d : Slot) → get_or (xs ++ (s ∷ [])) (length xs) d ≡ s
get_or-append_end [] s d = refl
get_or-append_end (x ∷ xs) s d = get_or-append_end xs s d

length-inserted : (xs : List Slot) (i : ℕ) (s : Slot) → length (inserted xs i s) ≡ suc (length xs)
length-inserted xs i s =
    omega (arith, length-append (take i xs) (s ∷ drop i xs), length-take i xs, length-drop i xs)

inserted-end : (xs : List Slot) (s : Slot) → inserted xs (length xs) s ≡ xs ++ (s ∷ [])
inserted-end [] s = refl
inserted-end (x ∷ xs) s = ap (◌∷◌ x) (inserted-end xs s)

-- With `xs` and then `s` at the front of the block, the two copies put `s` at index `i`.
module _ (slots xs : List Slot) (s : Slot) (i len : ℕ) (hl : len ≡ suc (length xs))
    (hi : i < length xs) (e : take len slots ≡ xs ++ (s ∷ [])) where
  in_block : len ≤ length slots
  in_block = omega (arith, ap length e, length-take len slots, length-append xs (s ∷ []))

  front : take i slots ≡ take i xs
  front =
      sym (take-take slots i len (omega arith))
      ∙ ap (take i) e
      ∙ take-append xs (s ∷ []) i (omega arith)

  last : get_or slots (len - 1) (pointer 0) ≡ s
  last =
      sym (get_or-take slots len (len - 1) (pointer 0) (omega arith))
      ∙ ap₂ (λ ys k. get_or ys k (pointer 0)) e (omega arith)
      ∙ get_or-append_end xs s (pointer 0)

  back : take (len - 1 - i) (drop i slots) ≡ drop i xs
  back =
      sym (drop-take slots i (len - 1))
      ∙ ap (drop i) (
          sym (take-take slots (len - 1) len (omega arith))
          ∙ ap (take (len - 1)) e
          ∙ take-append_front xs (s ∷ []) (len - 1) (omega arith))

  take-open_gap : take len (open_gap slots i len) ≡ inserted xs i s
  take-open_gap =
      ap (take len) (
        sym (
          append_assoc (take i slots)
            (get_or slots (len - 1) (pointer 0) ∷ take (len - 1 - i) (drop i slots))
            (drop len slots)))
      ∙ take-append_front _ (drop len slots) len (
          omega (
            arith,
            in_block,
            length-append (take i slots)
                (get_or slots (len - 1) (pointer 0) ∷ take (len - 1 - i) (drop i slots)),
            length-take i slots,
            length-take (len - 1 - i) (drop i slots),
            length-drop i slots,
          ))
      ∙ ap₂ ◌++◌ front (ap₂ ◌∷◌ last back)

  length-open_gap : length (open_gap slots i len) ≡ length slots
  length-open_gap = omega (
    arith,
    in_block,
    length-append (take i slots) (
        get_or slots (len - 1) (pointer 0) ∷ (take (len - 1 - i) (drop i slots) ++ drop len slots)),
    length-append (take (len - 1 - i) (drop i slots)) (drop len slots),
    length-take i slots,
    length-take (len - 1 - i) (drop i slots),
    length-drop i slots,
    length-drop len slots,
  )

move_last-Gives :
    {l : RtList} (xs : List Slot) (s : Slot) (i : ℕ)
    → IsValid l
    → l.len ≡ suc (length xs)
    → i ≤ length xs
    → elems l ≡ xs ++ (s ∷ [])
    → Gives l (move_last l i) (inserted xs i s) l.grave
unfolding move_last
move_last-Gives {l} xs s i v hl hi e = ground (
  arith,
  take-open_gap l.slots xs s i l.len hl,
  length-open_gap l.slots xs s i l.len hl,
  length-inserted xs i s,
  inserted-end xs s,
)

-- list_insert at an index in range puts the element there and moves the rest up.
pub insert_in-Gives :
    (env : Env) {l : RtList} (i value : ℕ)
    → IsValid l
    → CanGrow env l
    → i ≤ l.len
    → Gives l (insert_in env l i value).1 (inserted (elems l) i (pointer value)) l.grave
unfolding insert_in
insert_in-Gives env {l} i value v g h =
    let p = push-Gives env value v g in
    ground (
      arith,
      length-elems l v,
      length-append (elems l) (pointer value ∷ []),
      move_last-Gives (elems l) (pointer value) i p.valid,
    )
