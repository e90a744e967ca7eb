-- ===== src/RtList/Script/Elems.antt =====
-- The elements of a list are a sequence, and each operation does to it what its name says.
use native.Mathlib.Numerals.{add-one}
use prismio.Base.{
  ℕ, zero, suc, ◌+◌, ◌-◌, ◌≤◌, ◌<◌, ◌^◌, ◌≡◌, sym, ap, ap₂, ◌∙◌, Bool, false, List, [], ◌∷◌, ◌++◌,
  append_assoc, arith, length, get_or, set, take, drop, replicate, length-append, length-set,
  length-take, length-drop, length-replicate, take-set_end, take-set, take-append, take-take,
  drop-take, take_of_le, take-append_front, get_or-take,
}
use prismio.Base.Int.{ℤ}
use prismio.RtList.State.{Own, Slot, pointer, RtList, Env}
use prismio.RtList.Release.{discard_slot}
use prismio.RtList.Grow.{grow_if_full, move_to, reserve, reserve_count, next_cap}
use prismio.RtList.Push.{push, append_slot}
use prismio.RtList.Replace.{put_slot, set_at, set_now_at, swap_at}
use prismio.RtList.Remove.{truncate, discard_from, new_len, remove_in, close_gap}

pub record IsValid (l : RtList) : Type 0 where
  pub block : length l.slots ≡ l.cap
  pub len_in : l.len ≤ l.cap

-- There is memory for a block, and twice the capacity is an int.
abbrev pub CanGrow : Env → RtList → Type 0
CanGrow env l = (0 < env.fresh_block) × (l.cap < 2 ^ 30)

abbrev pub elems : RtList → List Slot
elems l = take l.len l.slots

-- What stays as it is in every operation.
pub record SameKind (l l' : RtList) : Type 0 where
  pub own : l'.elem_own ≡ l.elem_own
  pub releaser : l'.releaser ≡ l.releaser
  pub arena : l'.arena ≡ l.arena
  pub elem_size : l'.elem_size ≡ l.elem_size
  pub handle : l'.handle ≡ l.handle

-- An operation that keeps the list valid and leaves these elements and this graveyard.
pub record Gives (l l' : RtList) (xs : List Slot) (grave : List ℕ) : Type 0 where
  pub valid : IsValid l'
  pub same : SameKind l l'
  pub len : l'.len ≡ length xs
  pub elems_eq : elems l' ≡ xs
  pub grave_eq : l'.grave ≡ grave

pub length-elems : (l : RtList) → IsValid l → length (elems l) ≡ l.len
length-elems l v = omega (arith, length-take l.len l.slots, v.block, v.len_in)

-- A move to a block of `n` slots keeps what the list holds.
move_to-Gives :
    (env : Env) {l : RtList} (n : ℕ)
    → IsValid l
    → CanGrow env l
    → l.len ≤ n
    → Gives l (move_to env l n).1 (elems l) l.grave
unfolding move_to
move_to-Gives env {l} n v g room = ground (
  arith,
  length-elems l v,
  length-append (elems l) (replicate (n - length (elems l)) env.junk),
  length-replicate (n - length (elems l)) env.junk,
  take-append (elems l) (replicate (n - length (elems l)) env.junk) l.len,
  take-take l.slots l.len l.len,
)

-- Growth changes neither elements nor length, and makes room.
pub grow_if_full-Gives :
    (env : Env) {l : RtList}
    → IsValid l
    → CanGrow env l
    → let l' = (grow_if_full env l).1 in
      Gives l l' (elems l) l.grave × (l'.len ≡ l.len) × (l.len < l'.cap)
unfolding grow_if_full
grow_if_full-Gives env {l} v g = ground (
  arith,
  length-elems l v,
  length-append l.slots (replicate (next_cap l.cap - length l.slots) env.junk),
  length-replicate (next_cap l.cap - length l.slots) env.junk,
  take-append l.slots (replicate (next_cap l.cap - length l.slots) env.junk) l.len,
  length-append (elems l) (replicate (next_cap l.cap - length (elems l)) env.junk),
  length-replicate (next_cap l.cap - length (elems l)) env.junk,
  take-append (elems l) (replicate (next_cap l.cap - length (elems l)) env.junk) l.len,
  take-take l.slots l.len l.len,
)

-- One more element behind the last, where there is room.
append_slot-Gives :
    {l : RtList} (s : Slot)
    → IsValid l
    → l.len < l.cap
    → l.len + 1 < 2 ^ 32
    → Gives l (append_slot l s) (elems l ++ (s ∷ [])) l.grave
unfolding append_slot
append_slot-Gives {l} s v room small = ground (
  arith,
  length-set l.slots l.len s,
  length-elems l v,
  length-append (elems l) (s ∷ []),
  take-set_end l.slots l.len s,
  add-one l.len,
)

pub push-Gives :
    (env : Env) {l : RtList} (value : ℕ)
    → IsValid l
    → CanGrow env l
    → Gives l (push env l value).1 (elems l ++ (pointer value ∷ [])) l.grave
unfolding push
push-Gives env {l} value v can =
    let g = grow_if_full-Gives env v can in
    let small : (grow_if_full env l).1.len + 1 < 2 ^ 32 = omega (arith, g.1, v.len_in, can.1) in
    ground (arith, append_slot-Gives (pointer value) g.0.valid (omega (arith, g.1, g.2)) small)

put_slot-Gives :
    {l : RtList} (i : ℕ) (s : Slot)
    → IsValid l
    → Gives l (put_slot l i s) (set (elems l) i s) l.grave
put_slot-Gives {l} i s v = ground (
  arith,
  length-set l.slots i s,
  length-elems l v,
  length-set (elems l) i s,
  take-set l.slots l.len i s,
)

pub discard_slot-Gives :
    {l : RtList} (i : ℕ) (now : Bool)
    → IsValid l
    → let l' = (discard_slot l i now).1 in
      Gives l l' (elems l) l'.grave × (l'.slots ≡ l.slots) × (l'.len ≡ l.len) × (l'.cap ≡ l.cap)
unfolding discard_slot
discard_slot-Gives {l} i now v = ground (arith, length-elems l v)

pub set_at-Gives :
    {l : RtList} (i value : ℕ) (own : Own)
    → IsValid l
    → let l' = (set_at l i value own).1 in Gives l l' (set (elems l) i (pointer value)) l'.grave
unfolding set_at
set_at-Gives {l} i value own v = ground (
  arith,
  put_slot-Gives i (pointer value) v,
  discard_slot-Gives i false v,
  put_slot-Gives i (pointer value) (discard_slot-Gives i false v).0.valid,
)

pub set_now_at-Gives :
    {l : RtList} (i value : ℕ)
    → IsValid l
    → let l' = (set_now_at l i value).1 in Gives l l' (set (elems l) i (pointer value)) l'.grave
unfolding set_now_at
set_now_at-Gives {l} i value v =
    ground (arith, set_at-Gives i value l.elem_own v, put_slot-Gives i (pointer value) v)

abbrev pub swapped : List Slot → ℕ → ℕ → List Slot
swapped xs i j = set (set xs i (get_or xs j (pointer 0))) j (get_or xs i (pointer 0))

pub swap_at-Gives :
    {l : RtList} (i j : ℕ)
    → IsValid l
    → i < l.len
    → j < l.len
    → Gives l (swap_at l i j) (swapped (elems l) i j) l.grave
unfolding swap_at
swap_at-Gives {l} i j v hi hj = ground (
  arith,
  get_or-take l.slots l.len i (pointer 0),
  get_or-take l.slots l.len j (pointer 0),
  length-elems l v,
  put_slot-Gives i (get_or l.slots j (pointer 0)) v,
  put_slot-Gives j (get_or l.slots i (pointer 0))
      (put_slot-Gives i (get_or l.slots j (pointer 0)) v).valid,
)

-- The elements that a truncation to `n` discards are looked at, and stay where they are.
discard_from-Gives :
    (n k : ℕ) (now : Bool) {l : RtList}
    → IsValid l
    → let l' = (discard_from l n k now).1 in
      Gives l l' (elems l) l'.grave × (l'.slots ≡ l.slots) × (l'.len ≡ l.len) × (l'.cap ≡ l.cap)
unfolding discard_from
discard_from-Gives n zero now {l} v = ground (arith, length-elems l v)
discard_from-Gives n (suc k) now {l} v =
    let d = discard_slot-Gives (n + k) now v in
    ground (arith, discard_from-Gives n k now d.0.valid, length-elems l v)

pub truncate-Gives :
    {l : RtList} (n : ℤ) (now : Bool)
    → IsValid l
    → let l' = (truncate l n now).1 in Gives l l' (take (new_len n) (elems l)) l'.grave
unfolding truncate
truncate-Gives {l} n now v = ground (
  arith,
  discard_from-Gives (new_len n) (l.len - new_len n) now v,
  take-take l.slots (new_len n) l.len,
  length-take (new_len n) (elems l),
  length-elems l v,
  take_of_le (elems l) (new_len n),
)

-- The elements without the one at `i`.
abbrev pub without : List Slot → ℕ → List Slot
without xs i = take i xs ++ drop (suc i) xs

take-close_gap :
    (slots : List Slot) (i len : ℕ)
    → i < len
    → len ≤ length slots
    → take (len - 1) (close_gap slots i len) ≡ without (take len slots) i
take-close_gap slots i len hi hl =
    ap (take (len - 1)) (sym (append_assoc (take i slots) _ _))
    ∙ take-append_front _ (drop (len - 1) slots) (len - 1) (
        omega (
          arith,
          length-append (take i slots) (take (len - i - 1) (drop (suc i) slots)),
          length-take i slots,
          length-take (len - i - 1) (drop (suc i) slots),
          length-drop (suc i) slots,
        ))
    ∙ ap₂ ◌++◌ (sym (take-take slots i len (omega arith)))
        (ap (λ m. take m (drop (suc i) slots)) (omega arith) ∙ sym (drop-take slots (suc i) len))

length-without : (xs : List Slot) (i : ℕ) → i < length xs → length (without xs i) ≡ length xs - 1
length-without xs i h =
    omega
      (arith, length-append (take i xs) (drop (suc i) xs), length-take i xs, length-drop (suc i) xs)

length-close_gap :
    (slots : List Slot) (i len : ℕ)
    → i < len
    → len ≤ length slots
    → length (close_gap slots i len) ≡ length slots
length-close_gap slots i len hi hl = omega (
  arith,
  length-append (take i slots) (take (len - i - 1) (drop (suc i) slots) ++ drop (len - 1) slots),
  length-append (take (len - i - 1) (drop (suc i) slots)) (drop (len - 1) slots),
  length-take i slots,
  length-take (len - i - 1) (drop (suc i) slots),
  length-drop (suc i) slots,
  length-drop (len - 1) slots,
)

pub remove_in-Gives :
    {l : RtList} (i : ℕ) (now : Bool)
    → IsValid l
    → i < l.len
    → let l' = (remove_in l i now).1 in Gives l l' (without (elems l) i) l'.grave
unfolding remove_in
remove_in-Gives {l} i now v h = ground (
  arith,
  discard_slot-Gives i now v,
  take-close_gap l.slots i l.len,
  length-close_gap l.slots i l.len,
  length-without (elems l) i,
  length-elems l v,
)

pub reserve-Gives :
    (env : Env) {l : RtList} (n : ℤ)
    → IsValid l
    → CanGrow env l
    → Gives l (reserve env l n).1 (elems l) l.grave
unfolding reserve
reserve-Gives env {l} n v g =
    ground (arith, length-elems l v, move_to-Gives env (reserve_count n) v g)
