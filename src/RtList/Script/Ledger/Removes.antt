-- ===== src/RtList/Script/Ledger/Removes.antt =====
-- list_remove_at, list_truncate, list_insert and list_reserve in the ledger.
use mathlib.Core.Path.{subst}
use prismio.Base.{
  ℕ, zero, suc, ◌+◌, ◌-◌, ◌≤◌, ◌<◌, ◌≡◌, refl, ap, Bool, List, [], ◌∷◌, arith, leb, if◌then◌else◌,
  length, get_or, take, drop, take-take, get_or-take,
}
use prismio.Base.Int.{ℤ}
use prismio.RtList.State.{Own, unowned, Slot, pointer, RtList, Env}
use prismio.RtList.Release.{discard_slot}
use prismio.RtList.Grow.{reserve}
use prismio.RtList.Remove.{discard_from, truncate, new_len, remove_in, insert_in}
use prismio.RtList.Script.Elems.{
  CanGrow, elems, length-elems, push-Gives, truncate-Gives, remove_in-Gives, reserve-Gives, without,
  discard_slot-Gives,
}
use prismio.RtList.Script.Insert.{inserted, insert_in-Gives}
use prismio.RtList.Script.Ledger.{
  one_if, releases, retains, tally-append, is_release, is_retain, count, count_slots,
  count_slots-append, count_slots-take-suc, count_slots-take-drop, count_slots-drop_at,
}
use prismio.RtList.Script.Ledger.Calls.{IsOwner, Balanced, discard_slot-balance, push-Balanced}

-- Discarding a slot leaves the list an owner, with the same slots.
discard_slot-IsOwner :
    {l : RtList} (i : ℕ) (now : Bool)
    → IsOwner l
    → let l' = (discard_slot l i now).1 in
      IsOwner l' × (l'.slots ≡ l.slots) × (l'.elem_own ≡ l.elem_own)
discard_slot-IsOwner {l} i now o = let g = discard_slot-Gives i now o.valid in ground arith

-- The loop of a truncation releases or parks each of its slots once.
discard_from-balance :
    (n k e : ℕ) (now : Bool) {l : RtList}
    → IsOwner l
    → 0 < e
    → let (t, l') = discard_from l n k now in
      (releases l.elem_own e t + count e l'.grave + count_slots e (take n l.slots)
        ≡ count e l.grave + count_slots e (take (n + k) l.slots))
      × (retains l.elem_own e t ≡ 0)
unfolding discard_from
discard_from-balance n zero e now {l} o h =
    (omega (arith, ap (λ m. count_slots e (take m l.slots)) same), refl)
  where
    same : n + 0 ≡ n
    same = omega arith
discard_from-balance n (suc k) e now {l} o h =
    let l' = (discard_slot l (n + k) now).1 in
    let t = (discard_slot l (n + k) now).0 in
    let d = discard_slot-balance (n + k) e now o h in
    let io = discard_slot-IsOwner (n + k) now o in
    let same : n + suc k ≡ suc (n + k) = omega arith in
    let rest =
      subst
        (λ own.
          let (t', l'') = discard_from l' n k now in
          (releases own e t' + count e l''.grave + count_slots e (take n l'.slots)
            ≡ count e l'.grave + count_slots e (take (n + k) l'.slots))
          × (retains own e t' ≡ 0))
        io.2 (discard_from-balance n k e now io.0 h) in
    (
      omega (
        arith,
        d.0,
        rest.0,
        tally-append (is_release l.elem_own e) t (discard_from l' n k now).0,
        ap (λ m. count_slots e (take m l.slots)) same,
        ap (λ ss. count_slots e (take n ss)) io.1,
        ap (λ ss. count_slots e (take (n + k) ss)) io.1,
        count_slots-take-suc e l.slots (n + k) h,
      ),
      omega
          (arith, d.1, rest.1, tally-append (is_retain l.elem_own e) t (discard_from l' n k now).0),
    )

front :
    (l : RtList) (n : ℤ)
    → new_len n + (l.len - new_len n) ≡ (if leb l.len (new_len n) then new_len n else l.len)
front l n = ground arith

pub truncate-Balanced :
    {l : RtList} (n : ℤ) (e : ℕ) (now : Bool)
    → IsOwner l
    → 0 < e
    → let (t, l') = truncate l n now in Balanced l.elem_own e l l' t 0
unfolding truncate
truncate-Balanced {l} n e now o h =
    let g = truncate-Gives n now o.valid in
    let size : l.len - (l.len - new_len n) ≤ new_len n = omega arith in
    ground (
      arith,
      discard_from-balance (new_len n) (l.len - new_len n) e now o h,
      ap (count_slots e) g.elems_eq,
      ap (λ m. count_slots e (take m l.slots)) (front l n),
      take-take l.slots (new_len n) l.len,
    )

count_slots-without :
    (e i : ℕ) (xs : List Slot)
    → i < length xs
    → count_slots e (without xs i) + one_if (get_or xs i (pointer 0)).ptr e ≡ count_slots e xs
count_slots-without e i xs h = omega (
  arith,
  count_slots-append e (take i xs) (drop (suc i) xs),
  count_slots-take-drop e xs i,
  count_slots-drop_at e xs i h,
)

count_slots-inserted :
    (e i : ℕ) (s : Slot) (xs : List Slot)
    → count_slots e (inserted xs i s) ≡ count_slots e xs + one_if s.ptr e
count_slots-inserted e i s xs =
    omega (arith, count_slots-append e (take i xs) (s ∷ drop i xs), count_slots-take-drop e xs i)

pub remove_in-Balanced :
    {l : RtList} (i e : ℕ) (now : Bool)
    → IsOwner l
    → 0 < e
    → i < l.len
    → let (t, l') = remove_in l i now in Balanced l.elem_own e l l' t 0
remove_in-Balanced {l} i e now o h hi =
    let g = remove_in-Gives i now o.valid hi in
    let d = discard_slot-balance i e now o h in
    unfold remove_in in
    record {
      released = omega (
        arith,
        d.0,
        ap (count_slots e) g.elems_eq,
        count_slots-without e i (elems l) (omega (arith, length-elems l o.valid)),
        ap (λ (x : Slot). one_if x.ptr e) (get_or-take l.slots l.len i (pointer 0) hi),
      );
      retained = ground (arith, d.1);
    }

pub insert_in-Balanced :
    (env : Env) {l : RtList} (i value e : ℕ)
    → IsOwner l
    → CanGrow env l
    → 0 < e
    → i ≤ l.len
    → let (t, l') = insert_in env l i value in Balanced l.elem_own e l l' t (one_if value e)
insert_in-Balanced env {l} i value e o can h hi =
    let g = insert_in-Gives env i value o.valid can hi in
    let p = push-Balanced env value e o can h in
    unfold insert_in in
    ground (
      arith,
      p,
      ap (count_slots e) g.elems_eq,
      g.grave_eq,
      count_slots-inserted e i (pointer value) (elems l),
      ap (count_slots e) (push-Gives env value o.valid can).elems_eq,
      (push-Gives env value o.valid can).grave_eq,
      count_slots-append e (elems l) (pointer value ∷ []),
    )

reserve-quiet :
    (env : Env) (l : RtList) (n : ℤ) (own : Own) (e : ℕ)
    → (releases own e (reserve env l n).0 ≡ 0) × (retains own e (reserve env l n).0 ≡ 0)
unfolding reserve
reserve-quiet env l n unowned e = ground arith
reserve-quiet env l n own e = ground arith

pub reserve-Balanced :
    (env : Env) {l : RtList} (n : ℤ) (e : ℕ)
    → IsOwner l
    → CanGrow env l
    → let (t, l') = reserve env l n in Balanced l.elem_own e l l' t 0
reserve-Balanced env {l} n e o can =
    let g = reserve-Gives env n o.valid can in
    let q = reserve-quiet env l n l.elem_own e in
    ground (arith, ap (count_slots e) g.elems_eq, g.grave_eq)
