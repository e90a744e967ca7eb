-- ===== src/RtList/Script/Ledger/Sets.antt =====
-- list_set, list_set_now and list_swap in the ledger.
use prismio.Base.{
  ℕ, ◌+◌, ◌<◌, ◌≡◌, ◌≢◌, refl, ap, false, List, [], arith, if◌then◌else◌, length, get_or, set,
  get_or-take, get_or-set_self, get_or-set_ne, length-set,
}
use prismio.RtList.State.{Own, unowned, Slot, pointer, RtList, ptr_at}
use prismio.RtList.Replace.{set_at, set_now_at, swap_at}
use prismio.RtList.Script.Elems.{
  elems, length-elems, set_at-Gives, set_now_at-Gives, swap_at-Gives, swapped,
}
use prismio.RtList.Script.Ledger.{
  one_if, releases, retains, count, count_slots, count_slots-set, release_element-once,
}
use prismio.RtList.Script.Ledger.Calls.{
  IsOwner, Balanced, is_counted, given_set, discard_slot-balance, release_element-silent,
}

-- A slot of the list that is written over.
count-put :
    {l : RtList} (i e : ℕ) (s : Slot)
    → IsOwner l
    → i < l.len
    → count_slots e (set (elems l) i s) + one_if (ptr_at l i) e
      ≡ count_slots e (elems l) + one_if s.ptr e
count-put {l} i e s o h = omega (
  arith,
  count_slots-set e (elems l) i s (omega (arith, length-elems l o.valid)),
  ap (λ (x : Slot). one_if x.ptr e) (get_or-take l.slots l.len i (pointer 0) h),
)

module _ {l : RtList} (i value e : ℕ) (o : IsOwner l) (he : 0 < e) (h : i < l.len) where
  -- By the mode: the counted ones retain and release, the others park what is displaced.
  set_at-ledger :
      (own : Own)
      → l.elem_own ≡ own
      → let (t, l') = set_at l i value own in
        (releases l.elem_own e t + count e l'.grave + one_if value e
          ≡ count e l.grave + one_if (ptr_at l i) e + given_set l i value e)
        × (retains l.elem_own e t ≡ (if is_counted l.elem_own then given_set l i value e else 0))
  unfolding set_at
  set_at-ledger unowned m = ground arith
  set_at-ledger own m = ground (arith, discard_slot-balance i e false o he)

  pub set_at-Balanced :
      let (t, l') = set_at l i value l.elem_own in
      Balanced l.elem_own e l l' t (given_set l i value e)
  set_at-Balanced =
      let led = set_at-ledger l.elem_own refl in
      let g = set_at-Gives i value l.elem_own o.valid in
      record {
        released =
            omega (arith, led.0, count-put i e (pointer value) o h, ap (count_slots e) g.elems_eq);
        retained = led.1;
      }

  set_now_at-ledger :
      (own : Own)
      → l.elem_own ≡ own
      → let (t, l') = set_now_at l i value in
        (releases l.elem_own e t + count e l'.grave + one_if value e
          ≡ count e l.grave + one_if (ptr_at l i) e + given_set l i value e)
        × (retains l.elem_own e t ≡ (if is_counted l.elem_own then given_set l i value e else 0))
  unfolding set_now_at
  set_now_at-ledger unowned m = ground arith
  set_now_at-ledger own m = ground (
    arith,
    set_at-ledger own m,
    release_element-once l.elem_own l.releaser e (ptr_at l i) o.owning,
    release_element-silent l.elem_own l.releaser e (ptr_at l i),
  )

  pub set_now_at-Balanced :
      let (t, l') = set_now_at l i value in Balanced l.elem_own e l l' t (given_set l i value e)
  set_now_at-Balanced =
      let led = set_now_at-ledger l.elem_own refl in
      let g = set_now_at-Gives i value o.valid in
      record {
        released =
            omega (arith, led.0, count-put i e (pointer value) o h, ap (count_slots e) g.elems_eq);
        retained = led.1;
      }

count_slots-swapped :
    (e i j : ℕ) (xs : List Slot)
    → i < length xs
    → j < length xs
    → count_slots e (swapped xs i j) ≡ count_slots e xs
count_slots-swapped e i j xs hi hj =
    let a = get_or xs i (pointer 0) in
    let b = get_or xs j (pointer 0) in
    ground (
      arith,
      count_slots-set e xs i b hi,
      count_slots-set e (set xs i b) j a,
      length-set xs i b,
      get_or-set_self xs i b (pointer 0) hi,
      λ (ne : i ≢ j). get_or-set_ne xs b (pointer 0) ne,
    )

pub swap_at-Balanced :
    {l : RtList} (i j e : ℕ)
    → IsOwner l
    → i < l.len
    → j < l.len
    → Balanced l.elem_own e l (swap_at l i j) [] 0
swap_at-Balanced {l} i j e o hi hj =
    let g = swap_at-Gives i j o.valid hi hj in
    ground (
      arith,
      length-elems l o.valid,
      count_slots-swapped e i j (elems l),
      ap (count_slots e) g.elems_eq,
      g.grave_eq,
    )
