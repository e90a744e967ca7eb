-- ===== src/RtList/Script/Ledger/Calls.antt =====
-- Each call on a boxed heap list that owns its elements keeps the ledger: what it releases and what
-- the list holds afterwards are what the list held and what the call was given.
use prismio.Base.{
  ℕ, ◌+◌, ◌<◌, ◌≡◌, refl, ap, Bool, true, false, [], ◌∷◌, arith, ◌==◌, if◌then◌else◌,
}
use prismio.RtList.State.{
  Own, unowned, rc, typed, cycle, rc_atomic, cycle_atomic, pointer, RtList, Env, Trace, ptr_at,
}
use prismio.RtList.Release.{release_element, discard_slot, owned_at}
use prismio.RtList.Grow.{grow_if_full}
use prismio.RtList.Push.{push, retain_element}
use prismio.RtList.Script.Elems.{IsValid, CanGrow, elems, push-Gives}
use prismio.RtList.Script.Ledger.{
  one_if, releases, retains, tally-append, is_release, is_retain, count, count_slots, held,
  IsOwning, count-append, count_slots-append, release_element-once,
}

-- A valid boxed list on the heap whose elements are its own.
pub record IsOwner (l : RtList) : Type 0 where
  pub valid : IsValid l
  pub boxed : l.elem_size ≡ 0
  pub on_heap : l.arena ≡ 0
  pub owning : IsOwning l.elem_own l.releaser

-- The modes that keep a reference count, less the two of the cycle collector.
abbrev pub is_counted : Own → Bool
is_counted rc = true
is_counted rc_atomic = true
is_counted _ = false

-- A call with this trace from `l` to `l'` was given `e` so often.
pub record Balanced (own : Own) (e : ℕ) (l l' : RtList) (t : Trace) (given : ℕ) : Type 0 where
  pub released : releases own e t + held e l' ≡ held e l + given
  pub retained : retains own e t ≡ (if is_counted own then given else 0)

-- What list_set and list_set_now are given: an uncounted list takes nothing when the element is
-- already in the slot.
abbrev pub given_set : RtList → ℕ → ℕ → ℕ → ℕ
given_set l i value e =
    if is_counted l.elem_own
    then one_if value e
    else if ptr_at l i == value
    then 0
    else one_if value e

grow_if_full-quiet :
    (env : Env) (l : RtList) (own : Own) (e : ℕ)
    → (releases own e (grow_if_full env l).0 ≡ 0) × (retains own e (grow_if_full env l).0 ≡ 0)
unfolding grow_if_full
grow_if_full-quiet env l unowned e = ground arith
grow_if_full-quiet env l own e = ground arith

-- The retain of a push is what the counted list is given.
retain_element-given :
    (own : Own) (releaser : Bool) (value e : ℕ)
    → (releases own e (retain_element own value) ≡ 0)
      × (IsOwning own releaser
          → retains own e (retain_element own value)
            ≡ (if is_counted own then one_if value e else 0))
unfolding retain_element
retain_element-given unowned releaser value e = (refl, λ h. absurd h)
retain_element-given cycle releaser value e = (refl, λ h. absurd h)
retain_element-given cycle_atomic releaser value e = (refl, λ h. absurd h)
retain_element-given own releaser value e = ground arith

pub release_element-silent :
    (own : Own) (releaser : Bool) (e x : ℕ) → retains own e (release_element own releaser x) ≡ 0
unfolding release_element
release_element-silent unowned releaser e x = refl
release_element-silent typed true e x = refl
release_element-silent typed false e x = refl
release_element-silent own releaser e x = refl

-- A boxed list that owns has its pointer to let go in each slot.
owned_at-ptr_at : {l : RtList} (i : ℕ) → IsOwner l → owned_at l i ≡ ptr_at l i
unfolding owned_at
owned_at-ptr_at {l} i o = owned l.elem_own o.owning refl
  where
    owned : (own : Own) → IsOwning own l.releaser → l.elem_own ≡ own → owned_at l i ≡ ptr_at l i
    owned unowned h e = absurd h
    owned cycle_atomic h e = absurd h
    owned own h e = ground arith

-- What list_discard_slot takes out of the ledger's slots it releases or parks.
pub discard_slot-balance :
    {l : RtList} (i e : ℕ) (now : Bool)
    → IsOwner l
    → 0 < e
    → let (t, l') = discard_slot l i now in
      (releases l.elem_own e t + count e l'.grave ≡ count e l.grave + one_if (ptr_at l i) e)
      × (retains l.elem_own e t ≡ 0)
unfolding discard_slot
discard_slot-balance {l} i e now o h = ground (
  arith,
  owned_at-ptr_at i o,
  release_element-once l.elem_own l.releaser e (owned_at l i) o.owning,
  release_element-silent l.elem_own l.releaser e (owned_at l i),
  count-append e l.grave (owned_at l i ∷ []),
)

pub push-Balanced :
    (env : Env) {l : RtList} (value e : ℕ)
    → IsOwner l
    → CanGrow env l
    → 0 < e
    → Balanced l.elem_own e l (push env l value).1 (push env l value).0 (one_if value e)
unfolding push
push-Balanced env {l} value e o can h =
    let r = retain_element-given l.elem_own l.releaser value e in
    let q = grow_if_full-quiet env l l.elem_own e in
    let p = push-Gives env value o.valid can in
    ground (
      arith,
      r.1 o.owning,
      tally-append (is_release l.elem_own e) (retain_element l.elem_own value)
          (grow_if_full env l).0,
      tally-append (is_retain l.elem_own e) (retain_element l.elem_own value)
          (grow_if_full env l).0,
      count_slots-append e (elems l) (pointer value ∷ []),
      ap (count_slots e) p.elems_eq,
    )
