-- ===== src/RtList/Script/Ledger.antt =====
-- What becomes of the elements that a list owns: the counts of a trace and of a list.
pub mod Calls
pub mod Sets
pub mod Removes
pub mod Balance
pub use prismio.Base.Count.{one_if, count, count-append}
use prismio.Base.{
  ℕ, zero, suc, ◌+◌, ◌-◌, ◌≤◌, ◌<◌, ◌≡◌, ◌≢◌, refl, sym, ap, ◌∙◌, Bool, true, false, List, [], ◌∷◌,
  ◌++◌, arith, ◌==◌, if◌then◌else◌, length, get_or, set, take, drop, take-append-drop,
}
use prismio.RtList.State.{
  Own, unowned, object, list, rc, typed, cycle, rc_atomic, cycle_atomic, string, Slot, pointer,
  RtList, Event, free_elem, list_release, elem_release, rc_retain, rc_release, rc_retain_atomic,
  rc_release_atomic, cyc_retain, cyc_release, Trace,
}
use prismio.RtList.Release.{release_element}
use prismio.RtList.Push.{retain_element}
use prismio.RtList.Script.Elems.{elems}

-- The event by which a list of this mode lets go of `e`.
abbrev pub is_release : Own → ℕ → Event → ℕ
is_release list e ev = elim ev [ list_release x ↦ one_if x e | _ ↦ 0 ]
is_release typed e ev = elim ev [ elem_release x ↦ one_if x e | _ ↦ 0 ]
is_release rc e ev = elim ev [ rc_release x ↦ one_if x e | _ ↦ 0 ]
is_release rc_atomic e ev = elim ev [ rc_release_atomic x ↦ one_if x e | _ ↦ 0 ]
is_release cycle e ev = elim ev [ cyc_release x ↦ one_if x e | _ ↦ 0 ]
is_release cycle_atomic e ev = elim ev [ cyc_release x ↦ one_if x e | _ ↦ 0 ]
is_release own e ev = elim ev [ free_elem x ↦ one_if x e | _ ↦ 0 ]

-- The event by which a list of a counted mode takes a reference to `e`.
abbrev pub is_retain : Own → ℕ → Event → ℕ
is_retain rc e ev = elim ev [ rc_retain x ↦ one_if x e | _ ↦ 0 ]
is_retain rc_atomic e ev = elim ev [ rc_retain_atomic x ↦ one_if x e | _ ↦ 0 ]
is_retain cycle e ev = elim ev [ cyc_retain x ↦ one_if x e | _ ↦ 0 ]
is_retain cycle_atomic e ev = elim ev [ cyc_retain x ↦ one_if x e | _ ↦ 0 ]
is_retain own e ev = 0

abbrev pub tally : (Event → ℕ) → Trace → ℕ
tally weight [] = 0
tally weight (ev ∷ t) = weight ev + tally weight t

-- How often a trace releases, and retains, the element `e`.
abbrev pub releases : Own → ℕ → Trace → ℕ
releases own e t = tally (is_release own e) t

abbrev pub retains : Own → ℕ → Trace → ℕ
retains own e t = tally (is_retain own e) t

pub tally-append :
    (weight : Event → ℕ) (s t : Trace) → tally weight (s ++ t) ≡ tally weight s + tally weight t
tally-append weight [] t = omega arith
tally-append weight (ev ∷ s) t = omega (arith, tally-append weight s t)

-- How often `e` is among slots.
abbrev pub count_slots : ℕ → List Slot → ℕ
count_slots e [] = 0
count_slots e (s ∷ xs) = one_if s.ptr e + count_slots e xs

-- How often a list holds `e`: in its slots, or parked.
abbrev pub held : ℕ → RtList → ℕ
held e l = count_slots e (elems l) + count e l.grave

-- A mode under which elements are the list's to release, and not the cycle collector's: the two
-- modes of the collector are left out, since list_set does not keep its buffer of roots in step.
abbrev pub IsOwning : Own → Bool → Type 0
IsOwning unowned releaser = ⊥
IsOwning cycle releaser = ⊥
IsOwning cycle_atomic releaser = ⊥
IsOwning typed releaser = releaser ≡ true
IsOwning own releaser = Unit {0}

pub count_slots-append :
    (e : ℕ) (xs ys : List Slot) → count_slots e (xs ++ ys) ≡ count_slots e xs + count_slots e ys
count_slots-append e [] ys = omega arith
count_slots-append e (x ∷ xs) ys = omega (arith, count_slots-append e xs ys)

pub count_slots-set :
    (e : ℕ) (xs : List Slot) (i : ℕ) (s : Slot)
    → i < length xs
    → count_slots e (set xs i s) + one_if (get_or xs i (pointer 0)).ptr e
      ≡ count_slots e xs + one_if s.ptr e
count_slots-set e [] i s h = absurd (omega arith)
count_slots-set e (x ∷ xs) zero s h = omega arith
count_slots-set e (x ∷ xs) (suc i) s h = omega (arith, count_slots-set e xs i s (omega arith))

-- One slot more. Behind the block there is only the null pointer.
pub count_slots-take-suc :
    (e : ℕ) (xs : List Slot) (n : ℕ)
    → 0 < e
    → count_slots e (take (suc n) xs)
      ≡ count_slots e (take n xs) + one_if (get_or xs n (pointer 0)).ptr e
count_slots-take-suc e [] zero h = ground arith
count_slots-take-suc e [] (suc n) h = ground arith
count_slots-take-suc e (x ∷ xs) zero h = omega arith
count_slots-take-suc e (x ∷ xs) (suc n) h = omega (arith, count_slots-take-suc e xs n h)

pub count_slots-take-drop :
    (e : ℕ) (xs : List Slot) (n : ℕ)
    → count_slots e (take n xs) + count_slots e (drop n xs) ≡ count_slots e xs
count_slots-take-drop e xs n =
    sym (count_slots-append e (take n xs) (drop n xs)) ∙ ap (count_slots e) (take-append-drop n xs)

pub count_slots-drop_at :
    (e : ℕ) (xs : List Slot) (i : ℕ)
    → i < length xs
    → count_slots e (drop i xs)
      ≡ one_if (get_or xs i (pointer 0)).ptr e + count_slots e (drop (suc i) xs)
count_slots-drop_at e [] i h = absurd (omega arith)
count_slots-drop_at e (x ∷ xs) zero h = refl
count_slots-drop_at e (x ∷ xs) (suc i) h = count_slots-drop_at e xs i (omega arith)

-- list_release_element is one release, under a mode that owns.
pub release_element-once :
    (own : Own) (releaser : Bool) (e x : ℕ)
    → IsOwning own releaser
    → releases own e (release_element own releaser x) ≡ one_if x e
unfolding release_element
release_element-once object releaser e x h = omega arith
release_element-once list releaser e x h = omega arith
release_element-once rc releaser e x h = omega arith
release_element-once typed releaser e x h = rw h (omega arith)
release_element-once rc_atomic releaser e x h = omega arith
release_element-once string releaser e x h = omega arith
release_element-once unowned releaser e x h = absurd h
release_element-once cycle releaser e x h = absurd h
release_element-once cycle_atomic releaser e x h = absurd h
