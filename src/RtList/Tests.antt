-- ===== src/RtList/Tests.antt =====
-- The list at concrete states.
use prismio.Base.{ℕ, ◌+◌, ◌≡◌, refl, true, false, not, List, [], ◌∷◌, ◌++◌, arith}
use prismio.Base.Int.{pos, negsuc}
use prismio.RtList.State
use prismio.RtList.State.{
  Own, object, rc, cycle, Slot, pointer, RtList, Env, Run, exits, ok, alloc, realloc, free_elem,
  rc_retain, rc_release, free_block, free_header, index_fail,
}
use prismio.RtList.Release.{release}
use prismio.RtList.Push.{push}
use prismio.RtList.Replace.{set_elem}
use prismio.RtList.Remove.{remove_at}
use prismio.RtList.Slice.{slice_get}
use prismio.RtList.Slice.Laws.{slice_get-push}
use prismio.RtList.Script.{Op, push_op, set_op, remove_op, insert_op, exec, run}
use prismio.RtList.Script.Elems.{IsValid}
use prismio.RtList.Script.Refine.{spec, shape, exec_refines, out_of_range-in_bounds, in_bounds}
use prismio.RtList.Script.Ledger.{releases, retains, held}
use prismio.RtList.Script.Ledger.Calls.{IsOwner}
use prismio.RtList.Script.Ledger.Balance.{
  CanGrowAlong, given_run, run-release-once, run-release-retains,
}

-- The heap, no region open; the next blocks are at 100 and 200.
abbrev heap : Env
heap = record { hint = false; depth = 0; fresh = 100; fresh_block = 200; junk = pointer 0 }

-- A list of two objects, 7 and 8, with room for one more.
abbrev two : Own → RtList
two own = record {
  handle = 10;
  slots = pointer 7 ∷ pointer 8 ∷ pointer 0 ∷ [];
  block = 20;
  len = 2;
  cap = 3;
  elem_own = own;
  releaser = false;
  arena = 0;
  elem_size = 0;
  grave = [];
  grave_cap = 0;
  fused = false;
}

-- Overwrites 7, pushes twice, which grows the block, and removes 8 at once.
abbrev script : List (Env × Op)
script =
    (heap, set_op (pos 0) 9)
    ∷ (heap, push_op 11)
    ∷ (heap, push_op 12)
    ∷ (heap, remove_op (pos 1) true)
    ∷ []

abbrev after : Own → List ℕ → RtList
after own grave = record (two own) {
  slots = pointer 9 ∷ pointer 11 ∷ pointer 12 ∷ pointer 12 ∷ pointer 0 ∷ pointer 0 ∷ [];
  block = 200;
  len = 3;
  cap = 6;
  grave = grave;
  grave_cap = 4;
}

script_runs :
    run script (two object) ≡ ok (realloc 20 200 ∷ free_elem 8 ∷ []) (after object (7 ∷ []))
unfolding run exec set_elem push remove_at
script_runs = refl

script_counts :
    run script (two rc)
    ≡ ok
        (rc_retain 9
          ∷ rc_release 7
          ∷ rc_retain 11
          ∷ rc_retain 12
          ∷ realloc 20 200
          ∷ rc_release 8
          ∷ [])
        (record (after rc []) { grave_cap = 0 })
unfolding run exec set_elem push remove_at
script_counts = refl

teardown :
    release (after object (7 ∷ []))
    ≡ free_elem 12 ∷ free_elem 11 ∷ free_elem 9 ∷ free_elem 7 ∷ free_block 200 ∷ free_header 10 ∷ []
unfolding release
teardown = refl

out_of_range_stops : set_elem (two object) (negsuc 0) 5 ≡ exits (index_fail (negsuc 0) 2)
unfolding set_elem
out_of_range_stops = refl

two-IsValid : (own : Own) → IsValid (two own)
two-IsValid own = record { block = refl; len_in = omega arith }

object-IsOwner : IsOwner (two object)
object-IsOwner = record { valid = two-IsValid object; boxed = refl; on_heap = refl; owning = tt }

rc-IsOwner : IsOwner (two rc)
rc-IsOwner = record { valid = two-IsValid rc; boxed = refl; on_heap = refl; owning = tt }

object-CanGrowAlong : CanGrowAlong script (two object)
unfolding CanGrowAlong exec set_elem push remove_at
object-CanGrowAlong = (
  (omega arith, omega arith),
  ((omega arith, omega arith), ((omega arith, omega arith), ((omega arith, omega arith), tt))),
)

rc-CanGrowAlong : CanGrowAlong script (two rc)
unfolding CanGrowAlong exec set_elem push remove_at
rc-CanGrowAlong = (
  (omega arith, omega arith),
  ((omega arith, omega arith), ((omega arith, omega arith), ((omega arith, omega arith), tt))),
)

exec_refines_example :
    shape (exec heap (insert_op (pos 1) 9) (two object))
    ≡ spec (insert_op (pos 1) 9) (pointer 7 ∷ pointer 8 ∷ [])
exec_refines_example =
    exec_refines heap (insert_op (pos 1) 9) (two-IsValid object) refl (omega arith, omega arith)
      (omega arith)

out_of_range-in_bounds_example : State.out_of_range (negsuc 2) 5 ≡ not (in_bounds (negsuc 2) 5)
out_of_range-in_bounds_example = out_of_range-in_bounds (negsuc 2) 5 (omega arith) (omega arith)

run-release-once_example :
    releases object 7 ((realloc 20 200 ∷ free_elem 8 ∷ []) ++ release (after object (7 ∷ [])))
    ≡ held 7 (two object) + given_run 7 script (two object)
run-release-once_example =
    run-release-once script 7 object-IsOwner object-CanGrowAlong (omega arith) script_runs

run-release-retains_example :
    releases rc 11 (
      (rc_retain 9
        ∷ rc_release 7
        ∷ rc_retain 11
        ∷ rc_retain 12
        ∷ realloc 20 200
        ∷ rc_release 8
        ∷ [])
      ++ release (record (after rc []) { grave_cap = 0 }))
    ≡ held 11 (two rc)
      + retains rc 11 (
          rc_retain 9
          ∷ rc_release 7
          ∷ rc_retain 11
          ∷ rc_retain 12
          ∷ realloc 20 200
          ∷ rc_release 8
          ∷ [])
run-release-retains_example =
    run-release-retains script 11 rc-IsOwner rc-CanGrowAlong (omega arith) refl script_counts

slice_get-push_example :
    slice_get (push heap (two object) 9).1 (pos 1) (pos 1) (pos 0)
    ≡ slice_get (two object) (pos 1) (pos 1) (pos 0)
slice_get-push_example =
    slice_get-push heap (two object) 9 1 1 0 (two-IsValid object) (omega arith, omega arith)
      (omega arith) (omega arith)
