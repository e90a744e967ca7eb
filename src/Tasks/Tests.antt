-- ===== src/Tasks/Tests.antt =====
-- Tasks at concrete states.
use prismio.Base.{ℕ, ◌+◌, ◌<◌, ◌≤◌, ◌≡◌, ◌↔◌, refl, false, some, List, [], ◌∷◌}
use prismio.Base.Count.{count}
use prismio.Base.Int.{pos}
use prismio.Tasks.{
  int_result, ptr_result, Task, Answers, World, Scope, Pass, waits, done, new_scope, spawn, make,
  scope_spawn, scope_end, entry, join, on_task,
}
use prismio.Tasks.Steps.{System, initial, spawns, Reach, here, next}
use prismio.Tasks.Safety.{called-once, freed-once}

-- Every function answers its number and the first of its arguments.
abbrev answers : Answers
answers fn args = elim args [ [] ↦ fn | a ∷ _ ↦ fn + a ]

abbrev world : World
world = initial.world

abbrev scoped : Scope × World
scoped =
    let a = scope_spawn new_scope world 10 int_result (pos 1) (5 ∷ []) in
    let b = scope_spawn a.1 a.2 20 ptr_result (pos 0) (5 ∷ []) in (b.1, b.2)

abbrev run_of : ℕ → World → World
run_of h w = on_task w h w (entry answers w h)

scope_waits : scope_end answers scoped.1 scoped.0 ≡ waits
unfolding scope_end scope_spawn
scope_waits = refl

abbrev calls_of : Pass World → List ℕ
calls_of waits = []
calls_of (done w) = w.calls

scope_ends : calls_of (scope_end answers (run_of 0 (run_of 1 scoped.1)) scoped.0) ≡ 0 ∷ 1 ∷ []
unfolding scope_end scope_spawn entry
scope_ends = refl

abbrev value_of : Pass (ℕ × World) → ℕ
value_of waits = 999
value_of (done r) = r.0

future_runs_in_join :
    value_of (join answers int_result (make world 10 int_result (pos 1) (5 ∷ [])).1 0) ≡ 15
unfolding join make
future_runs_in_join = refl

spawned_waits :
    value_of (join answers int_result (spawn world 10 int_result (pos 1) (5 ∷ [])).1 0) ≡ 999
unfolding join spawn
spawned_waits = refl

spawned_answers :
    value_of (join answers int_result (run_of 0 (spawn world 10 int_result (pos 1) (5 ∷ [])).1) 0)
    ≡ 15
unfolding join spawn entry
spawned_answers = refl

abbrev spawned : System
spawned = record initial {
  world = (spawn world 10 int_result (pos 1) (5 ∷ [])).1;
  bindings = 0 ∷ [];
}

reached : Reach answers initial spawned
reached = next here (spawns 10 int_result (pos 1) (5 ∷ []) refl)

called-once_example :
    (count 0 spawned.world.calls ≤ 1)
    × (0 < count 0 spawned.world.unrun
        → (count 0 spawned.world.calls ≡ 0)
          × (t : Task) × (spawned.world.task 0 ≡ some t)
          × (t.joined ≡ false)
          × (0 < count 0 spawned.bindings + count 0 spawned.scoped))
called-once_example = called-once answers 0 reached

freed-once_example :
    (count 0 spawned.world.frees ≤ 1)
    × ((count 0 spawned.world.frees ≡ 1)
        ↔ ((0 < spawned.world.next) × (count 0 spawned.bindings + count 0 spawned.scoped ≡ 0)))
freed-once_example = freed-once answers 0 reached
