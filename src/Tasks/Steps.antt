-- ===== src/Tasks/Steps.antt =====
-- Tasks of a program whose threads go on in any order: who holds a handle, and what may happen next.
use prismio.Base.{ℕ, ◌<◌, ◌≡◌, ◌⊎◌, true, false, none, some, List, [], ◌∷◌, if◌then◌else◌}
use prismio.Base.Count.{count}
use prismio.Base.Int.{ℤ}
use prismio.Tasks.{
  ResultKind, Task, Answers, World, Scope, done, without, called, invoke, entry, make, begin, await,
  release, spawn, scope_spawn, start,
}

-- A handle is held by a binding of the program and by the scope that registered its task. `scoped` is
-- what the open scopes hold together.
pub record System : Type 0 where
  pub world : World
  pub bindings : List ℕ
  pub scoped : List ℕ

abbrev pub initial : System
initial = record {
  world = record { task = λ h. none; next = 0; unrun = []; calls = []; frees = [] };
  bindings = [];
  scoped = [];
}

-- What may come next. A binding is released once: after its task has been joined, or at once where the
-- task was spawned by a statement within a scope, which holds it (src/ir/stmt.psm). A scope's end takes
-- its tasks one after the other. An await that runs a task itself is `runs_here`, where it calls the
-- function, and a later `joins`; in between any thread may go on. The code takes no lock: that a test of
-- a task's flags or count and the change that follows it are one step is what a program owes that keeps
-- two threads from calling on one handle at the same moment.
pub data Step (answers : Answers) (s s' : System) : Type 0 where
  spawns :
      (fn : ℕ) (kind : ResultKind) (nargs : ℤ) (args : List ℕ)
      → s' ≡ record s {
        world = (spawn s.world fn kind nargs args).1;
        bindings = s.world.next ∷ s.bindings;
      }
      → Step answers s s'
  scope_spawns :
      (sc : Scope) (fn : ℕ) (kind : ResultKind) (nargs : ℤ) (args : List ℕ)
      → s' ≡ record s {
        world = (scope_spawn sc s.world fn kind nargs args).2;
        bindings = s.world.next ∷ s.bindings;
        scoped = s.world.next ∷ s.scoped;
      }
      → Step answers s s'
  makes :
      (fn : ℕ) (kind : ResultKind) (nargs : ℤ) (args : List ℕ)
      → s' ≡ record s {
        world = (make s.world fn kind nargs args).1;
        bindings = s.world.next ∷ s.bindings;
      }
      → Step answers s s'
  starts :
      (h : ℕ) (t : Task) (sc : Scope)
      → s.world.task h ≡ some t
      → s' ≡ record s {
        world = (start sc s.world h).1;
        scoped = if t.started then s.scoped else h ∷ s.scoped;
      }
      → Step answers s s'
  starts_alone :
      (h : ℕ) (t : Task)
      → s.world.task h ≡ some t
      → s' ≡ record s { world = (begin s.world h t).1 }
      → Step answers s s'
  runs :
      (h : ℕ) (t : Task)
      → 0 < count h s.world.unrun
      → s.world.task h ≡ some t
      → s' ≡ record s { world = entry answers s.world h t }
      → Step answers s s'
  runs_here :
      (h : ℕ) (t : Task)
      → s.world.task h ≡ some t
      → t.started ≡ false
      → s' ≡ record s { world = called s.world h (invoke answers (record t { started = true })) }
      → Step answers s s'
  joins :
      (h : ℕ) (t : Task) (w : World)
      → s.world.task h ≡ some t
      → await answers s.world h t ≡ done w
      → s' ≡ record s { world = w }
      → Step answers s s'
  drops :
      (h : ℕ) (t : Task)
      → 0 < count h s.bindings
      → s.world.task h ≡ some t
      → (t.joined ≡ true) ⊎ (0 < count h s.scoped)
      → s' ≡ record s { world = release s.world h t; bindings = without h s.bindings }
      → Step answers s s'
  ends :
      (h : ℕ) (t t' : Task) (w : World)
      → 0 < count h s.scoped
      → s.world.task h ≡ some t
      → await answers s.world h t ≡ done w
      → w.task h ≡ some t'
      → s' ≡ record s { world = release w h t'; scoped = without h s.scoped }
      → Step answers s s'

pub data Reach (answers : Answers) (s : System) : System → Type 0 where
  here : Reach answers s s
  next : {s' s'' : System} → Reach answers s s' → Step answers s' s'' → Reach answers s s''
