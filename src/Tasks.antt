-- ===== src/Tasks.antt =====
-- runtime/program_support.c: tasks, futures and scopes.
--
-- A task is known by a number in the order of making, which stands for the address of its `PrismioTask`
-- and, unlike that, is never used again. The thread of a task that has been started and has not yet
-- called its function is in `unrun`; `calls` and `frees` record, in order, which tasks' functions have
-- been called and which tasks have been freed. What a function answers is `Answers`. There is memory
-- and a thread for every task: without one the program panics, and ends.
pub mod Steps
pub mod Laws
pub mod Safety
mod Tests
use prismio.Base.{
  ℕ, zero, suc, ◌+◌, ◌-◌, ◌*◌, Bool, true, false, not, ◌&&◌, Option, none, some, List, [], ◌∷◌,
  ◌++◌, ◌==◌, ltb, leb, if◌then◌else◌, length, take,
}
use prismio.Base.Count.{count}
use prismio.Base.Int.{ℤ, pos, negsuc}

-- PRISMIO_RK_INT, PRISMIO_RK_PTR and PRISMIO_RK_VOID
pub data ResultKind : Type 0 where
  int_result : ResultKind
  ptr_result : ResultKind
  void_result : ResultKind

pub record Task : Type 0 where
  pub fn : ℕ
  pub rkind : ResultKind
  pub nargs : ℕ
  pub args : List ℕ
  pub result_i : ℕ
  pub result_p : ℕ
  pub joined : Bool
  pub started : Bool
  pub threaded : Bool
  pub refs : ℕ

abbrev pub Answers : Type 0
Answers = ℕ → List ℕ → ℕ

pub record World : Type 0 where
  pub task : ℕ → Option Task
  pub next : ℕ
  pub unrun : List ℕ
  pub calls : List ℕ
  pub frees : List ℕ

-- A scope's tasks, in the order in which they were registered, and the capacity of its block.
pub record Scope : Type 0 where
  pub tasks : List ℕ
  pub cap : ℕ

-- A call that may have to wait for another thread.
pub data Pass (A : Type 0) : Type 0 where
  waits : Pass A
  done : A → Pass A

abbrev pub with_task : World → ℕ → Option Task → World
with_task w h t = record w { task = λ j. if j == h then t else w.task j }

-- prismio_task_invoke: calls the function with as many of its arguments as it takes, and keeps the
-- answer by its kind.
unfoldable pub invoke : Answers → Task → Task
invoke answers t =
    let answer = answers t.fn (take t.nargs t.args) in
    elim t.rkind [
      | int_result ↦ record t { result_i = answer }
      | ptr_result ↦ record t { result_p = answer }
      | void_result ↦ t
    ]

abbrev pub called : World → ℕ → Task → World
called w h t = record (with_task w h (some t)) { calls = h ∷ w.calls }

-- The first of a list that is `h`, left out.
abbrev pub without : ℕ → List ℕ → List ℕ
without h [] = []
without h (x ∷ xs) = if x == h then xs else x ∷ without h xs

-- prismio_task_entry, on the task's own thread
unfoldable pub entry : Answers → World → ℕ → Task → World
unfolding invoke
entry answers w h t = record (called w h (invoke answers t)) { unrun = without h w.unrun }

-- Between no argument and three
abbrev pub arity : ℤ → ℕ
arity (pos n) = if ltb 3 n then 3 else n
arity (negsuc n) = 0

-- prismio_task_make, prismio_future_new
unfoldable pub make : World → ℕ → ResultKind → ℤ → List ℕ → ℕ × World
make w fn rkind nargs args = (
  w.next,
  record (with_task w w.next (
      some (record {
        fn = fn;
        rkind = rkind;
        nargs = arity nargs;
        args = take 3 args;
        result_i = 0;
        result_p = 0;
        joined = false;
        started = false;
        threaded = false;
        refs = 1;
      }))) { next = suc w.next },
)

-- prismio_task_begin: whether this call started the task.
unfoldable pub begin : World → ℕ → Task → Bool × World
begin w h t = if t.started then (false, w) else (
  true,
  record (with_task w h (some (record t { started = true; threaded = true }))) {
    unrun = h ∷ w.unrun;
  },
)

-- prismio_task_await: a task that never started runs here; a thread is waited for.
unfoldable pub await : Answers → World → ℕ → Task → Pass World
unfolding invoke
await answers w h t =
    if t.joined
    then done w
    else if not t.started
    then done (called w h (record (invoke answers (record t { started = true })) { joined = true }))
    else if t.threaded && not (count h w.unrun == 0)
    then waits
    else done (with_task w h (some (record t { joined = true })))

-- prismio_task_release
unfoldable pub release : World → ℕ → Task → World
release w h t =
    if leb (t.refs - 1) 0
    then record (with_task w h none) { frees = h ∷ w.frees }
    else with_task w h (some (record t { refs = t.refs - 1 }))

-- prismio_scope_new
abbrev pub new_scope : Scope
new_scope = record { tasks = []; cap = 0 }

-- prismio_scope_add
unfoldable pub scope_add : Scope → World → ℕ → Task → Scope × World
scope_add sc w h t = (
  record {
    tasks = sc.tasks ++ (h ∷ []);
    cap = if length sc.tasks == sc.cap then (if sc.cap == 0 then 4 else sc.cap * 2) else sc.cap;
  },
  with_task w h (some (record t { refs = suc t.refs })),
)

-- A call on a handle: nothing where the handle is no task's.
abbrev pub on_task : {A : Type 0} → World → ℕ → A → (Task → A) → A
on_task w h other k = elim (w.task h) [ none ↦ other | some t ↦ k t ]

-- prismio_task_spawn
unfoldable pub spawn : World → ℕ → ResultKind → ℤ → List ℕ → ℕ × World
unfolding make begin
spawn w fn rkind nargs args =
    let m = make w fn rkind nargs args in (m.0, on_task m.1 m.0 m.1 (λ t. (begin m.1 m.0 t).1))

-- prismio_scope_spawn, in a scope
unfoldable pub scope_spawn : Scope → World → ℕ → ResultKind → ℤ → List ℕ → ℕ × Scope × World
unfolding spawn scope_add
scope_spawn sc w fn rkind nargs args =
    let m = spawn w fn rkind nargs args in
    let added = on_task m.1 m.0 (sc, m.1) (scope_add sc m.1 m.0) in (m.0, added.0, added.1)

-- prismio_task_start, in a scope
unfoldable pub start : Scope → World → ℕ → Scope × World
unfolding begin scope_add
start sc w h =
    on_task w h (sc, w)
      λ t.
        let b = begin w h t in
        if b.0 then on_task b.1 h (sc, b.1) (scope_add sc b.1 h) else (sc, b.1)

-- The loop of prismio_scope_end
unfoldable pub end_tasks : Answers → World → List ℕ → Pass World
unfolding await release
end_tasks answers w [] = done w
end_tasks answers w (h ∷ hs) = on_task w h (end_tasks answers w hs) λ t.
    elim (await answers w h t) [
      | waits ↦ waits
      | done w' ↦ end_tasks answers (on_task w' h w' (release w' h)) hs
    ]

-- prismio_scope_end
unfoldable pub scope_end : Answers → World → Scope → Pass World
unfolding end_tasks
scope_end answers w sc = end_tasks answers w sc.tasks

-- prismio_task_join, prismio_task_join_p and prismio_task_join_v: the answer of the kind asked for.
abbrev pub result_of : ResultKind → Task → ℕ
result_of int_result t = t.result_i
result_of ptr_result t = t.result_p
result_of void_result t = 0

unfoldable pub join : Answers → ResultKind → World → ℕ → Pass (ℕ × World)
unfolding await
join answers kind w h = on_task w h (done (0, w)) λ t. elim (await answers w h t) [
  | waits ↦ waits
  | done w' ↦ done (on_task w' h 0 (result_of kind), w')
]
