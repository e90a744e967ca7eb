-- ===== src/Tasks/Safety.antt =====
-- However the threads of a program go on, what holds of every task.
use prismio.Base.{
  ℕ, suc, ◌+◌, ◌-◌, ◌<◌, ◌≤◌, ◌≡◌, ◌↔◌, ◌⊎◌, inl, inr, refl, sym, ap, ◌∙◌, Bool, true, false,
  Bool-cases, Option, none, some, List, ◌∷◌, arith, ◌==◌, leb, if◌then◌else◌, take,
}
use mathlib.Core.Path.{subst}
use prismio.Base.Count.{count}
use prismio.Base.Int.{ℤ}
use prismio.Tasks.{
  called, invoke, ResultKind, Task, Answers, World, Scope, Pass, done, with_task, without, entry,
  make, arity, begin, await, release, scope_add, spawn, scope_spawn, start, on_task,
}
use prismio.Tasks.Steps.{
  System, initial, Step, spawns, scope_spawns, makes, starts, starts_alone, runs, runs_here, joins,
  drops, ends, Reach, here, next,
}
use prismio.Tasks.Laws.{
  Phase, IsOk, At, Inv, AtWorld, IsOkTask, IsLocal, Ends, IsJoined, count-without_self,
  count-without_other, begin-IsLocal, release-IsLocal, entry-IsLocal, runs_here-IsOk,
  runs_here-IsLocal, scope_add-IsLocal, await-IsLocal, begin-IsOk, release-IsOk, entry-IsOk,
  scope_add-IsOk, await-IsJoined,
}

-- An operation on `h` that keeps what holds, where the holders of `h` go from `k` to `k'`.
pub record Moves (h : ℕ) (w w' : World) (k k' : ℕ) : Type 0 where
  pub itself : AtWorld w h k → AtWorld w' h k'
  pub others : (j n : ℕ) → (j == h) ≡ false → AtWorld w j n → AtWorld w' j n

Moves-trans :
    {h k k' k'' : ℕ} {w w' w'' : World}
    → Moves h w w' k k'
    → Moves h w' w'' k' k''
    → Moves h w w'' k k''
Moves-trans m m' = record {
  itself = λ a. m'.itself (m.itself a);
  others = λ j n e a. m'.others j n e (m.others j n e a);
}

IsLocal-others :
    {h : ℕ} {w w' : World}
    → IsLocal h w w'
    → (j n : ℕ) → (j == h) ≡ false
    → AtWorld w j n
    → AtWorld w' j n
IsLocal-others {h} {w} {w'} l j n e a =
    rw (l.task_eq j e, l.unrun_eq j e, l.calls_eq j e, l.frees_eq j e, l.next_eq) a

at_task : (w : World) (h k : ℕ) (t : Task) → w.task h ≡ some t → AtWorld w h k → IsOkTask w h t k
at_task w h k t e a =
    subst
      (λ (o : Option Task).
        IsOk o (count h w.unrun) (count h w.calls) (count h w.frees) k (leb w.next h))
      e a

begin-Moves :
    (w : World) (h : ℕ) (t : Task) (k : ℕ) → w.task h ≡ some t → Moves h w (begin w h t).1 k k
begin-Moves w h t k e = record {
  itself = λ a. begin-IsOk w h t k e (at_task w h k t e a);
  others = IsLocal-others (begin-IsLocal w h t);
}

release-Moves :
    (w : World) (h : ℕ) (t : Task) (k : ℕ)
    → w.task h ≡ some t
    → (t.joined ≡ true) ⊎ (1 < k)
    → Moves h w (release w h t) k (k - 1)
release-Moves w h t k e j = record {
  itself = λ a. release-IsOk w h t k e j (at_task w h k t e a);
  others = IsLocal-others (release-IsLocal w h t);
}

runs_here-Moves :
    (answers : Answers) (w : World) (h : ℕ) (t : Task) (k : ℕ)
    → w.task h ≡ some t
    → t.started ≡ false
    → Moves h w (called w h (invoke answers (record t { started = true }))) k k
runs_here-Moves answers w h t k e n = record {
  itself = λ a. runs_here-IsOk answers w h t k n (at_task w h k t e a);
  others = IsLocal-others (runs_here-IsLocal answers w h t);
}

entry-Moves :
    (answers : Answers) (w : World) (h : ℕ) (t : Task) (k : ℕ)
    → 0 < count h w.unrun
    → w.task h ≡ some t
    → Moves h w (entry answers w h t) k k
entry-Moves answers w h t k r e = record {
  itself = λ a. entry-IsOk answers w h t k r (at_task w h k t e a);
  others = IsLocal-others (entry-IsLocal answers w h t);
}

scope_add-Moves :
    (sc : Scope) (w : World) (h : ℕ) (t : Task) (k : ℕ)
    → w.task h ≡ some t
    → Moves h w (scope_add sc w h t).1 k (suc k)
scope_add-Moves sc w h t k e = record {
  itself = λ a. scope_add-IsOk sc w h t k (at_task w h k t e a);
  others = IsLocal-others (scope_add-IsLocal sc w h t);
}

Ends-done : (P : World → Type 0) (w : World) (p : Pass World) → p ≡ done w → Ends P p → P w
Ends-done P w p e a = subst (Ends P) e a

-- The task that make leaves at the new address.
abbrev made : ℕ → ResultKind → ℤ → List ℕ → Task
made fn kind nargs args = record {
  fn = fn;
  rkind = kind;
  nargs = arity nargs;
  args = take 3 args;
  result_i = 0;
  result_p = 0;
  joined = false;
  started = false;
  threaded = false;
  refs = 1;
}

make-task :
    (w : World) (fn : ℕ) (kind : ResultKind) (nargs : ℤ) (args : List ℕ)
    → (make w fn kind nargs args).1.task w.next ≡ some (made fn kind nargs args)
unfolding make
make-task w fn kind nargs args =
    let same : (w.next == w.next) ≡ true = ground arith in
    ap (λ (b : Bool). if b then some (made fn kind nargs args) else w.task w.next) same

make-Moves :
    (w : World) (fn : ℕ) (kind : ResultKind) (nargs : ℤ) (args : List ℕ) (k : ℕ)
    → Moves w.next w (make w fn kind nargs args).1 k (suc k)
unfolding make
make-Moves w fn kind nargs args k = record {
  itself = λ a. new_task (w.task w.next) a;
  others = λ j n e a. let e' : leb (suc w.next) j ≡ leb w.next j = ground arith in rw (e, e') a;
}
  where
    new_task :
        (o : Option Task)
        → IsOk o
            (count w.next w.unrun)
            (count w.next w.calls)
            (count w.next w.frees)
            k
            (leb w.next w.next)
        → AtWorld (make w fn kind nargs args).1 w.next (suc k)
    new_task none a = ground arith
    new_task (some t) a = absurd (let h : leb w.next w.next ≡ false = a.0 in ground arith)

spawn-Moves :
    (w : World) (fn : ℕ) (kind : ResultKind) (nargs : ℤ) (args : List ℕ) (k : ℕ)
    → Moves w.next w (spawn w fn kind nargs args).1 k (suc k)
unfolding spawn
spawn-Moves w fn kind nargs args k =
    let m = (make w fn kind nargs args).1 in
    let e = make-task w fn kind nargs args in
    subst
      (λ (o : Option Task).
        Moves w.next w (elim o [ none ↦ m | some t ↦ (begin m w.next t).1 ]) k (suc k))
      (sym e)
      (Moves-trans (make-Moves w fn kind nargs args k)
        (begin-Moves m w.next (made fn kind nargs args) (suc k) e))

-- A wait that ends: the task is joined, and it holds of it what held.
await-Moves :
    (answers : Answers) (w w' : World) (h : ℕ) (t : Task) (k : ℕ)
    → w.task h ≡ some t
    → await answers w h t ≡ done w'
    → Moves h w w' k k
await-Moves answers w w' h t k e d = record {
  itself = λ a.
      let j =
        Ends-done (IsJoined h k) w' (await answers w h t) d
          (await-IsJoined answers w h t k e (at_task w h k t e a)) in
      subst
        (λ (o : Option Task).
          IsOk o (count h w'.unrun) (count h w'.calls) (count h w'.frees) k (leb w'.next h))
        (sym j.1) j.3;
  others =
      IsLocal-others
        (Ends-done (IsLocal h w) w' (await answers w h t) d (await-IsLocal answers w h t));
}

abbrev joined_of : Option Task → Bool
joined_of none = false
joined_of (some t) = t.joined

await-joined :
    (answers : Answers) (w w' : World) (h : ℕ) (t t' : Task) (k : ℕ)
    → w.task h ≡ some t
    → await answers w h t ≡ done w'
    → AtWorld w h k
    → w'.task h ≡ some t'
    → t'.joined ≡ true
await-joined answers w w' h t t' k e d a e' =
    let j =
      Ends-done (IsJoined h k) w' (await answers w h t) d
        (await-IsJoined answers w h t k e (at_task w h k t e a)) in
    ap joined_of (sym e' ∙ j.1) ∙ j.2

-- The world of a scope's spawn is that of a spawn, with one more holder.
scope_spawn-Moves :
    (sc : Scope) (w : World) (fn : ℕ) (kind : ResultKind) (nargs : ℤ) (args : List ℕ) (k : ℕ)
    → Moves w.next w (scope_spawn sc w fn kind nargs args).2 k (suc (suc k))
unfolding scope_spawn spawn make begin
scope_spawn-Moves sc w fn kind nargs args k =
    let w1 = (spawn w fn kind nargs args).1 in
    subst (λ (o : Option Task). Moves w.next w (adding o).1 k (suc (suc k))) (sym there)
      (Moves-trans (spawn-Moves w fn kind nargs args k)
        (scope_add-Moves sc w1 w.next running (suc k) there))
  where
    adding : Option Task → Scope × World
    adding o = elim o [
      | none ↦ (sc, (spawn w fn kind nargs args).1)
      | some t ↦ scope_add sc (spawn w fn kind nargs args).1 w.next t
    ]

    running : Task
    running = record (made fn kind nargs args) { started = true; threaded = true }

    m : World
    m = (make w fn kind nargs args).1

    after : Option Task → World
    after o = elim o [ none ↦ m | some t ↦ (begin m w.next t).1 ]

    same : (w.next == w.next) ≡ true
    same = ground arith

    there : (spawn w fn kind nargs args).1.task w.next ≡ some running
    there =
        ap (λ (o : Option Task). (after o).task w.next) (make-task w fn kind nargs args)
        ∙ ap (λ (b : Bool). if b then some running else m.task w.next) same

start-Moves :
    (sc : Scope) (w : World) (h : ℕ) (t : Task) (k : ℕ)
    → w.task h ≡ some t
    → Moves h w (start sc w h).1 k (if t.started then k else suc k)
unfolding start begin
start-Moves sc w h t k e =
    subst (λ (o : Option Task). Moves h w (answer o).1 k (if t.started then k else suc k)) (sym e)
      (by_started (Bool-cases t.started))
  where
    running : Task
    running = record t { started = true; threaded = true }

    w2 : World
    w2 = record (with_task w h (some running)) { unrun = h ∷ w.unrun }

    answer : Option Task → Scope × World
    answer o = elim o [
      | none ↦ (sc, w)
      | some t ↦
          let b = begin w h t in
          if b.0 then on_task b.1 h (sc, b.1) (scope_add sc b.1 h) else (sc, b.1)
    ]

    adding : Option Task → Scope × World
    adding o = elim o [ none ↦ (sc, w2) | some u ↦ scope_add sc w2 h u ]

    branch : Bool → Bool × World
    branch b = if b then (false, w) else (true, w2)

    finish : Bool × World → Scope × World
    finish b = if b.0 then on_task b.1 h (sc, b.1) (scope_add sc b.1 h) else (sc, b.1)

    there : w2.task h ≡ some running
    there =
        let same : (h == h) ≡ true = ground arith in
        ap (λ (b : Bool). if b then some running else w.task h) same

    by_started :
        t.started ≡ true ⊎ t.started ≡ false
        → Moves h w (finish (branch t.started)).1 k (if t.started then k else suc k)
    by_started (inl s) =
        subst (λ (b : Bool). Moves h w (finish (branch b)).1 k (if b then k else suc k)) (sym s)
          (record { itself = λ a. a; others = λ j n d a. a })
    by_started (inr s) =
        let first : Moves h w w2 k k =
          subst (λ (b : Bool). Moves h w (branch b).1 k k) s (begin-Moves w h t k e) in
        let second : Moves h w2 (finish (true, w2)).1 k (suc k) =
          subst (λ (o : Option Task). Moves h w2 (adding o).1 k (suc k)) (sym there)
            (scope_add-Moves sc w2 h running k there) in
        subst (λ (b : Bool). Moves h w (finish (branch b)).1 k (if b then k else suc k)) (sym s)
          (Moves-trans first second)

-- The invariant, where an operation on `h` moves the world and changes the holders of `h` alone.
Moves-Inv :
    (s s' : System) (h : ℕ)
    → Moves h s.world s'.world
        (count h s.bindings + count h s.scoped)
        (count h s'.bindings + count h s'.scoped)
    → ((j : ℕ)
        → (j == h) ≡ false
        → count j s'.bindings + count j s'.scoped ≡ count j s.bindings + count j s.scoped)
    → Inv s
    → Inv s'
Moves-Inv s s' h m others inv j = elim (Bool-cases (j == h)) [
  | inl e ↦ let e' : h ≡ j = ground arith in subst (At s') e' (m.itself (inv h))
  | inr e ↦
      subst (λ (n : ℕ). AtWorld s'.world j n) (sym (others j e))
        (m.others j (count j s.bindings + count j s.scoped) e (inv j))
]

Step-Inv : (answers : Answers) (s s' : System) → Step answers s s' → Inv s → Inv s'
Step-Inv answers s s' st inv = by_step st
  where
    w : World
    w = s.world

    n : ℕ → ℕ
    n j = count j s.bindings + count j s.scoped

    -- A step to `s2`, an operation on `h` that changes the number of its holders to `k'`.
    to :
        (s2 : System) (h k' : ℕ)
        → s' ≡ s2
        → Moves h w s2.world (n h) k'
        → k' ≡ count h s2.bindings + count h s2.scoped
        → ((j : ℕ) → (j == h) ≡ false → count j s2.bindings + count j s2.scoped ≡ n j)
        → Inv s'
    to s2 h k' e m ek others =
        subst Inv (sym e)
          (Moves-Inv s s2 h (subst (λ (k : ℕ). Moves h w s2.world (n h) k) ek m) others inv)

    if_count :
        (b : Bool) (h : ℕ)
        → (if b then n h else suc (n h))
          ≡ count h s.bindings + count h (if b then s.scoped else h ∷ s.scoped)
    if_count true h = refl
    if_count false h = ground arith

    if_other :
        (b : Bool) (h j : ℕ)
        → (j == h) ≡ false
        → count j s.bindings + count j (if b then s.scoped else h ∷ s.scoped) ≡ n j
    if_other true h j d = refl
    if_other false h j d = ground arith

    by_step : Step answers s s' → Inv s'
    by_step (spawns fn kind nargs args e) =
        to (record s { world = (spawn w fn kind nargs args).1; bindings = w.next ∷ s.bindings })
          w.next (suc (n w.next)) e (spawn-Moves w fn kind nargs args (n w.next)) (ground arith)
          (λ j d. ground arith)
    by_step (scope_spawns sc fn kind nargs args e) =
        to
          (record s {
            world = (scope_spawn sc w fn kind nargs args).2;
            bindings = w.next ∷ s.bindings;
            scoped = w.next ∷ s.scoped;
          })
          w.next (suc (suc (n w.next))) e (scope_spawn-Moves sc w fn kind nargs args (n w.next))
          (ground arith) (λ j d. ground arith)
    by_step (makes fn kind nargs args e) =
        to (record s { world = (make w fn kind nargs args).1; bindings = w.next ∷ s.bindings })
          w.next (suc (n w.next)) e (make-Moves w fn kind nargs args (n w.next)) (ground arith)
          (λ j d. ground arith)
    by_step (starts h t sc there e) =
        to
          (record s {
            world = (start sc w h).1;
            scoped = if t.started then s.scoped else h ∷ s.scoped;
          })
          h (if t.started then n h else suc (n h)) e (start-Moves sc w h t (n h) there)
          (if_count t.started h) (if_other t.started h)
    by_step (starts_alone h t there e) =
        to (record s { world = (begin w h t).1 }) h (n h) e (begin-Moves w h t (n h) there) refl
          (λ j d. refl)
    by_step (runs h t waiting there e) =
        to (record s { world = entry answers w h t }) h (n h) e
          (entry-Moves answers w h t (n h) waiting there) refl (λ j d. refl)
    by_step (runs_here h t there new e) =
        to (record s { world = called w h (invoke answers (record t { started = true })) }) h (n h)
          e (runs_here-Moves answers w h t (n h) there new) refl (λ j d. refl)
    by_step (joins h t w' there d e) =
        to (record s { world = w' }) h (n h) e (await-Moves answers w w' h t (n h) there d) refl
          (λ j d. refl)
    by_step (drops h t held there j e) =
        to (record s { world = release w h t; bindings = without h s.bindings }) h (n h - 1) e
          (release-Moves w h t (n h) there
            (elim j [ inl a ↦ inl a | inr b ↦ inr (omega (arith, held, b)) ]))
          (omega (arith, count-without_self h s.bindings, held))
          (λ j d. omega (arith, count-without_other h j s.bindings d))
    by_step (ends h t t' w' held there d there' e) =
        to (record s { world = release w' h t'; scoped = without h s.scoped }) h (n h - 1) e
          (Moves-trans (await-Moves answers w w' h t (n h) there d) (
            release-Moves w' h t' (n h) there'
              (inl (await-joined answers w w' h t t' (n h) there d (inv h) there'))))
          (omega (arith, count-without_self h s.scoped, held))
          (λ j d. omega (arith, count-without_other h j s.scoped d))

initial-Inv : Inv initial
initial-Inv h = let e : leb 0 h ≡ true = ground arith in rw e (ground arith)

Reach-Inv : (answers : Answers) {s : System} → Reach answers initial s → Inv s
Reach-Inv answers here = initial-Inv
Reach-Inv answers (next {s'} {s''} r st) = Step-Inv answers s' s'' st (Reach-Inv answers r)

Phase-facts :
    (started joined threaded : Bool) (u c : ℕ)
    → Phase started joined threaded u c
    → (c ≤ 1) × (0 < u → (c ≡ 0) × (joined ≡ false))
Phase-facts false j th u c (a, b, d, e) = (omega arith, λ h. absurd (omega arith))
Phase-facts true true true u c (a, b) =
    let one : c ≡ 1 = b refl in (omega arith, λ h. absurd (omega arith))
Phase-facts true false true u c (a, b) = (omega arith, λ h. (omega arith, refl))
Phase-facts true j false u c (a, b) = (omega arith, λ h. absurd (omega arith))

called_facts :
    (o : Option Task) (u c f k : ℕ) (new : Bool)
    → IsOk o u c f k new
    → (c ≤ 1) × (0 < u → (c ≡ 0) × (t : Task) × (o ≡ some t) × (t.joined ≡ false) × (0 < k))
called_facts none u c f k true (a, b, d, e) = (omega arith, λ h. absurd (omega arith))
called_facts none u c f k false (a, b, d, e) = (omega arith, λ h. absurd (omega arith))
called_facts (some t) u c f k new (a, b, d, e, p) =
    let facts = Phase-facts t.started t.joined t.threaded u c p in
    (facts.0, λ h. ((facts.1 h).0, t, refl, (facts.1 h).1, d))

freed_facts :
    (o : Option Task) (u c f k : ℕ) (new : Bool)
    → IsOk o u c f k new
    → (f ≤ 1) × ((f ≡ 1) ↔ ((new ≡ false) × (k ≡ 0)))
freed_facts none u c f k true (a, b, d, e) = (
  omega arith,
  (λ h. absurd (omega arith), λ h. absurd (let h' : true ≡ false = h.0 in ground arith)),
)
freed_facts none u c f k false (a, b, d, e) = (omega arith, (λ h. (refl, e), λ h. d))
freed_facts (some t) u c f k new (a, b, d, e, p) =
    (omega arith, (λ h. absurd (omega arith), λ h. absurd (omega (arith, h.1))))

-- In every state that a program's threads can reach, where no two of them test and change one task at
-- the same moment and a binding lets go of a task only once that is joined or while a scope holds it,
-- the function of the task has been called at most once, and if it is still to be called by the task's
-- own thread, then it has not been, the task is not joined, and its memory is there with a holder.
pub called-once :
    (answers : Answers) (h : ℕ) {s : System}
    → Reach answers initial s
    → (count h s.world.calls ≤ 1)
      × (0 < count h s.world.unrun
          → (count h s.world.calls ≡ 0)
            × (t : Task) × (s.world.task h ≡ some t)
            × (t.joined ≡ false)
            × (0 < count h s.bindings + count h s.scoped))
called-once answers h {s} r =
    called_facts (s.world.task h) (count h s.world.unrun) (count h s.world.calls)
      (count h s.world.frees) (count h s.bindings + count h s.scoped) (leb s.world.next h)
      (Reach-Inv answers r h)

-- In every state that a program's threads can reach, where no two of them test and change one task at
-- the same moment and a binding lets go of a task only once that is joined or while a scope holds it, a
-- task is freed at most once, and it has been freed exactly if it was made and no binding and no scope
-- holds it any more.
pub freed-once :
    (answers : Answers) (h : ℕ) {s : System}
    → Reach answers initial s
    → (count h s.world.frees ≤ 1)
      × ((count h s.world.frees ≡ 1)
          ↔ ((h < s.world.next) × (count h s.bindings + count h s.scoped ≡ 0)))
freed-once answers h {s} r =
    let f =
      freed_facts (s.world.task h) (count h s.world.unrun) (count h s.world.calls)
        (count h s.world.frees) (count h s.bindings + count h s.scoped) (leb s.world.next h)
        (Reach-Inv answers r h) in
    (f.0, (λ e. (ground (arith, f.1.0 e), (f.1.0 e).1), λ e. f.1.1 (ground (arith, e.0), e.1)))
