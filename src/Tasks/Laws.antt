-- ===== src/Tasks/Laws.antt =====
-- A task's function is called once, and its memory is there until no thread needs it.
use prismio.Base.{
  ℕ, suc, ◌+◌, ◌-◌, ◌<◌, ◌≤◌, ◌≡◌, ◌⊎◌, inl, inr, refl, sym, ap, ap₂, ◌∙◌, Bool, true, false, not,
  ◌&&◌, Bool-cases, Option, none, some, List, [], ◌∷◌, arith, ◌==◌, leb, if◌then◌else◌,
}
use mathlib.Core.Path.{subst}
use prismio.Base.Count.{count}
use prismio.Tasks.{
  Task, Answers, World, Scope, Pass, waits, done, with_task, called, without, invoke, entry, begin,
  await, release, scope_add,
}
use prismio.Tasks.Steps.{System}

-- How far a task is: not started, on a thread of its own, or run by the one that awaited it; with how
-- often its thread is still to call its function, and how often that has been called.
abbrev pub Phase : Bool → Bool → Bool → ℕ → ℕ → Type 0
Phase false joined threaded u c = (joined ≡ false) × (threaded ≡ false) × (u ≡ 0) × (c ≡ 0)
Phase true joined true u c = (u + c ≡ 1) × (joined ≡ true → c ≡ 1)
Phase true joined false u c = (u ≡ 0) × (c ≡ 1)

-- What holds of an address, new or not, with `k` holders and `f` frees.
abbrev pub IsOk : Option Task → ℕ → ℕ → ℕ → ℕ → Bool → Type 0
IsOk none u c f k true = (u ≡ 0) × (c ≡ 0) × (f ≡ 0) × (k ≡ 0)
IsOk none u c f k false = (u ≡ 0) × (c ≤ 1) × (f ≡ 1) × (k ≡ 0)
IsOk (some t) u c f k new =
    (new ≡ false) × (t.refs ≡ k) × (0 < k) × (f ≡ 0) × Phase t.started t.joined t.threaded u c

abbrev pub At : System → ℕ → Type 0
At s h =
    IsOk (s.world.task h) (count h s.world.unrun) (count h s.world.calls) (count h s.world.frees)
      (count h s.bindings + count h s.scoped) (leb s.world.next h)

abbrev pub Inv : System → Type 0
Inv s = (h : ℕ) → At s h

pub count-without_self : (h : ℕ) (xs : List ℕ) → count h (without h xs) ≡ count h xs - 1
count-without_self h [] = refl
count-without_self h (x ∷ xs) = ground (arith, count-without_self h xs)

pub count-without_other :
    (h j : ℕ) (xs : List ℕ) → (j == h) ≡ false → count j (without h xs) ≡ count j xs
count-without_other h j [] e = refl
count-without_other h j (x ∷ xs) e = ground (arith, count-without_other h j xs)

-- What an operation on `h` leaves alone: everything of every other address.
pub record IsLocal (h : ℕ) (w w' : World) : Type 0 where
  pub task_eq : (j : ℕ) → (j == h) ≡ false → w'.task j ≡ w.task j
  pub unrun_eq : (j : ℕ) → (j == h) ≡ false → count j w'.unrun ≡ count j w.unrun
  pub calls_eq : (j : ℕ) → (j == h) ≡ false → count j w'.calls ≡ count j w.calls
  pub frees_eq : (j : ℕ) → (j == h) ≡ false → count j w'.frees ≡ count j w.frees
  pub next_eq : w'.next ≡ w.next

pub begin-IsLocal : (w : World) (h : ℕ) (t : Task) → IsLocal h w (begin w h t).1
unfolding begin
begin-IsLocal w h t = record {
  task_eq = λ j e. ground arith;
  unrun_eq = λ j e. ground arith;
  calls_eq = λ j e. ground arith;
  frees_eq = λ j e. ground arith;
  next_eq = ground arith;
}

pub release-IsLocal : (w : World) (h : ℕ) (t : Task) → IsLocal h w (release w h t)
unfolding release
release-IsLocal w h t = record {
  task_eq = λ j e. ground arith;
  unrun_eq = λ j e. ground arith;
  calls_eq = λ j e. ground arith;
  frees_eq = λ j e. ground arith;
  next_eq = ground arith;
}

pub entry-IsLocal :
    (answers : Answers) (w : World) (h : ℕ) (t : Task) → IsLocal h w (entry answers w h t)
unfolding entry
entry-IsLocal answers w h t = record {
  task_eq = λ j e. ground arith;
  unrun_eq = λ j e. count-without_other h j w.unrun e;
  calls_eq = λ j e. ground arith;
  frees_eq = λ j e. refl;
  next_eq = refl;
}

pub scope_add-IsLocal :
    (sc : Scope) (w : World) (h : ℕ) (t : Task) → IsLocal h w (scope_add sc w h t).1
unfolding scope_add
scope_add-IsLocal sc w h t = record {
  task_eq = λ j e. ground arith;
  unrun_eq = λ j e. refl;
  calls_eq = λ j e. refl;
  frees_eq = λ j e. refl;
  next_eq = refl;
}

-- What holds of the world that a wait ends in, if it ends.
abbrev pub Ends : (World → Type 0) → Pass World → Type 0
Ends P waits = Unit {0}
Ends P (done w) = P w

pub await-IsLocal :
    (answers : Answers) (w : World) (h : ℕ) (t : Task) → Ends (IsLocal h w) (await answers w h t)
unfolding await
await-IsLocal answers w h t =
    by_state (Bool-cases t.joined) (Bool-cases t.started)
      (Bool-cases (t.threaded && not (count h w.unrun == 0)))
  where
    here_called : World
    here_called =
        called w h (record (invoke answers (record t { started = true })) { joined = true })

    joined_now : World
    joined_now = with_task w h (some (record t { joined = true }))

    outcome : Bool → Bool → Bool → Pass World
    outcome j st th =
        if j
        then done w
        else if not st
        then done here_called
        else if th
        then waits
        else done joined_now

    by_state :
        t.joined ≡ true ⊎ t.joined ≡ false
        → t.started ≡ true ⊎ t.started ≡ false
        → (t.threaded && not (count h w.unrun == 0)) ≡ true
          ⊎ (t.threaded && not (count h w.unrun == 0)) ≡ false
        → Ends (IsLocal h w) (outcome t.joined t.started (t.threaded && not (count h w.unrun == 0)))
    by_state (inl a) b c =
        subst
          (λ (x : Bool).
            Ends (IsLocal h w) (outcome x t.started (t.threaded && not (count h w.unrun == 0))))
          (sym a)
          (record {
            task_eq = λ j e. refl;
            unrun_eq = λ j e. refl;
            calls_eq = λ j e. refl;
            frees_eq = λ j e. refl;
            next_eq = refl;
          })
    by_state (inr a) (inr b) c =
        subst (Ends (IsLocal h w))
          (sym (ap₂ (λ (x y : Bool). outcome x y (t.threaded && not (count h w.unrun == 0))) a b))
          (record {
            task_eq = λ j e. ground arith;
            unrun_eq = λ j e. refl;
            calls_eq = λ j e. ground arith;
            frees_eq = λ j e. refl;
            next_eq = refl;
          })
    by_state (inr a) (inl b) (inl c) =
        subst (Ends (IsLocal h w))
          (sym (
            ap₂ (λ (x y : Bool). outcome x y (t.threaded && not (count h w.unrun == 0))) a b
            ∙ ap (outcome false true) c))
          tt
    by_state (inr a) (inl b) (inr c) =
        subst (Ends (IsLocal h w))
          (sym (
            ap₂ (λ (x y : Bool). outcome x y (t.threaded && not (count h w.unrun == 0))) a b
            ∙ ap (outcome false true) c))
          (record {
            task_eq = λ j e. ground arith;
            unrun_eq = λ j e. refl;
            calls_eq = λ j e. refl;
            frees_eq = λ j e. refl;
            next_eq = refl;
          })

-- The claim about one address of one world, with `k` holders.
abbrev pub AtWorld : World → ℕ → ℕ → Type 0
AtWorld w h k =
    IsOk (w.task h) (count h w.unrun) (count h w.calls) (count h w.frees) k (leb w.next h)

abbrev pub IsOkTask : World → ℕ → Task → ℕ → Type 0
IsOkTask w h t k =
    IsOk (some t) (count h w.unrun) (count h w.calls) (count h w.frees) k (leb w.next h)

pub begin-IsOk :
    (w : World) (h : ℕ) (t : Task) (k : ℕ)
    → w.task h ≡ some t
    → IsOkTask w h t k
    → AtWorld (begin w h t).1 h k
unfolding begin
begin-IsOk w h t k e ok = by_started (Bool-cases t.started)
  where
    outcome : Bool → Bool × World
    outcome b = if b then (false, w) else (
      true,
      record (with_task w h (some (record t { started = true; threaded = true }))) {
        unrun = h ∷ w.unrun;
      },
    )

    by_started : t.started ≡ true ⊎ t.started ≡ false → AtWorld (begin w h t).1 h k
    by_started (inl s) =
        subst (λ (b : Bool). AtWorld (outcome b).1 h k) (sym s)
          (subst
            (λ (o : Option Task).
              IsOk o (count h w.unrun) (count h w.calls) (count h w.frees) k (leb w.next h))
            (sym e) ok)
    by_started (inr s) = subst (λ (b : Bool). AtWorld (outcome b).1 h k) (sym s) (ground arith)

pub release-IsOk :
    (w : World) (h : ℕ) (t : Task) (k : ℕ)
    → w.task h ≡ some t
    → (t.joined ≡ true) ⊎ (1 < k)
    → IsOkTask w h t k
    → AtWorld (release w h t) h (k - 1)
unfolding release
release-IsOk w h t k e j ok = ground arith

pub runs_here-IsOk :
    (answers : Answers) (w : World) (h : ℕ) (t : Task) (k : ℕ)
    → t.started ≡ false
    → IsOkTask w h t k
    → AtWorld (called w h (invoke answers (record t { started = true }))) h k
unfolding invoke
runs_here-IsOk answers w h t k n ok = ground arith

pub runs_here-IsLocal :
    (answers : Answers) (w : World) (h : ℕ) (t : Task)
    → IsLocal h w (called w h (invoke answers (record t { started = true })))
unfolding invoke
runs_here-IsLocal answers w h t = record {
  task_eq = λ j e. ground arith;
  unrun_eq = λ j e. ground arith;
  calls_eq = λ j e. ground arith;
  frees_eq = λ j e. ground arith;
  next_eq = ground arith;
}

pub entry-IsOk :
    (answers : Answers) (w : World) (h : ℕ) (t : Task) (k : ℕ)
    → 0 < count h w.unrun
    → IsOkTask w h t k
    → AtWorld (entry answers w h t) h k
unfolding entry invoke
entry-IsOk answers w h t k r ok = ground (arith, count-without_self h w.unrun)

pub scope_add-IsOk :
    (sc : Scope) (w : World) (h : ℕ) (t : Task) (k : ℕ)
    → IsOkTask w h t k
    → AtWorld (scope_add sc w h t).1 h (suc k)
unfolding scope_add
scope_add-IsOk sc w h t k ok = ground arith

-- Where a wait for the task ends, its function has been called, and that it is joined is noted.
abbrev pub IsJoined : ℕ → ℕ → World → Type 0
IsJoined h k w = (t : Task) × (w.task h ≡ some t) × (t.joined ≡ true) × IsOkTask w h t k

pub await-IsJoined :
    (answers : Answers) (w : World) (h : ℕ) (t : Task) (k : ℕ)
    → w.task h ≡ some t
    → IsOkTask w h t k
    → Ends (IsJoined h k) (await answers w h t)
unfolding await invoke
await-IsJoined answers w h t k e ok =
    by_state (Bool-cases t.joined) (Bool-cases t.started)
      (Bool-cases (t.threaded && not (count h w.unrun == 0)))
  where
    ran : Task
    ran = record (invoke answers (record t { started = true })) { joined = true }

    joined_now : Task
    joined_now = record t { joined = true }

    outcome : Bool → Bool → Bool → Pass World
    outcome j st th =
        if j
        then done w
        else if not st
        then done (called w h ran)
        else if th
        then waits
        else done (with_task w h (some joined_now))

    same : (h == h) ≡ true
    same = ground arith

    by_state :
        t.joined ≡ true ⊎ t.joined ≡ false
        → t.started ≡ true ⊎ t.started ≡ false
        → (t.threaded && not (count h w.unrun == 0)) ≡ true
          ⊎ (t.threaded && not (count h w.unrun == 0)) ≡ false
        → Ends
            (IsJoined h k)
            (outcome t.joined t.started (t.threaded && not (count h w.unrun == 0)))
    by_state (inl a) b c =
        subst
          (λ (x : Bool).
            Ends (IsJoined h k) (outcome x t.started (t.threaded && not (count h w.unrun == 0))))
          (sym a) (t, e, a, ok)
    by_state (inr a) (inr b) c =
        subst (Ends (IsJoined h k))
          (sym (ap₂ (λ (x y : Bool). outcome x y (t.threaded && not (count h w.unrun == 0))) a b))
          (ran, ap (λ (x : Bool). if x then some ran else w.task h) same, refl, ground arith)
    by_state (inr a) (inl b) (inl c) =
        subst (Ends (IsJoined h k))
          (sym (
            ap₂ (λ (x y : Bool). outcome x y (t.threaded && not (count h w.unrun == 0))) a b
            ∙ ap (outcome false true) c))
          tt
    by_state (inr a) (inl b) (inr c) =
        subst (Ends (IsJoined h k))
          (sym (
            ap₂ (λ (x y : Bool). outcome x y (t.threaded && not (count h w.unrun == 0))) a b
            ∙ ap (outcome false true) c))
          (
            joined_now,
            ap (λ (x : Bool). if x then some joined_now else w.task h) same,
            refl,
            ground arith,
          )
